-- ===== src/Udp/SessionManager/Pooled.antt =====
-- core/udp_server/src/session_manager.cpp: the manager and `session_pool_` together. The pool is any
-- that keeps the laws of `MemoryPool.ChunkPool`. It never gets a session back: the heartbeat thread
-- gives those that have left to `delete`, which the pool does not learn of.
pub mod Lent
mod Examples
use server_core.Common.{
  ℕ, ◌≤◌, ◌<◌, ◌≡◌, ◌≢◌, refl, subst, Bool, true, false, List, [], ◌∷◌, Option, none, some, ◌==◌,
  if◌then◌else◌, ◌>>=◌, count, arith, Bool-cases, Option-cases, inl, inr,
}
use mathlib.Core.Option.{some-injective}
use server_core.MemoryPool.Memory.{Ptr, null}
use server_core.MemoryPool.ChunkPool.{ChunkPool}
use server_core.Udp.Endpoint.{Endpoint}
use server_core.Udp.Packet.{Data}
use server_core.Udp.SessionMap.{find}
use server_core.Udp.SessionManager.{Session, Manager, Completion, iocp_task, new_manager}
use server_core.Udp.SessionManager.Loops.{sweep, reap}
use server_core.Udp.SessionManager.Ownership.{places}
use server_core.Udp.SessionManager.Places.{
  makes_session, iocp_task-places, sweep-places, reap-places,
}
use server_core.Udp.SessionManager.Histories.{
  task, sweeps, reaps, Reach-Inv, session_in_one_place, found,
}
use server_core.Udp.SessionManager.Histories

module _ (chunks : ChunkPool) where
  -- `held` are the sessions that the pool has given memory to.
  pub record Sessions : Type 0 where
    pub session_pool : chunks.State
    pub held : List Ptr
    pub manager : Manager

  -- One round of `iocp_task`, with the call of `session_pool_.Malloc()`. A session at null is a fault.
  unfoldable pub pooled_task : Sessions → Completion → chunks.Call → Option Sessions
  pooled_task s c call = elim (makes_session c) [
    | false ↦ some (record s { manager = iocp_task s.manager c null })
    | true ↦ do
      given ← chunks.malloc s.session_pool call
      if given.0 == null
          then none
          else some (record {
            session_pool = given.1;
            held = given.0 ∷ s.held;
            manager = iocp_task s.manager c given.0;
          })
  ]

  pub data Step (s : Sessions) : Sessions → Type 0 where
    tasks :
        (c : Completion) (call : chunks.Call) (t : Sessions)
        → (makes_session c ≡ true → chunks.Answers s.session_pool s.held call)
        → pooled_task s c call ≡ some t
        → Step s t
    sweeping : Step s (record s { manager = sweep s.manager })
    reaping : Step s (record s { manager = reap s.manager })
    -- Sessions are written to.
    writing :
        (session_pool : chunks.State)
        → chunks.Writes s.session_pool s.held session_pool
        → Step s (record s { session_pool = session_pool })

  pub data Reach : Sessions → Type 0 where
    start :
        (session_pool : chunks.State) (iocp associated junk : Bool) (heap : ℕ → Session)
        (recycled : Data)
        → chunks.initial session_pool
        → Reach (record {
          session_pool = session_pool;
          held = [];
          manager = new_manager iocp associated junk heap recycled;
        })
    later : {s t : Sessions} → Reach s → Step s t → Reach t
