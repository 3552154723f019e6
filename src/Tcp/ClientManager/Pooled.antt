-- ===== src/Tcp/ClientManager/Pooled.antt =====
-- core/server/ClientManager.cpp: the manager and `client_pool_` together. The pool is any that keeps
-- the laws of `MemoryPool.ChunkPool`; what the destructor of a client writes before its memory is
-- given back is a write like any other.
pub mod Lent
mod Examples
use server_core.Common.{
  ℕ, ◌+◌, ◌≤◌, ◌<◌, ◌≡◌, ◌≢◌, refl, sym, subst, ap, true, false, List, [], ◌∷◌, Option, none, some,
  ◌==◌, if◌then◌else◌, ltb, ◌>>=◌, count, count-append, arith, Bool-cases, Option-cases, inl, inr,
}
use mathlib.Core.Option.{some-injective}
use server_core.MemoryPool.Memory.{Ptr, null, count-erase}
use server_core.MemoryPool.Memory
use server_core.MemoryPool.ChunkPool.{ChunkPool}
use server_core.Tcp.ClientManager.{
  ClientManager, new_client, add_client, is_member, remove_client, System, init, asked, asks,
  accepts, disconnects,
}
use server_core.Tcp.ClientManager
use server_core.Tcp.ClientManager.Limit.{
  Inv, Reach-Inv, remove_client-count, is_member-count, remove_absent,
}
use server_core.Tcp.ClientManager.Limit

module _ (chunks : ChunkPool) where
  -- `held` are the clients that the pool has given memory to.
  pub record Clients : Type 0 where
    pub client_pool : chunks.State
    pub held : List Ptr
    pub system : System

  -- `NewClient`, with `client_pool_.Malloc()`. A client at null: a fault.
  unfoldable pub pooled_new : Clients → chunks.Call → Option Clients
  pooled_new s call = elim (ltb s.system.manager.current_ s.system.manager.limit_) [
    | false ↦ some s
    | true ↦ do
      given ← chunks.malloc s.client_pool call
      if given.0 == null
          then none
          else some (record {
            client_pool = given.1;
            held = given.0 ∷ s.held;
            system = asked s.system given.0;
          })
  ]

  -- `RemoveClient`, with the `Destroy` of `DeleteClient`
  unfoldable pub pooled_remove : Clients → chunks.Call → (client : Ptr) → Option Clients
  pooled_remove s call client = elim (is_member client s.system.manager.clients_) [
    | false ↦ some s
    | true ↦ do
      given ← chunks.free s.client_pool call client
      some (record {
        client_pool = given;
        held = Memory.erase client s.held;
        system = record (s.system) { manager = remove_client s.system.manager client };
      })
  ]

  pub data Step (s : Clients) : Clients → Type 0 where
    asking :
        (call : chunks.Call) (t : Clients)
        → chunks.Answers s.client_pool s.held call
        → pooled_new s call ≡ some t
        → Step s t
    accepting :
        (a : Ptr)
        → is_member a s.system.waiting ≡ true
        → Step s (record s {
          system = record {
            manager = add_client s.system.manager a;
            waiting = ClientManager.erase a s.system.waiting;
          };
        })
    disconnecting :
        (call : chunks.Call) (a : Ptr) (t : Clients) → pooled_remove s call a ≡ some t → Step s t
    writing :
        (client_pool : chunks.State)
        → chunks.Writes s.client_pool s.held client_pool
        → Step s (record s { client_pool = client_pool })

  pub data Reach : Clients → Type 0 where
    start :
        (client_pool : chunks.State)
        → chunks.initial client_pool
        → Reach (record { client_pool = client_pool; held = []; system = init })
    later : {s t : Clients} → Reach s → Step s t → Reach t
