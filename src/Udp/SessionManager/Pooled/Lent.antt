-- ===== src/Udp/SessionManager/Pooled/Lent.antt =====
-- The pool lends every session of the manager, and none twice: a SYN is never given the memory of a
-- session that is in use.
use server_core.Common.{
  ℕ, ◌≤◌, ◌<◌, ◌≡◌, ◌≢◌, refl, subst, true, false, ◌∷◌, some, ◌==◌, ◌>>=◌, count, arith, Bool-cases,
  Option-cases, inl, inr,
}
use mathlib.Core.Option.{some-injective}
use server_core.MemoryPool.Memory.{Ptr, null}
use server_core.MemoryPool.ChunkPool.{ChunkPool}
use server_core.Udp.Endpoint.{Endpoint}
use server_core.Udp.SessionMap.{find}
use server_core.Udp.SessionManager.{Completion, iocp_task, new_manager}
use server_core.Udp.SessionManager.Ownership.{places}
use server_core.Udp.SessionManager.Places.{
  makes_session, iocp_task-places, sweep-places, reap-places,
}
use server_core.Udp.SessionManager.Histories.{
  task, sweeps, reaps, Reach-Inv, session_in_one_place, found,
}
use server_core.Udp.SessionManager.Histories
use server_core.Udp.SessionManager.Pooled.{
  Sessions, pooled_task, Step, tasks, sweeping, reaping, writing, Reach, start, later,
}

module _ (chunks : ChunkPool) where
  record Agree (s : Sessions chunks) : Type 0 where
    lent : chunks.Lends s.session_pool s.held
    reached : Histories.Reach s.manager
    placed : (a : ℕ) → places s.manager a ≤ count a s.held
    once : (a : ℕ) → count a s.held ≤ 1
    nonnull : count null s.held ≡ 0

  pooled_task-Agree :
      (s t : Sessions chunks) (c : Completion) (call : chunks.Call)
      → Agree s
      → (makes_session c ≡ true → chunks.Answers s.session_pool s.held call)
      → pooled_task chunks s c call ≡ some t
      → Agree t
  unfolding pooled_task
  pooled_task-Agree s t c call agree answers e = elim (Bool-cases (makes_session c)) [
    | inr other ↦
        let result : record s { manager = iocp_task s.manager c null } ≡ t =
          some-injective _ _ (rw (pooled_task, other) at e) in
        let unused : places s.manager null ≡ 0 = omega (arith, agree.placed null, agree.nonnull) in
        subst Agree result (record {
          lent = agree.lent;
          reached = Histories.later agree.reached (task c null unused);
          placed = λ a. ground (arith, agree.placed a, iocp_task-places s.manager c null a, other);
          once = agree.once;
          nonnull = agree.nonnull;
        })
    | inl new ↦ elim (Option-cases (chunks.malloc s.session_pool call)) [
      | inl fails ↦ absurd (ground (arith, rw (pooled_task, new, ◌>>=◌, fails) at e))
      | inr ((p, pool), given) ↦
          let (n, unheld, lent) = chunks.malloc-Lends call agree.lent (answers new) given in
          let nonnull : (p == null) ≡ false = ground (arith, n) in
          let result : record {
            session_pool = pool;
            held = p ∷ s.held;
            manager = iocp_task s.manager c p;
          }
              ≡ t =
            some-injective _ _ (rw (pooled_task, new, ◌>>=◌, given, nonnull) at e) in
          subst Agree result (record {
            lent = lent;
            reached =
                Histories.later agree.reached (task c p (omega (arith, agree.placed p, unheld)));
            placed = λ a. ground (arith, agree.placed a, iocp_task-places s.manager c p a);
            once = λ a. ground (arith, agree.once a, unheld);
            nonnull = ground (arith, agree.nonnull, n);
          })
    ]
  ]

  Step-Agree : {s t : Sessions chunks} → Agree s → Step chunks s t → Agree t
  Step-Agree {s} agree (tasks c call t answers e) = pooled_task-Agree s t c call agree answers e
  Step-Agree {s} agree sweeping = record {
    lent = agree.lent;
    reached = Histories.later agree.reached sweeps;
    placed = λ a. omega (arith, agree.placed a, sweep-places s.manager a (Reach-Inv agree.reached));
    once = agree.once;
    nonnull = agree.nonnull;
  }
  Step-Agree {s} agree reaping = record {
    lent = agree.lent;
    reached = Histories.later agree.reached reaps;
    placed = λ a. omega (arith, agree.placed a, reap-places s.manager a);
    once = agree.once;
    nonnull = agree.nonnull;
  }
  Step-Agree {s} agree (writing pool w) = record {
    lent = chunks.write-Lends agree.lent w;
    reached = agree.reached;
    placed = agree.placed;
    once = agree.once;
    nonnull = agree.nonnull;
  }

  Reach-Agree : {s : Sessions chunks} → Reach chunks s → Agree s
  unfolding new_manager
  Reach-Agree (start pool iocp associated junk heap recycled i) = record {
    lent = chunks.initial-Lends i;
    reached = Histories.start iocp associated junk heap recycled;
    placed = λ a. omega arith;
    once = λ a. omega arith;
    nonnull = refl;
  }
  Reach-Agree (later r step) = Step-Agree (Reach-Agree r) step

  -- In every state that a manager and its session pool reach from their constructors by
  -- completions, by the loops of the heartbeat thread and by writes into sessions, in any order,
  -- over any pool that keeps the laws of `ChunkPool`: a session found under an endpoint is at an
  -- address that is not null and that the pool has lent exactly once; it has that endpoint, is
  -- found under no other, does not wait for an ACK under any, and is not on its way out.
  pub pooled_session :
      (s : Sessions chunks) (e : Endpoint) (session : Ptr)
      → Reach chunks s
      → find e s.manager.sessions_ ≡ some session
      → (session ≢ null)
        × (count session s.held ≡ 1)
        × ((s.manager.heap session).endpoint_ ≡ e)
        × ((j : Endpoint) → find j s.manager.sessions_ ≡ some session → j ≡ e)
        × ((j : Endpoint) → find j s.manager.pending_sessions_ ≢ some session)
        × (count session s.manager.gone ≡ 0)
  pooled_session s e session r p =
      let agree = Reach-Agree r in
      let (own, only, not_waiting, staying) = session_in_one_place e session agree.reached p in
      let here : 0 < places s.manager session = ground (
        arith,
        (found s.manager.heap e session s.manager.sessions_ (Reach-Inv agree.reached).established
            p).0,
      ) in
      (
        λ z. ground (arith, z, agree.nonnull, agree.placed session, here),
        omega (arith, agree.placed session, agree.once session, here),
        own,
        only,
        not_waiting,
        staying,
      )
