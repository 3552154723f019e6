-- ===== src/Tcp/ClientManager/Pooled/Lent.antt =====
-- The pool lends the clients that wait and those in the table, each once, so no call of
-- `RemoveClient` gives back a client that the pool does not lend.
use server_core.Common.{
  ◌+◌, ◌≤◌, ◌<◌, ◌≡◌, refl, sym, subst, true, false, [], ◌∷◌, some, ◌==◌, ltb, ◌>>=◌, count,
  count-append, arith, Bool-cases, Option-cases, inl, inr,
}
use mathlib.Core.Option.{some-injective}
use server_core.MemoryPool.Memory.{Ptr, null, count-erase}
use server_core.MemoryPool.Memory
use server_core.MemoryPool.ChunkPool.{ChunkPool}
use server_core.Tcp.ClientManager.{
  ClientManager, new_client, add_client, is_member, remove_client, System, init, asked, asks,
  accepts, disconnects,
}
use server_core.Tcp.ClientManager
use server_core.Tcp.ClientManager.Limit.{
  Inv, Reach-Inv, remove_client-count, is_member-count, remove_absent,
}
use server_core.Tcp.ClientManager.Limit
use server_core.Tcp.ClientManager.Pooled.{
  Clients, pooled_new, pooled_remove, Step, asking, accepting, disconnecting, writing, Reach, start,
  later,
}

module _ (chunks : ChunkPool) where
  -- What the pool lends are the clients that wait and those in the table.
  record Agree (s : Clients chunks) : Type 0 where
    lent : chunks.Lends s.client_pool s.held
    reached : ClientManager.Reach s.system
    shared :
        (a : Ptr) → count a s.held ≡ count a s.system.waiting + count a s.system.manager.clients_

  pooled_new-Agree :
      (s t : Clients chunks) (call : chunks.Call)
      → Agree s
      → chunks.Answers s.client_pool s.held call
      → pooled_new chunks s call ≡ some t
      → Agree t
  unfolding pooled_new new_client
  pooled_new-Agree s t call agree answers e =
      elim (Bool-cases (ltb s.system.manager.current_ s.system.manager.limit_)) [
        | inr full ↦ subst Agree (some-injective _ _ (rw (pooled_new, full) at e)) agree
        | inl room ↦ elim (Option-cases (chunks.malloc s.client_pool call)) [
          | inl fails ↦ absurd (ground (arith, rw (pooled_new, room, ◌>>=◌, fails) at e))
          | inr ((p, pool), given) ↦
              let (n, new, lent) = chunks.malloc-Lends call agree.lent answers given in
              let nonnull : (p == null) ≡ false = ground (arith, n) in
              let result : record {
                client_pool = pool;
                held = p ∷ s.held;
                system = asked s.system p;
              }
                  ≡ t =
                some-injective _ _ (rw (pooled_new, room, ◌>>=◌, given, nonnull) at e) in
              subst Agree result (record {
                lent = lent;
                reached =
                    ClientManager.later agree.reached (asks p (omega (arith, agree.shared p, new)));
                shared = λ a. rw room (ground (arith, agree.shared a));
              })
        ]
      ]

  -- A client in the table is lent.
  member-held :
      (s : Clients chunks) (a : Ptr)
      → Agree s
      → is_member a s.system.manager.clients_ ≡ true
      → 0 < count a s.held
  member-held s a agree here =
      ground (arith, here, is_member-count a s.system.manager.clients_, agree.shared a)

  pooled_remove-Agree :
      (s t : Clients chunks) (call : chunks.Call) (a : Ptr)
      → Agree s
      → pooled_remove chunks s call a ≡ some t
      → Agree t
  unfolding pooled_remove
  pooled_remove-Agree s t call a agree e =
      elim (Bool-cases (is_member a s.system.manager.clients_)) [
        | inr gone ↦ subst Agree (some-injective _ _ (rw (pooled_remove, gone) at e)) agree
        | inl here ↦ elim (Option-cases (chunks.free s.client_pool call a)) [
          | inl fails ↦ absurd (ground (arith, rw (pooled_remove, here, ◌>>=◌, fails) at e))
          | inr (pool, given) ↦
              let k = member-held s a agree here in
              let result : record {
                client_pool = pool;
                held = Memory.erase a s.held;
                system = record (s.system) { manager = remove_client s.system.manager a };
              }
                  ≡ t =
                some-injective _ _ (rw (pooled_remove, here, ◌>>=◌, given) at e) in
              subst Agree result (record {
                lent = chunks.free-Lends call a agree.lent k given;
                reached = ClientManager.later agree.reached (disconnects a);
                shared = λ b. ground (
                  arith,
                  agree.shared b,
                  count-erase b a s.held k,
                  remove_client-count s.system.manager a b,
                  here,
                );
              })
        ]
      ]

  Step-Agree : {s t : Clients chunks} → Agree s → Step chunks s t → Agree t
  Step-Agree {s} agree (asking call t answers e) = pooled_new-Agree s t call agree answers e
  Step-Agree {s} agree (accepting a h) = record {
    lent = agree.lent;
    reached = ClientManager.later agree.reached (accepts a h);
    shared = λ b. ground (
      arith,
      agree.shared b,
      h,
      Limit.count-erase a b s.system.waiting,
      count-append b s.system.manager.clients_ (a ∷ []),
    );
  }
  Step-Agree {s} agree (disconnecting call a t e) = pooled_remove-Agree s t call a agree e
  Step-Agree {s} agree (writing pool w) = record {
    lent = chunks.write-Lends agree.lent w;
    reached = agree.reached;
    shared = agree.shared;
  }

  Reach-Agree : {s : Clients chunks} → Reach chunks s → Agree s
  Reach-Agree (start pool i) = record {
    lent = chunks.initial-Lends i;
    reached = ClientManager.start;
    shared = λ a. refl;
  }
  Reach-Agree (later r step) = Step-Agree (Reach-Agree r) step

  -- In every state that the client table and its pool reach from their constructors by `NewClient`,
  -- accepts, disconnects, also of clients that have gone, and writes into clients, in any order,
  -- over any pool that keeps the laws of `ChunkPool`: `RemoveClient` of any address returns when
  -- the pool serves the call; the table is what `remove_client` leaves, and the pool lends exactly
  -- the clients that wait for their accept and those in the table, each once.
  pub pooled_remove-some :
      (s : Clients chunks) (call : chunks.Call) (client : Ptr)
      → Reach chunks s
      → chunks.Serves s.client_pool call
      → (t : Clients chunks) × (pooled_remove chunks s call client ≡ some t)
        × (t.system.manager ≡ remove_client s.system.manager client)
        × chunks.Lends t.client_pool t.held
        × ((a : Ptr)
            → (count a t.held ≡ count a t.system.waiting + count a t.system.manager.clients_)
              × (count a t.held ≤ 1))
  unfolding pooled_remove
  pooled_remove-some s call client r serves =
      let agree = Reach-Agree r in
      elim (Bool-cases (is_member client s.system.manager.clients_)) [
        | inr gone ↦
            let e : pooled_remove chunks s call client ≡ some s = rw (pooled_remove, gone) refl in
            let (lent, shared) = left s (pooled_remove-Agree s s call client agree e) in
            (s, e, sym (remove_absent s.system.manager client gone), lent, shared)
        | inl here ↦
            let (pool, given) =
              chunks.free-some call client agree.lent (member-held s client agree here) serves in
            let t : Clients chunks = record {
              client_pool = pool;
              held = Memory.erase client s.held;
              system = record (s.system) { manager = remove_client s.system.manager client };
            } in
            let e : pooled_remove chunks s call client ≡ some t =
              rw (pooled_remove, here, ◌>>=◌, given) refl in
            let (lent, shared) = left t (pooled_remove-Agree s t call client agree e) in
            (t, e, refl, lent, shared)
      ]
    where
      left :
          (t : Clients chunks)
          → Agree t
          → chunks.Lends t.client_pool t.held
            × ((a : Ptr)
                → (count a t.held ≡ count a t.system.waiting + count a t.system.manager.clients_)
                  × (count a t.held ≤ 1))
      left t agree = (
        agree.lent,
        λ a. (agree.shared a, omega (arith, agree.shared a, (Reach-Inv agree.reached).distinct a)),
      )
