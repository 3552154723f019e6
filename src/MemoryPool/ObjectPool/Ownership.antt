-- ===== src/MemoryPool/ObjectPool/Ownership.antt =====
-- Every chunk in use belongs to the pool whose number stands behind it.
pub mod Exchange
pub mod Writes
use mathlib.Core.Option.{some-injective}
use server_core.Common.{
  ℕ, ◌+◌, ◌≤◌, ◌<◌, ◌≡◌, ◌≢◌, ◌⊎◌, inl, inr, refl, ap, sym, ◌∙◌, subst, true, false, List, [], ◌∷◌,
  none, some, ◌==◌, ltb, arith, ne-or-eq, Bool-cases, Option-cases, count, ◌%◌, ◌^◌,
}
use server_core.MemoryPool.Memory.{Ptr, null, Memory, erase, count-erase}
use server_core.MemoryPool.Pool.{Pool, new_pool}
use server_core.MemoryPool.Pool.Invariant.{new_pool-Inv}
use server_core.MemoryPool.ObjectPool.{
  ObjectPool, max_thread_num, update, new_object_pool, with_pool, object_pool, free,
}
use server_core.MemoryPool.ObjectPool.Shares.{
  Share, nothing, used, used_le, Fits-agree, listed-used, Apart, Apart-update,
}
use server_core.MemoryPool.ObjectPool.Moves.{region_end, live_ne_null, IsFreshFor}
use server_core.MemoryPool.ObjectPool.Histories.{IsFreshBlock}

-- The pools lie apart; the chunks in use of each are those held with its number behind them; and
-- the numbers given out are those up to the counter.
pub record Inv (s : ObjectPool) (held : List Ptr) (shares : ℕ → Share) : Type 0 where
  pub apart : Apart s.mem s.pools shares
  pub tagged : (i : ℕ) (c : Ptr) → 0 < count c (shares i).live → s.owner c ≡ i
  pub lent : (c : Ptr) → count c held ≡ count c (shares (s.owner c)).live
  pub unmade :
      (i : ℕ) (c : Ptr) → ((i ≡ 0) ⊎ (s.thread_id_counter < i)) → count c (shares i).live ≡ 0
  pub numbered : (t i : ℕ) → s.thread_id_ t ≡ some i → (0 < i) × (i ≤ s.thread_id_counter)
  pub small : s.thread_id_counter ≤ max_thread_num
  pub kept : (i : ℕ) → s.freed i ≡ false

nothing-used : (requested_size : ℕ) (a : Ptr) → used (new_pool requested_size) nothing a ≡ 0
unfolding new_pool
nothing-used requested_size a = ground arith

pub new-Inv :
    (requested_size : ℕ) (mem : Memory) (owner : Ptr → ℕ)
    → Inv (new_object_pool requested_size mem owner) [] (λ i. nothing)
new-Inv requested_size mem owner = record {
  apart = record {
    fits = λ i. new_pool-Inv mem ((requested_size + 2) % 2 ^ 32);
    apart = λ i j a ne. omega (arith, nothing-used ((requested_size + 2) % 2 ^ 32) a);
    tailed = λ i a t. nothing-used ((requested_size + 2) % 2 ^ 32) a;
  };
  tagged = λ i c h. absurd (omega (arith, h));
  lent = λ c. refl;
  unmade = λ i c h. refl;
  numbered = λ t i e. absurd (ground (arith, e));
  small = omega arith;
  kept = λ i. refl;
}

-- A pool is made for a thread.
with_pool-Inv :
    (s : ObjectPool) (held : List Ptr) (shares : ℕ → Share) (t : ℕ)
    → Inv s held shares
    → s.thread_id_counter < max_thread_num
    → Inv (with_pool s t) held (update shares (s.thread_id_counter + 1) nothing)
with_pool-Inv s held shares t inv room =
    let id = s.thread_id_counter + 1 in
    let unused : (c : Ptr) → count c (shares id).live ≡ 0 =
      λ c. inv.unmade id c (inr (omega arith)) in
    record {
      apart =
          Apart-update id s.mem (new_pool ((s.requested_size + 2) % 2 ^ 32)) nothing inv.apart
            (new_pool-Inv s.mem ((s.requested_size + 2) % 2 ^ 32))
            (λ a z. nothing-used ((s.requested_size + 2) % 2 ^ 32) a)
            (λ i a ne u. (refl, nothing-used ((s.requested_size + 2) % 2 ^ 32) a));
      tagged = λ i c h. ground (arith, inv.tagged i c, h);
      lent = λ c. ground (arith, inv.lent c, unused c);
      unmade = λ i c h. ground (arith, inv.unmade i c, h);
      numbered = λ u i e. ground (arith, inv.numbered u i, e);
      small = omega (arith, room);
      kept = inv.kept;
    }

-- The thread has its pool, or is given one, or is one too many.
pub object_pool-cases :
    (s : ObjectPool) (held : List Ptr) (shares : ℕ → Share) (t : ℕ)
    → Inv s held shares
    → ((s.thread_id_ t ≡ none) × (s.thread_id_counter ≡ max_thread_num) × (object_pool s t ≡ none))
      ⊎ ((id : ℕ) × (s' : ObjectPool) × (shares' : ℕ → Share) × (object_pool s t ≡ some (id, s'))
          × Inv s' held shares'
          × (0 < id)
          × (id ≤ s'.thread_id_counter)
          × (s'.owner ≡ s.owner)
          × (s'.thread_id_ t ≡ some id)
          × ((j : ℕ) → s.thread_id_ t ≡ some j → j ≡ id))
unfolding object_pool
object_pool-cases s held shares t inv = elim (Option-cases (s.thread_id_ t)) [
  | inr (id, e) ↦
      let (pos, le) = inv.numbered t id e in
      inr (
        id,
        s,
        shares,
        rw (object_pool, e) refl,
        inv,
        pos,
        le,
        refl,
        e,
        λ j f. some-injective _ _ (sym f ∙ e),
      )
  | inl e ↦ elim (Bool-cases (ltb max_thread_num (s.thread_id_counter + 1))) [
    | inl full ↦ inl (e, ground (arith, full, inv.small), rw (object_pool, e, full) refl)
    | inr room ↦ inr (
      s.thread_id_counter + 1,
      with_pool s t,
      update shares (s.thread_id_counter + 1) nothing,
      rw (object_pool, e, room) refl,
      with_pool-Inv s held shares t inv (ground (arith, room)),
      omega arith,
      omega arith,
      refl,
      ground arith,
      λ j f. absurd (ground (arith, e, f)),
    )
  ]
]

pub live-used : (p : Pool) (h : Share) (c : Ptr) → c ≢ null → count c h.live ≤ used p h c
live-used p h c n = ground (arith, n)

-- A chunk that is held is in use in a pool that has been made.
pub held-live :
    (s : ObjectPool) (held : List Ptr) (shares : ℕ → Share) (c : Ptr)
    → Inv s held shares
    → 0 < count c held
    → (0 < count c (shares (s.owner c)).live)
      × ((s.pools (s.owner c)).storage.tail_ ≢ null)
      × (0 < s.owner c)
      × (s.owner c ≤ s.thread_id_counter)
held-live s held shares c inv h =
    let i = s.owner c in
    let live : 0 < count c (shares i).live = omega (arith, inv.lent c, h) in
    let nonnull = live_ne_null inv.apart i c live in
    (
      live,
      λ z. omega (arith, inv.apart.tailed i c z, live-used (s.pools i) (shares i) c nonnull, live),
      ground (arith, inv.unmade i c, live),
      ground (arith, inv.unmade i c, live),
    )
