-- ===== src/MemoryPool/ObjectPool/Calls.antt =====
-- One call on the pools of all threads: what it comes to, and what it leaves.
use server_core.Common.{
  ℕ, ◌≤◌, ◌<◌, ◌≡◌, ◌≢◌, ◌⊎◌, inl, inr, refl, true, false, ◌||◌, List, ◌∷◌, none, some, ◌==◌,
  if◌then◌else◌, ltb, arith, Bool-cases, count,
}
use server_core.MemoryPool.Memory.{Ptr, null, erase}
use server_core.MemoryPool.Storage.{empty}
use server_core.MemoryPool.Pool.Alloc.{malloc-Inv}
use server_core.MemoryPool.ObjectPool.{ObjectPool, update, malloc_from, free_into, free}
use server_core.MemoryPool.ObjectPool.Shares.{Share}
use server_core.MemoryPool.ObjectPool.Moves.{free-Apart, append-Apart, malloc-cases}
use server_core.MemoryPool.ObjectPool.Ownership.{Inv, held-live}
use server_core.MemoryPool.ObjectPool.Ownership.Exchange.{taken-Inv, given-Inv}
use server_core.MemoryPool.ObjectPool.Ownership.Writes.{fresh-IsFreshFor}
use server_core.MemoryPool.ObjectPool.Histories.{IsFreshBlock}

module _ (s : ObjectPool) (held : List Ptr) (shares : ℕ → Share) (inv : Inv s held shares) where
  -- A pool takes a chunk that nobody holds, or `::malloc` has failed.
  pub malloc_from-cases :
      (id : ℕ) (ptr : Ptr)
      → 0 < id
      → id ≤ s.thread_id_counter
      → (empty (s.pools id).storage ≡ true → 0 < ptr → IsFreshBlock s held id ptr)
      → ((ptr ≡ null) × (malloc_from s id ptr ≡ none))
        ⊎ ((c : Ptr) × (s' : ObjectPool) × (shares' : ℕ → Share) × (malloc_from s id ptr
              ≡ some (c, s'))
            × (c ≢ null)
            × (s'.owner c ≡ id)
            × (s'.thread_id_ ≡ s.thread_id_)
            × (count c held ≡ 0)
            × Inv s' (c ∷ held) shares')
  unfolding malloc_from
  malloc_from-cases id ptr pos le fresh =
      let new = λ (e : empty (s.pools id).storage ≡ true) (h : 0 < ptr).
        fresh-IsFreshFor s held shares id ptr inv (fresh e h) in
      let own = malloc-Inv (inv.apart.fits id) ptr (λ e h. (new e h).own) in
      elim (malloc-cases inv.apart id ptr own new) [
        | inl (z, e) ↦ inl (z, rw (malloc_from, inv.kept id, e) refl)
        | inr (c, mem, p, e, nonnull, (h, live, apart)) ↦
            let given : (c == null) ≡ false = ground (arith, nonnull) in
            let (free, inv') = taken-Inv s held shares id c mem p h inv pos le nonnull live apart in
            inr (
              c,
              record s { mem = mem; pools = update s.pools id p; owner = update s.owner c id },
              update shares id h,
              rw (malloc_from, inv.kept id, e, given) refl,
              nonnull,
              ground arith,
              refl,
              free,
              inv',
            )
      ]

  -- A chunk goes back to the pool whose number stands behind it: to its head, if that pool is the
  -- thread's own, and else to its tail.
  pub free_into-gives :
      (id : ℕ) (c : Ptr)
      → 0 < count c held
      → (s' : ObjectPool) × (shares' : ℕ → Share) × (free_into s id c ≡ some s')
        × (if s.owner c == id
            then (s'.pools (s.owner c)).storage.head_ ≡ c
            else (s'.pools (s.owner c)).storage.tail_ ≡ c)
        × Inv s' (erase c held) shares'
        × (s'.thread_id_ ≡ s.thread_id_)
  unfolding free_into
  free_into-gives id c k =
      let (live, tail, pos, le) = held-live s held shares c inv k in
      let self : (s.owner c == s.owner c) ≡ true = ground arith in
      elim (Bool-cases (s.owner c == id)) [
        | inl own ↦
            let same : id ≡ s.owner c = ground (arith, own) in
            let (mem, p, e, at, (h, l, apart)) = free-Apart inv.apart (s.owner c) c live in
            (
              record s { mem = mem; pools = update s.pools (s.owner c) p },
              update shares (s.owner c) h,
              rw (own, free_into, inv.kept (s.owner c), same, e) refl,
              rw (own, self) at,
              given-Inv s held shares c mem p h inv k l apart,
              refl,
            )
        | inr other ↦
            let made : (s.owner c == 0 || ltb s.thread_id_counter (s.owner c)) ≡ false =
              ground (arith, pos, le) in
            let (mem, p, e, at, (h, l, apart)) = append-Apart inv.apart (s.owner c) c live tail in
            (
              record s { mem = mem; pools = update s.pools (s.owner c) p },
              update shares (s.owner c) h,
              rw (free_into, inv.kept (s.owner c), other, made, e) refl,
              rw (other, self) at,
              given-Inv s held shares c mem p h inv k l apart,
              refl,
            )
      ]
