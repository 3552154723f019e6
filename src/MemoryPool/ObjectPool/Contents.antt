-- ===== src/MemoryPool/ObjectPool/Contents.antt =====
-- What stands in a chunk that is held: no call of another thread, or of the same, writes into it.
pub mod Calls
use mathlib.Core.Option.{some-injective}
use server_core.Common.{
  ℕ, ◌+◌, ◌*◌, ◌≤◌, ◌<◌, ◌≡◌, ◌≢◌, ◌⊎◌, inl, inr, refl, ap, sym, ◌∙◌, subst, true, false, ◌||◌,
  ◌&&◌, List, [], ◌∷◌, Option, none, some, ◌>>=◌, ◌==◌, ltb, leb, if◌then◌else◌, arith, count,
  Bool-cases, Option-cases, ne-or-eq,
}
use server_core.MemoryPool.Memory.{Ptr, null, Memory, store, erase, count-erase}
use server_core.MemoryPool.Storage.{empty, storage_free, free_append}
use server_core.MemoryPool.Pool.{Pool, pointer_size}
use server_core.MemoryPool.Pool
use server_core.MemoryPool.Pool.Contents.{free-mem, free_append_chunk-mem, malloc-mem}
use server_core.MemoryPool.Pool.Alloc.{Mallocs, reuses, grows, fails, malloc-Inv}
use server_core.MemoryPool.ObjectPool.{
  ObjectPool, max_thread_num, with_pool, with_memory, update, object_pool, malloc_from, malloc,
  free_into, free,
}
use server_core.MemoryPool.ObjectPool.Shares.{Share, used_le}
use server_core.MemoryPool.ObjectPool.Moves.{region_end, live_ne_null}
use server_core.MemoryPool.ObjectPool.Ownership.{Inv, held-live, live-used, object_pool-cases}
use server_core.MemoryPool.ObjectPool.Ownership.Writes.{fresh-IsFreshFor}
use server_core.MemoryPool.ObjectPool.Histories.{State, IsFreshBlock, Answers, Reach}
use server_core.MemoryPool.ObjectPool.Threads.{HasInv, Reach-HasInv, taken-new, malloc-HasInv}

-- The pool's memory and the numbers behind the chunks agree at `a`.
abbrev pub SameAt : ObjectPool → ObjectPool → Ptr → Type 0
SameAt s s' a = (s'.mem a ≡ s.mem a) × (s'.owner a ≡ s.owner a)

pub object_pool-same :
    (s found : ObjectPool) (t id : ℕ)
    → object_pool s t ≡ some (id, found)
    → (found.mem ≡ s.mem) × (found.owner ≡ s.owner)
unfolding object_pool
object_pool-same s found t id e = elim (Option-cases (s.thread_id_ t)) [
  | inr (j, named) ↦
      let same = some-injective _ _ (rw (object_pool, named) at e) in
      (
        ap (λ (r : ℕ × ObjectPool). r.1.mem) (sym same),
        ap (λ (r : ℕ × ObjectPool). r.1.owner) (sym same),
      )
  | inl unset ↦ elim (Bool-cases (ltb max_thread_num (s.thread_id_counter + 1))) [
    | inl full ↦ absurd (ground (arith, rw (object_pool, unset, full) at e))
    | inr room ↦
        let same = some-injective _ _ (rw (object_pool, unset, room) at e) in
        (
          ap (λ (r : ℕ × ObjectPool). r.1.mem) (sym same),
          ap (λ (r : ℕ × ObjectPool). r.1.owner) (sym same),
        )
  ]
]

module _ (s : ObjectPool) (held : List Ptr) (shares : ℕ → Share) (inv : Inv s held shares) where
  -- A chunk that is held is no pool's tail.
  held-not_tail : (a : Ptr) (i : ℕ) → 0 < count a held → a ≢ (s.pools i).storage.tail_
  held-not_tail a i k z =
      let (live, _, _, _) = held-live s held shares a inv k in
      let nonnull = live_ne_null inv.apart (s.owner a) a live in
      let mine = live-used (s.pools (s.owner a)) (shares (s.owner a)) a nonnull in
      elim (ne-or-eq (s.owner a) i) [
        | inl e ↦
            let both = used_le s.mem (s.pools i) (shares i) (inv.apart.fits i) a in
            let live' : 0 < count a (shares i).live =
              subst (λ (j : ℕ). 0 < count a (shares j).live) e live in
            ground (arith, both, live', z, nonnull)
        | inr ne ↦ ground (arith, inv.apart.apart (s.owner a) i a ne, mine, live, z, nonnull)
      ]

  outside_block :
      (id : ℕ) (ptr a : Ptr)
      → IsFreshBlock s held id ptr
      → 0 < count a held
      → (a < ptr) ⊎ (region_end (s.pools id) ptr ≤ a)
  outside_block id ptr a fresh k =
      elim (Bool-cases (leb ptr a && ltb a (region_end (s.pools id) ptr))) [
        | inl within ↦
            absurd (
              omega
                (arith, k, (fresh.unused a (ground (arith, within)) (ground (arith, within))).0))
        | inr beyond ↦ ground (arith, beyond)
      ]

  pub malloc_from-SameAt :
      {s' : ObjectPool} {c : Ptr} (id : ℕ) (ptr a : Ptr)
      → (empty (s.pools id).storage ≡ true → 0 < ptr → IsFreshBlock s held id ptr)
      → malloc_from s id ptr ≡ some (c, s')
      → count c held ≡ 0
      → 0 < count a held
      → SameAt s s' a
  unfolding malloc_from
  malloc_from-SameAt {s'} {c} id ptr a fresh e new k =
      elim (Option-cases (Pool.malloc s.mem (s.pools id) ptr)) [
        | inl fault ↦ absurd (ground (arith, rw (malloc_from, inv.kept id, fault) at e))
        | inr ((d, mem, p), taken) ↦ elim (Bool-cases (d == null)) [
          | inl z ↦ absurd (ground (arith, rw (malloc_from, inv.kept id, taken, z) at e))
          | inr n ↦
              let result = some-injective _ _ (rw (malloc_from, inv.kept id, taken, n) at e) in
              let same =
                malloc-mem ptr a
                  (malloc-Inv (inv.apart.fits id) ptr
                    (λ z h. (fresh-IsFreshFor s held shares id ptr inv (fresh z h)).own))
                  (λ z h. outside_block id ptr a (fresh z h) k) taken in
              let at : d ≡ c = ap (λ (r : Ptr × ObjectPool). r.0) result in
              (
                ap (λ (r : Ptr × ObjectPool). r.1.mem a) (sym result) ∙ same,
                ap (λ (r : Ptr × ObjectPool). r.1.owner a) (sym result)
                    ∙ ground (arith, at, new, k),
              )
        ]
      ]

  pub free_into-SameAt :
      {s' : ObjectPool} (id : ℕ) (c a : Ptr)
      → free_into s id c ≡ some s'
      → 0 < count a held
      → a ≢ c
      → SameAt s s' a
  unfolding free_into
  free_into-SameAt {s'} id c a e k n = elim (Bool-cases (s.owner c == id)) [
    | inl own ↦ elim (Option-cases (Pool.free s.mem (s.pools id) c)) [
      | inl fault ↦ absurd (ground (arith, rw (free_into, inv.kept (s.owner c), own, fault) at e))
      | inr ((mem, p), given) ↦
          let result = some-injective _ _ (rw (free_into, inv.kept (s.owner c), own, given) at e) in
          (
            ap (λ (r : ObjectPool). r.mem a) (sym result)
                ∙ free-mem s.mem mem (s.pools id) p c a given n,
            ap (λ (r : ObjectPool). r.owner a) (sym result),
          )
    ]
    | inr other ↦ elim (Bool-cases (s.owner c == 0 || ltb s.thread_id_counter (s.owner c))) [
      | inl unmade ↦
          absurd (ground (arith, rw (free_into, inv.kept (s.owner c), other, unmade) at e))
      | inr made ↦ elim (Option-cases (Pool.free_append_chunk s.mem (s.pools (s.owner c)) c)) [
        | inl fault ↦
            absurd (ground (arith, rw (free_into, inv.kept (s.owner c), other, made, fault) at e))
        | inr ((mem, p), given) ↦
            let result =
              some-injective _ _ (rw (free_into, inv.kept (s.owner c), other, made, given) at e) in
            (
              ap (λ (r : ObjectPool). r.mem a) (sym result)
                  ∙ free_append_chunk-mem s.mem mem (s.pools (s.owner c)) p c a given
                      (held-not_tail a (s.owner c) k),
              ap (λ (r : ObjectPool). r.owner a) (sym result),
            )
      ]
    ]
  ]
