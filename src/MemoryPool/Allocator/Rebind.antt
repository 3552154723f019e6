-- ===== src/MemoryPool/Allocator/Rebind.antt =====
-- How far apart the chunks of an allocator lie that was made of one for another type, as the
-- containers of the standard library make theirs.
use server_core.Common.{
  ℕ, zero, suc, ◌+◌, ◌*◌, ◌^◌, ◌≤◌, ◌<◌, ◌≡◌, ◌≢◌, ◌↔◌, refl, sym, ap, ◌∙◌, subst, Bool, true, List,
  [], ◌∷◌, some, arith, ◌++◌, drop, ltb, if◌then◌else◌,
}
use server_core.MemoryPool.Memory.{Ptr, null, Memory}
use server_core.MemoryPool.Storage.{empty}
use server_core.MemoryPool.Storage.Laws.{empty-Holds}
use server_core.MemoryPool.Storage.Chunks.{chunks}
use server_core.MemoryPool.Storage.AddBlock.{chunks_after}
use server_core.MemoryPool.Pool.{Pool, new_pool, pointer_size}
use server_core.MemoryPool.Pool
use server_core.MemoryPool.Pool.Invariant.{Inv, IsFresh, new_pool-Inv}
use server_core.MemoryPool.Pool.Alloc.{reuses, grows, fails, malloc-Inv}
use server_core.MemoryPool.Allocator.{FastPoolAllocator, with_pool, rebound, allocate}

-- The size of a chunk for a type.
abbrev pub chunk_size : ℕ → ℕ
chunk_size sizeof_u = if ltb sizeof_u pointer_size then pointer_size else sizeof_u

chunks-two :
    (block size n : ℕ) (xs : List Ptr)
    → (rest : List Ptr) × (chunks block size (suc (suc n)) xs ≡ block ∷ (block + size) ∷ rest)
chunks-two block size zero xs =
    let one : block + 1 * size ≡ block + size = omega arith in
    let none_more : block + 0 * size ≡ block = omega arith in (xs, rw (one, none_more) refl)
chunks-two block size (suc n) xs = chunks-two block size n ((block + suc (suc n) * size) ∷ xs)

-- What `::malloc` must answer a new pool: a block that does not wrap round.
abbrev pub HasSpace : (sizeof_u : ℕ) → Ptr → Type 0
HasSpace sizeof_u ptr = (0 < ptr) × (ptr + pointer_size + 64 * chunk_size sizeof_u < 2 ^ 64)

new_pool-IsFresh :
    (sizeof_u ptr : ℕ) → HasSpace sizeof_u ptr → IsFresh (new_pool sizeof_u) [] [] ptr
unfolding new_pool
new_pool-IsFresh sizeof_u ptr (pos, room) = record {
  nonnull = pos;
  in_space = room;
  unused = λ a lo hi. ground (arith, pos, lo);
}

new_pool-empty : (sizeof_u : ℕ) → empty (new_pool sizeof_u).storage ≡ true
unfolding new_pool empty
new_pool-empty sizeof_u = refl

first_chunks :
    (sizeof_u ptr : ℕ) (ys : List Ptr)
    → chunks_after
        (new_pool sizeof_u).storage
        (ptr + pointer_size)
        (new_pool sizeof_u).alloc_size_
        (new_pool sizeof_u).next_size_
      ≡ (ptr + pointer_size) ∷ ys
    → (rest : List Ptr) × (ys ≡ (ptr + pointer_size + chunk_size sizeof_u) ∷ rest)
unfolding new_pool
first_chunks sizeof_u ptr ys e =
    let (rest, split) = chunks-two (ptr + pointer_size) (chunk_size sizeof_u) 61 [] in
    (rest, sym (ap (drop 1) (sym split ∙ e)))

abbrev get_first : List Ptr → Ptr
get_first [] = null
get_first (x ∷ xs) = x

-- A pool that holds a free chunk before its tail hands it out, whatever `::malloc` would answer.
takes_first :
    {mem : Memory} {p : Pool} {c : Ptr} {ys live blocks : List Ptr} (ptr : Ptr)
    → Inv mem p (c ∷ ys) live blocks
    → (p' : Pool) × (Pool.malloc mem p ptr ≡ some (c, mem, p'))
takes_first {mem} {p} {c} {ys} {live} {blocks} ptr inv =
    let filled =
      λ (e : empty p.storage ≡ true). empty-Holds (c ∷ ys) (live ++ blocks) inv.holds e in
    elim (malloc-Inv inv ptr (λ e h. absurd (ground (arith, filled e)))) [
      | reuses d zs p' e split taken _ _ _ ↦
          (p', taken ∙ ap (λ (xs : List Ptr). some (get_first xs, mem, p')) (sym split))
      | grows _ _ _ e _ _ _ _ _ _ _ ↦ absurd (ground (arith, filled e))
      | fails e _ _ ↦ absurd (ground (arith, filled e))
    ]

-- An allocator for `T` that was made of one for `U`, given a block by `::malloc` that does not wrap
-- round: it hands out two chunks one after the other, not null and the second above the first, and
-- these lie `sizeof(T)` bytes apart exactly when `T` is no larger than a chunk for `U`.
pub rebound-chunks :
    (asserts : Bool) (mem : Memory) (sizeof_t sizeof_u : ℕ) (a : FastPoolAllocator) (ptr ptr' : Ptr)
    → HasSpace sizeof_u ptr
    → (c c' : Ptr) × (mem' : Memory) × (a₁ a₂ : FastPoolAllocator) × (allocate asserts mem
          (rebound sizeof_t sizeof_u a)
          1
          ptr
        ≡ some (c, mem', a₁))
      × (allocate asserts mem' a₁ 1 ptr' ≡ some (c', mem', a₂))
      × (c ≢ null)
      × (c < c')
      × ((c + sizeof_t ≤ c') ↔ (sizeof_t ≤ chunk_size sizeof_u))
unfolding rebound allocate
rebound-chunks asserts mem sizeof_t sizeof_u a ptr ptr' space =
    elim (malloc-Inv (new_pool-Inv mem sizeof_u) ptr (λ e h. new_pool-IsFresh sizeof_u ptr space)) [
      | fails _ z _ ↦ absurd (ground (arith, z, space))
      | reuses _ _ _ _ split _ _ _ _ ↦ absurd (ground (arith, split))
      | grows mem' ys p₁ _ _ taken inv _ _ _ split ↦
          let (rest, next) = first_chunks sizeof_u ptr ys split in
          let (p₂, again) = takes_first ptr' (
            subst (λ (zs : List Ptr). Inv mem' p₁ zs ((ptr + pointer_size) ∷ []) (ptr ∷ [])) next
              inv) in
          (
            ptr + pointer_size,
            ptr + pointer_size + chunk_size sizeof_u,
            mem',
            record { pool_ = p₁ },
            record { pool_ = p₂ },
            ap with_pool taken,
            ap with_pool again,
            λ z. ground (arith, z),
            ground arith,
            (λ h. ground (arith, h), λ h. ground (arith, h)),
          )
    ]
