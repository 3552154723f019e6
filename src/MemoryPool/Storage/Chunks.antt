-- ===== src/MemoryPool/Storage/Chunks.antt =====
-- The chunks of one block, and the loop of `segregate` that links them.
use server_core.Common.{
  ℕ, zero, suc, ◌+◌, ◌*◌, ◌^◌, ◌≤◌, ◌<◌, ◌≡◌, ◌⊎◌, subst, List, [], ◌∷◌, some, arith,
}
use server_core.MemoryPool.Memory.{
  Ptr, Memory, store, count, IsDistinct, Links, Links-cons, Links-cons,
}
use server_core.MemoryPool.Storage.{back, link_down}

-- The chunks `block`, `block + size`, … before those of a list.
abbrev pub chunks : (block size n : ℕ) → List Ptr → List Ptr
chunks block size zero xs = xs
chunks block size (suc n) xs = chunks block size n ((block + n * size) ∷ xs)

pub count-chunks :
    (a block size n : ℕ) (xs : List Ptr)
    → count a (chunks block size n xs) ≡ count a (chunks block size n []) + count a xs
count-chunks a block size zero xs = omega arith
count-chunks a block size (suc n) xs = omega (
  arith,
  count-chunks a block size n ((block + n * size) ∷ xs),
  count-chunks a block size n ((block + n * size) ∷ []),
)

-- An address outside the block is none of its chunks.
pub count-chunks_outside :
    (a block size n : ℕ)
    → ((a < block) ⊎ (block + n * size ≤ a))
    → 0 < size
    → count a (chunks block size n []) ≡ 0
count-chunks_outside a block size zero h p = omega arith
count-chunks_outside a block size (suc n) h p = ground (
  arith,
  count-chunks a block size n ((block + n * size) ∷ []),
  count-chunks_outside a block size n,
)

-- The chunks of one block are distinct.
pub chunks-IsDistinct : (block size n : ℕ) → 0 < size → IsDistinct (chunks block size n [])
chunks-IsDistinct block size zero p a = omega arith
chunks-IsDistinct block size (suc n) p a = ground (
  arith,
  count-chunks a block size n ((block + n * size) ∷ []),
  count-chunks_outside a block size n,
  chunks-IsDistinct block size n p a,
)

back-above :
    (block size n : ℕ)
    → 0 < size
    → block + suc n * size < 2 ^ 64
    → back (block + suc n * size) size ≡ block + n * size
back-above block size n p b = omega arith

-- The loop links the chunks of the block in order of their addresses, and then the list above.
pub link_down_lem :
    (fuel n : ℕ) (mem : Memory) (last block size : ℕ) (xs : List Ptr) (end : Ptr)
    → 0 < size
    → block + n * size < 2 ^ 64
    → n < fuel
    → ((a : Ptr) → block ≤ a → a ≤ block + n * size → count a xs ≡ 0)
    → Links mem last xs end
    → (mem' : Memory) × (link_down fuel mem (block + n * size) last block size ≡ some mem')
      × Links mem' block (chunks block size (suc n) xs) end
      × ((a : Ptr) → count a (chunks block size (suc n) []) ≡ 0 → mem' a ≡ mem a)
unfolding link_down
link_down_lem zero n mem last block size xs end p b f out l = absurd (omega arith)
link_down_lem (suc fuel) zero mem last block size xs end p b f out l =
    let bottom : block + 0 * size ≡ block = omega arith in
    (
      store mem (block + 0 * size) last,
      ground arith,
      subst (λ q. Links (store mem (block + 0 * size) last) q (chunks block size 1 xs) end) bottom
          (Links-cons mem last xs end (block + 0 * size) l (out _ (omega arith) (omega arith))),
      λ a h. ground arith,
    )
link_down_lem (suc fuel) (suc n) mem last block size xs end p b f out l =
    let it = block + suc n * size in
    let (mem', e, linked, kept) =
      link_down_lem fuel n (store mem it last) it block size (it ∷ xs) end p (omega arith)
        (omega arith) (λ a lo hi. ground (arith, out a))
        (Links-cons mem last xs end it l (out it (omega arith) (omega arith))) in
    (
      mem',
      ground (arith, back-above block size n p b),
      linked,
      λ a h. ground (
        arith,
        kept a,
        count-chunks a block size n ((block + n * size) ∷ it ∷ []),
        count-chunks a block size n ((block + n * size) ∷ []),
      ),
    )
