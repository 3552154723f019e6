-- ===== src/MemoryPool/Pool/Outside.antt =====
-- What a new block leaves alone.
use server_core.Common.{
  ne-or-eq, ℕ, suc, ◌+◌, ◌*◌, ◌≤◌, ◌<◌, ◌≡◌, ◌⊎◌, inl, inr, refl, ap, ◌∙◌, false, List, [], ◌∷◌,
  arith, ◌==◌,
}
use server_core.MemoryPool.Memory.{Ptr, null, Memory, store, count}
use server_core.MemoryPool.Storage.{Storage}
use server_core.MemoryPool.Storage.Chunks.{count-chunks_outside}
use server_core.MemoryPool.Storage.AddBlock.{tail_after, chunks_after, after-first, after-next}
use server_core.MemoryPool.Pool.{Pool, pointer_size}
use server_core.MemoryPool.Pool.Invariant.{Inv, IsFresh, uses}
use server_core.MemoryPool.Pool.Block.{base, block-IsRoom}

-- What a new block leaves alone: all memory outside it, and what the pool uses there.
abbrev pub KeepsOutside :
    (mem mem' : Memory) (p p' : Pool) (ptr : Ptr) (ys live blocks : List Ptr) → Type 0
KeepsOutside mem mem' p p' ptr ys live blocks =
    (a : Ptr)
    → ((a < ptr) ⊎ (ptr + pointer_size + p.next_size_ * p.alloc_size_ ≤ a))
    → (mem' a ≡ mem a)
      × (uses p' ys ((ptr + pointer_size) ∷ live) (ptr ∷ blocks) a ≡ uses p [] live blocks a)

module _ {mem : Memory} {p : Pool} {live blocks : List Ptr} (ptr m : ℕ)
    (inv : Inv mem p [] live blocks) (fresh : IsFresh p live blocks ptr)
    (size : p.next_size_ ≡ suc (suc m)) where
  in_block :
      (a : Ptr)
      → ((a < ptr) ⊎ (ptr + pointer_size + p.next_size_ * p.alloc_size_ ≤ a))
      → ((a < base ptr) ⊎ (base ptr + suc (suc m) * p.alloc_size_ ≤ a))
        × ((a < base ptr) ⊎ (base ptr + suc m * p.alloc_size_ ≤ a))
        × ((a == (base ptr + suc m * p.alloc_size_)) ≡ false)
        × ((a == ptr) ≡ false)
        × ((a == base ptr) ≡ false)
  in_block a out =
      let span = ap (λ (k : ℕ). k * p.alloc_size_) size in
      elim out [
        | inl h ↦ (
          inl (omega arith),
          inl (omega arith),
          ground (arith, h),
          ground (arith, h),
          ground (arith, h),
        )
        | inr h ↦ (
          inr (omega (arith, span)),
          inr (omega (arith, span)),
          ground (arith, h, span, inv.room),
          ground (arith, h, span, inv.room),
          ground (arith, h, span, inv.room),
        )
      ]

  outside-chunks_after :
      (a : Ptr)
      → ((a < ptr) ⊎ (ptr + pointer_size + p.next_size_ * p.alloc_size_ ≤ a))
      → (count a (chunks_after p.storage (base ptr) p.alloc_size_ (suc (suc m))) ≡ 0)
        × ((a == null) ≡ false
            → (a == tail_after p.storage (base ptr) p.alloc_size_ (suc (suc m)))
              ≡ (a == p.storage.tail_))
  outside-chunks_after a out =
      let (whole, short, last, _, _) = in_block a out in
      let bytes : 0 < p.alloc_size_ = omega (arith, inv.room) in
      elim (ne-or-eq p.storage.tail_ null) [
        | inl t ↦
            let (at, cs) = after-first inv.holds (block-IsRoom ptr m inv fresh size) t in
            rw (at, cs)
              (
                count-chunks_outside a (base ptr) p.alloc_size_ (suc m) short bytes,
                λ n. ground (arith, last, n, t),
              )
        | inr t ↦
            let (at, cs) = after-next inv.holds (block-IsRoom ptr m inv fresh size) t in
            rw (at, cs)
              (count-chunks_outside a (base ptr) p.alloc_size_ (suc (suc m)) whole bytes, λ n. refl)
      ]

  pub grow-keeps :
      {mem' : Memory} (s : Storage) (p' : Pool) {ys : List Ptr} {c : Ptr}
      → s.tail_ ≡ tail_after p.storage (base ptr) p.alloc_size_ (suc (suc m))
      → ((a : Ptr)
          → ((a < base ptr) ⊎ (base ptr + suc (suc m) * p.alloc_size_ ≤ a))
          → mem' a ≡ mem a)
      → chunks_after p.storage (base ptr) p.alloc_size_ (suc (suc m)) ≡ c ∷ ys
      → p'.storage.tail_ ≡ s.tail_
      → KeepsOutside mem (store mem' ptr p.first_) p p' ptr ys live blocks
  grow-keeps {mem'} s p' tail kept split tail' a out =
      let (whole, _, _, header, first) = in_block a out in
      let (none_of, same) = outside-chunks_after a out in
      (
        ground (arith, kept a whole, header),
        ground (
          arith,
          ap (count a) split,
          none_of,
          same,
          header,
          first,
          ap (λ (q : Ptr). a == q) (tail' ∙ tail),
        ),
      )
