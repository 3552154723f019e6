-- ===== src/MemoryPool/Pool/Grow.antt =====
-- `resize_and_malloc` on an empty pool, and the hand-out of the first free chunk.
use server_core.Common.{
  ℕ, suc, ◌+◌, ◌-◌, ◌*◌, ◌≤◌, ◌<◌, ◌≡◌, ◌≢◌, ◌⊎◌, inl, inr, refl, sym, ap, ◌∙◌, subst, false, List,
  [], ◌∷◌, ◌++◌, some, arith, ◌==◌,
}
use native.Mathlib.Decide.{dec_lt}
use server_core.MemoryPool.Memory.{
  Ptr, null, Memory, store, count, count-append, Links, Links-store, Links-agree, Links-cons,
}
use server_core.MemoryPool.Storage.{Storage, empty, add_block}
use server_core.MemoryPool.Storage.Chunks.{count-chunks_outside}
use server_core.MemoryPool.Storage.Laws.{Holds, storage_malloc_lem}
use server_core.MemoryPool.Storage.AddBlock.{tail_after, chunks_after}
use server_core.MemoryPool.Pool.{Pool, pointer_size, take_chunk, resize_and_malloc}
use server_core.MemoryPool.Pool.Invariant.{Inv, IsFresh}
use server_core.MemoryPool.Pool.Block.{
  grown, base, unused-count, total-exact, added, doubled, last-above, mul_mono,
}
use server_core.MemoryPool.Pool.Outside.{KeepsOutside, grow-keeps}

module _ {mem : Memory} {p : Pool} {live blocks : List Ptr} where
  pub take_chunk-Inv :
      (xs : List Ptr)
      → Inv mem p xs live blocks
      → empty p.storage ≡ false
      → (c : Ptr) × (ys : List Ptr) × (p' : Pool) × (xs ≡ c ∷ ys)
        × (p.storage.head_ ≡ c)
        × (take_chunk mem p ≡ some (c, mem, p'))
        × Inv mem p' ys (c ∷ live) blocks
        × (p'.next_size_ ≡ p.next_size_)
        × (p'.storage.tail_ ≡ p.storage.tail_)
  unfolding take_chunk
  take_chunk-Inv xs inv e =
      let (c, ys, split, at, taken, holds) = storage_malloc_lem xs (live ++ blocks) inv.holds e in
      (
        c,
        ys,
        record p { storage = record (p.storage) { head_ = mem c } },
        split,
        at,
        rw (taken, take_chunk),
        record { holds = holds; headers = inv.headers; room = inv.room; several = inv.several },
        refl,
        refl,
      )

module _ {mem : Memory} {p : Pool} {live blocks : List Ptr} (ptr m : ℕ)
    (inv : Inv mem p [] live blocks) (fresh : IsFresh p live blocks ptr)
    (size : p.next_size_ ≡ suc (suc m)) where
  resize_and_malloc-grown :
      {mem' : Memory} {s : Storage}
      → add_block mem p.storage (base ptr) (suc (suc m) * p.alloc_size_) p.alloc_size_
        ≡ some (mem', s)
      → resize_and_malloc mem p ptr ≡ take_chunk (store mem' ptr p.first_) (grown p ptr s)
  unfolding resize_and_malloc
  resize_and_malloc-grown e =
      let given : (ptr == null) ≡ false = ground (arith, fresh.nonnull) in
      rw (given, total-exact ptr m inv fresh size, e)

  module _ {mem' : Memory} {s : Storage}
      (tail : s.tail_ ≡ tail_after p.storage (base ptr) p.alloc_size_ (suc (suc m)))
      (holds : Holds mem' s
        (chunks_after p.storage (base ptr) p.alloc_size_ (suc (suc m)))
        (live ++ blocks))
      (kept : (a : Ptr)
        → ((a < base ptr) ⊎ (base ptr + suc (suc m) * p.alloc_size_ ≤ a))
        → mem' a ≡ mem a) where
    header-unused :
        (count ptr (chunks_after p.storage (base ptr) p.alloc_size_ (suc (suc m))) ≡ 0)
        × (count ptr (live ++ blocks) ≡ 0)
        × ((ptr == s.tail_) ≡ false)
    header-unused = (
      ground (
        arith,
        inv.room,
        count-chunks_outside ptr (base ptr) p.alloc_size_ (suc (suc m) - 1),
        count-chunks_outside ptr (base ptr) p.alloc_size_ (suc (suc m)),
      ),
      ground (arith, unused-count ptr m inv fresh size ptr, fresh.in_space, inv.room),
      ground (arith, tail, unused-count ptr m inv fresh size ptr, fresh.in_space, inv.room),
    )

    block-outside :
        (a : Ptr)
        → 0 < count a blocks
        → ((a < base ptr) ⊎ (base ptr + suc (suc m) * p.alloc_size_ ≤ a))
    block-outside a c = elim (dec_lt a (base ptr)) [
      | yes h ↦ inl h
      | no h ↦ inr (ground (arith, fresh.unused a, ap (λ (k : ℕ). k * p.alloc_size_) size))
    ]

    headers-kept : Links mem' p.first_ blocks null
    headers-kept =
        Links-agree mem mem' p.first_ blocks null inv.headers λ a c. kept a (block-outside a c)

    grown-Inv :
        Inv
          (store mem' ptr p.first_)
          (grown p ptr s)
          (chunks_after p.storage (base ptr) p.alloc_size_ (suc (suc m)))
          live
          (ptr ∷ blocks)
    grown-Inv = record {
      holds = record {
        linked = Links-store mem' s.head_ _ s.tail_ ptr p.first_ holds.linked header-unused.0;
        distinct = λ a. ground (
          arith,
          holds.distinct a,
          header-unused,
          count-append a live (ptr ∷ blocks),
          count-append a live blocks,
        );
        nonnull = ground (
          arith,
          holds.nonnull,
          fresh.nonnull,
          count-append null live (ptr ∷ blocks),
          count-append null live blocks,
        );
      };
      headers =
          Links-cons mem' p.first_ blocks null ptr headers-kept
            (omega (arith, header-unused.1, count-append ptr live blocks));
      room = inv.room;
      several = omega (arith, doubled ptr m inv fresh size, inv.several);
    }

    grown-ne_empty : s.head_ ≡ base ptr → empty s ≡ false
    unfolding empty
    grown-ne_empty h = ground (
      arith,
      tail,
      h,
      inv.several,
      mul_mono p.next_size_ pointer_size p.alloc_size_ inv.room,
      unused-count ptr m inv fresh size (base ptr),
      last-above ptr m inv fresh size,
    )

  pub grow :
      (mem' : Memory) × (p' : Pool) × (ys : List Ptr) × (resize_and_malloc mem p ptr
        ≡ some (base ptr, mem', p'))
      × Inv mem' p' ys (base ptr ∷ live) (ptr ∷ blocks)
      × (p'.next_size_ ≡ p.next_size_ * 2)
      × KeepsOutside mem mem' p p' ptr ys live blocks
      × (p'.storage.tail_ ≢ null)
      × (chunks_after p.storage (base ptr) p.alloc_size_ (suc (suc m)) ≡ base ptr ∷ ys)
  grow =
      let (mem', s, e, head, tail, holds, kept) = added ptr m inv fresh size in
      let (c, ys, p', split, at, taken, inv', next, tail') =
        take_chunk-Inv _ (grown-Inv tail holds kept) (grown-ne_empty tail holds kept head) in
      let here : c ≡ base ptr = sym at ∙ head in
      (
        store mem' ptr p.first_,
        p',
        ys,
        resize_and_malloc-grown e
            ∙ taken
            ∙ ap (λ (q : Ptr). some (q, store mem' ptr p.first_, p')) here,
        subst (λ q. Inv (store mem' ptr p.first_) p' ys (q ∷ live) (ptr ∷ blocks)) here inv',
        next ∙ doubled ptr m inv fresh size,
        grow-keeps ptr m inv fresh size s p' tail kept split tail',
        λ z. ground (arith, tail, tail', z, fresh.nonnull),
        split ∙ ap (λ (q : Ptr). q ∷ ys) here,
      )
