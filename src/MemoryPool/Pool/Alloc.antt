-- ===== src/MemoryPool/Pool/Alloc.antt =====
-- `Malloc`, `Free` and `FreeAppend` keep the pool's invariant, on every branch.
use server_core.Common.{
  suc, ap, ◌+◌, ◌-◌, ◌*◌, ◌<◌, ◌≡◌, ◌≢◌, inl, inr, refl, ◌∙◌, true, false, List, [], ◌∷◌, ◌++◌,
  some, arith, Bool-cases, ne-or-eq,
}
use server_core.MemoryPool.Memory.{
  Ptr, null, Memory, store, count, count-append, Links, Links-store, erase, count-erase,
}
use server_core.MemoryPool.Storage.{empty, storage_malloc}
use server_core.MemoryPool.Storage.AddBlock.{chunks_after}
use server_core.MemoryPool.Storage.Laws.{
  Holds-reorder, empty-Holds, storage_free_lem, free_append_lem,
}
use server_core.MemoryPool.Pool.{
  Pool, pointer_size, take_chunk, resize_and_malloc, malloc, free, free_append_chunk,
}
use server_core.MemoryPool.Pool.Invariant.{Inv, IsFresh}
use server_core.MemoryPool.Pool.Outside.{KeepsOutside}
use server_core.MemoryPool.Pool.Grow.{take_chunk-Inv, grow}

-- The three outcomes of `Malloc`.
pub data Mallocs (mem : Memory) (p : Pool) (ptr : Ptr) (xs live blocks : List Ptr) : Type 0 where
  reuses :
      (c : Ptr) (ys : List Ptr) (p' : Pool)
      → empty p.storage ≡ false
      → xs ≡ c ∷ ys
      → malloc mem p ptr ≡ some (c, mem, p')
      → Inv mem p' ys (c ∷ live) blocks
      → p'.next_size_ ≡ p.next_size_
      → p'.storage.tail_ ≡ p.storage.tail_
      → Mallocs mem p ptr xs live blocks
  grows :
      (mem' : Memory) (ys : List Ptr) (p' : Pool)
      → empty p.storage ≡ true
      → 0 < ptr
      → malloc mem p ptr ≡ some (ptr + pointer_size, mem', p')
      → Inv mem' p' ys ((ptr + pointer_size) ∷ live) (ptr ∷ blocks)
      → p'.next_size_ ≡ p.next_size_ * 2
      → KeepsOutside mem mem' p p' ptr ys live blocks
      → p'.storage.tail_ ≢ null
      → chunks_after p.storage (ptr + pointer_size) p.alloc_size_ p.next_size_
        ≡ (ptr + pointer_size) ∷ ys
      → Mallocs mem p ptr xs live blocks
  fails :
      empty p.storage ≡ true
      → ptr ≡ null
      → malloc mem p ptr ≡ some (null, mem, p)
      → Mallocs mem p ptr xs live blocks

module _ (mem : Memory) (p : Pool) (ptr : Ptr) where
  malloc-take : empty p.storage ≡ false → malloc mem p ptr ≡ take_chunk mem p
  unfolding malloc
  malloc-take e = rw e

  malloc-resize : empty p.storage ≡ true → malloc mem p ptr ≡ resize_and_malloc mem p ptr
  unfolding malloc
  malloc-resize e = rw e

  resize_and_malloc-null : ptr ≡ null → resize_and_malloc mem p ptr ≡ some (null, mem, p)
  unfolding resize_and_malloc
  resize_and_malloc-null z = ground arith

-- A chunk that has just been given back is the next one handed out.
malloc_again :
    (mem : Memory) (p : Pool) (c ptr : Ptr)
    → c ≢ null
    → c ≢ p.storage.tail_
    → let mem' = store mem c p.storage.head_ in
      let p' = record p { storage = record (p.storage) { head_ = c } } in
      malloc mem' p' ptr ≡ some (c, mem', p)
unfolding malloc empty storage_malloc
malloc_again mem p c ptr h t = ground arith

module _ {mem : Memory} {p : Pool} {xs live blocks : List Ptr}
    (inv : Inv mem p xs live blocks) where
  -- On a pool that satisfies the invariant, with a fresh block from `::malloc` where it is asked
  -- and answers, `Malloc` does one of three things: it takes the first free chunk; or, with no
  -- chunk before the tail, it hands out the first chunk of the new block and keeps the others; or
  -- `::malloc` has failed, it returns null and changes nothing. The invariant holds after it.
  pub malloc-Inv :
      (ptr : Ptr)
      → (empty p.storage ≡ true → 0 < ptr → IsFresh p live blocks ptr)
      → Mallocs mem p ptr xs live blocks
  malloc-Inv ptr fresh = elim (Bool-cases (empty p.storage)) [
    | inr e ↦
        let (c, ys, p', split, at, taken, inv', next, tail) = take_chunk-Inv xs inv e in
        reuses c ys p' e split (malloc-take mem p ptr e ∙ taken) inv' next tail
    | inl e ↦ elim (ne-or-eq ptr null) [
      | inl z ↦ fails e z (malloc-resize mem p ptr e ∙ resize_and_malloc-null mem p ptr z)
      | inr h ↦
          let none_left = empty-Holds xs (live ++ blocks) inv.holds e in
          let size : p.next_size_ ≡ suc (suc (p.next_size_ - 2)) = omega (arith, inv.several) in
          let (mem', p', ys, taken, inv', next, keeps, tail, split) =
            grow ptr (p.next_size_ - 2) (rw none_left at inv) (fresh e (omega arith)) size in
          grows mem' ys p' e (omega arith) (malloc-resize mem p ptr e ∙ taken) inv' next keeps tail
            (ap (chunks_after p.storage (ptr + pointer_size) p.alloc_size_) size ∙ split)
    ]
  ]

  in_use : (c : Ptr) → 0 < count c live → Inv mem p xs (c ∷ erase c live) blocks
  in_use c h = record {
    holds = Holds-reorder inv.holds (λ a. omega (
      arith,
      count-erase a c live h,
      count-append a live blocks,
      count-append a (c ∷ erase c live) blocks,
    ));
    headers = inv.headers;
    room = inv.room;
    several = inv.several;
  }

  headers-store : (a v : Ptr) → count a blocks ≡ 0 → Links (store mem a v) p.first_ blocks null
  headers-store a v h = Links-store mem p.first_ blocks null a v inv.headers h

  -- An address in use is neither null, nor the tail, nor a block.
  live-apart :
      (c : Ptr) → 0 < count c live → (c ≢ null) × (c ≢ p.storage.tail_) × (count c blocks ≡ 0)
  live-apart c h =
      let d = inv.holds.distinct c in
      let n = inv.holds.nonnull in
      (
        λ z. ground (arith, count-append null live blocks),
        λ z. ground (arith, count-append c live blocks),
        omega (arith, count-append c live blocks),
      )

  -- On a pool that satisfies the invariant, `Free` of a chunk in use does not fault and keeps the
  -- invariant, with that chunk first among the free ones; the next `Malloc` returns it and the pool
  -- as it was before.
  pub free-Inv :
      (c : Ptr)
      → 0 < count c live
      → (mem' : Memory) × (p' : Pool) × (free mem p c ≡ some (mem', p'))
        × Inv mem' p' (c ∷ xs) (erase c live) blocks
        × ((ptr : Ptr) → malloc mem' p' ptr ≡ some (c, mem', p))
  unfolding free
  free-Inv c h =
      let (e, holds) = storage_free_lem c xs (erase c live ++ blocks) (in_use c h).holds in
      let (nonnull, not_tail, not_block) = live-apart c h in
      (
        store mem c p.storage.head_,
        record p { storage = record (p.storage) { head_ = c } },
        rw (free, e),
        record {
          holds = holds;
          headers = headers-store c p.storage.head_ not_block;
          room = inv.room;
          several = inv.several;
        },
        λ ptr. malloc_again mem p c ptr nonnull not_tail,
      )

  -- On a pool that satisfies the invariant and has a tail, `FreeAppend` of a chunk in use does not
  -- fault and keeps the invariant: the old tail becomes the last of the free chunks, the chunk
  -- becomes the tail, and the head stays.
  pub free_append_chunk-Inv :
      (c : Ptr)
      → 0 < count c live
      → p.storage.tail_ ≢ null
      → (mem' : Memory) × (p' : Pool) × (free_append_chunk mem p c ≡ some (mem', p'))
        × Inv mem' p' (xs ++ p.storage.tail_ ∷ []) (erase c live) blocks
        × (p'.storage.tail_ ≡ c)
        × (p'.storage.head_ ≡ p.storage.head_)
  unfolding free_append_chunk
  free_append_chunk-Inv c h t =
      let (e, holds) = free_append_lem c xs (erase c live ++ blocks) (in_use c h).holds t in
      (
        store mem p.storage.tail_ c,
        record p { storage = record (p.storage) { tail_ = c } },
        rw (free_append_chunk, e),
        record {
          holds = holds;
          headers = headers-store p.storage.tail_ c (
              ground (
                arith,
                inv.holds.distinct p.storage.tail_,
                count-append p.storage.tail_ live blocks,
              ));
          room = inv.room;
          several = inv.several;
        },
        refl,
        refl,
      )
