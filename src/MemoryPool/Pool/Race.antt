-- ===== src/MemoryPool/Pool/Race.antt =====
-- `Malloc` of a pool's owner tests `Empty()` and then resizes, neither under the lock of the tail:
-- what becomes of a chunk that another thread appends between the two.
use mathlib.Core.Option.{some-injective}
use server_core.Common.{
  ℕ, ◌%◌, ◌^◌, ◌+◌, ◌-◌, ◌*◌, ◌<◌, ◌≡◌, ◌≢◌, Option, none, refl, sym, ap, ◌∙◌, subst, true, false,
  List, [], ◌∷◌, ◌++◌, some, arith, ◌==◌, if◌then◌else◌, Option-cases, inl, inr,
}
use server_core.MemoryPool.Memory.{
  count-append, Ptr, null, Memory, store, count, erase, count-erase,
}
use server_core.MemoryPool.Storage.{
  free_append, Storage, empty, add_block, segregate, back, link_down,
}
use server_core.MemoryPool.Storage.Laws.{empty-Holds}
use server_core.MemoryPool.Pool.{
  Pool, pointer_size, total_size, Answer, take_chunk, resize_and_malloc, free_append_chunk,
}
use server_core.MemoryPool.Pool.Invariant.{Inv, IsFresh}
use server_core.MemoryPool.Pool.Alloc.{free_append_chunk-Inv}
use server_core.MemoryPool.Pool.Grow.{grow}

-- The pool as if its list began at its tail.
abbrev cut : Pool → Pool
cut p = record p { storage = record (p.storage) { head_ = p.storage.tail_ } }

-- Adding a block does not look at the head.
add_block-head :
    (mem : Memory) (s : Storage) (head block sz partition_sz : ℕ)
    → add_block mem s block sz partition_sz
      ≡ add_block mem (record s { head_ = head }) block sz partition_sz
unfolding add_block segregate
add_block-head mem s head block sz partition_sz =
    let last = back (block + sz) partition_sz in
    let mem' = store mem last (if s.tail_ == null then null else s.tail_) in
    elim (Option-cases (link_down sz mem' (back last partition_sz) last block partition_sz)) [
      | inl e ↦ rw (add_block, segregate, e) refl
      | inr (m, e) ↦ rw (add_block, segregate, e) refl
    ]

abbrev after_block : Pool → Ptr → Option (Memory × Storage) → Answer
after_block p ptr none = none
after_block p ptr (some (mem', s)) =
    take_chunk (store mem' ptr p.first_)
      (record p { storage = s; first_ = ptr; next_size_ = p.next_size_ * 2 % 2 ^ 64 })

resize-cut :
    (mem : Memory) (p : Pool) (ptr : Ptr)
    → 0 < ptr
    → resize_and_malloc mem p ptr ≡ resize_and_malloc mem (cut p) ptr
unfolding resize_and_malloc
resize-cut mem p ptr pos =
    let given : (ptr == null) ≡ false = ground (arith, pos) in
    rw given (
      ap (after_block p ptr) (
        add_block-head mem p.storage p.storage.tail_ (ptr + pointer_size) (total_size p)
          p.alloc_size_))

-- The chunk before the tail passes for one in use.
cut-Inv :
    {mem : Memory} {p : Pool} {t : Ptr} {live blocks : List Ptr}
    → Inv mem p (t ∷ []) live blocks
    → Inv mem (cut p) [] (t ∷ live) blocks
cut-Inv {p} {t} {live} {blocks} inv = record {
  holds = record {
    linked = refl;
    distinct = λ a. ground (arith, inv.holds.distinct a);
    nonnull = ground (arith, inv.holds.nonnull);
  };
  headers = inv.headers;
  room = inv.room;
  several = inv.several;
}

-- On a pool that satisfies the invariant, with a tail, no chunk before it and a fresh block: if the
-- owner has found the pool empty, another thread then appends a chunk in use, and only then the
-- owner resizes, neither call faults, and the chunk that was the tail is lost: it is neither free
-- nor the tail, nobody held it, and the invariant holds with it among the chunks in use.
pub resize_after_append :
    {mem : Memory} {p : Pool} {xs live blocks : List Ptr} (c ptr : Ptr)
    → Inv mem p xs live blocks
    → empty p.storage ≡ true
    → 0 < count c live
    → p.storage.tail_ ≢ null
    → IsFresh p (p.storage.tail_ ∷ live) blocks ptr
    → (mem' mem'' : Memory) × (p' p'' : Pool) × (ys : List Ptr) × (free_append_chunk mem p c
        ≡ some (mem', p'))
      × (resize_and_malloc mem' p' ptr ≡ some (ptr + pointer_size, mem'', p''))
      × Inv mem'' p'' ys ((ptr + pointer_size) ∷ p.storage.tail_ ∷ erase c live) (ptr ∷ blocks)
      × (count p.storage.tail_ live ≡ 0)
      × (count p.storage.tail_ ys ≡ 0)
      × (p.storage.tail_ ≢ p''.storage.tail_)
unfolding free_append_chunk free_append
resize_after_append {mem} {p} {xs} {live} {blocks} c ptr inv e k t fresh =
    let none_left = empty-Holds xs (live ++ blocks) inv.holds e in
    let mem₁ = store mem p.storage.tail_ c in
    let p₁ = record p { storage = record (p.storage) { tail_ = c } } in
    let given : free_append_chunk mem p c ≡ some (mem₁, p₁) = ground (arith, t) in
    let (_, _, given', inv₁, _, _) =
      free_append_chunk-Inv (subst (λ (ys : List Ptr). Inv mem p ys live blocks) none_left inv) c k
        t in
    let kept : Inv mem₁ p₁ (p.storage.tail_ ∷ []) (erase c live) blocks =
      subst (λ (r : Memory × Pool). Inv r.0 r.1 (p.storage.tail_ ∷ []) (erase c live) blocks)
        (some-injective _ _ (sym given' ∙ given)) inv₁ in
    let unused : IsFresh (cut p₁) (p.storage.tail_ ∷ erase c live) blocks ptr = record {
      nonnull = fresh.nonnull;
      in_space = fresh.in_space;
      unused = λ a lo hi. ground (arith, fresh.unused a lo hi, count-erase a c live k);
    } in
    let (mem₂, p₂, ys, taken, grown, _, _, _, _) =
      grow ptr (p.next_size_ - 2) (cut-Inv kept) unused (omega (arith, inv.several)) in
    let more =
      count-append p.storage.tail_ ((ptr + pointer_size) ∷ p.storage.tail_ ∷ erase c live)
        (ptr ∷ blocks) in
    (
      mem₁,
      mem₂,
      p₁,
      p₂,
      ys,
      given,
      resize-cut mem₁ p₁ ptr fresh.nonnull ∙ taken,
      grown,
      ground (arith, inv.holds.distinct p.storage.tail_, count-append p.storage.tail_ live blocks),
      ground (arith, grown.holds.distinct p.storage.tail_, more),
      λ z. ground (arith, grown.holds.distinct p.storage.tail_, more, z),
    )
