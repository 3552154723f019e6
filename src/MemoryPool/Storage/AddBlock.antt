-- ===== src/MemoryPool/Storage/AddBlock.antt =====
-- `add_block` on an empty storage: the whole block becomes free, and nothing else moves.
use server_core.Common.{
  ℕ, suc, ◌+◌, ◌-◌, ◌*◌, ◌^◌, ◌≤◌, ◌<◌, ◌≡◌, ◌≢◌, ◌⊎◌, refl, sym, ap, ne-or-eq, ◌∙◌, List, [], ◌∷◌,
  some, arith, ◌==◌, if◌then◌else◌, leb, ltb, ◌&&◌, Bool-cases, inl, inr,
}
use server_core.MemoryPool.Memory.{Ptr, null, Memory, store, count, Links}
use server_core.MemoryPool.Storage.{Storage, back, link_down, segregate, add_block}
use server_core.MemoryPool.Storage.Chunks.{
  chunks, count-chunks, count-chunks_outside, chunks-IsDistinct, link_down_lem,
}
use server_core.MemoryPool.Storage.Laws.{Holds}

-- Where the tail stands after a block of `n` chunks has come in.
abbrev pub tail_after : Storage → (block size n : ℕ) → Ptr
tail_after s block size n = if s.tail_ == null then block + (n - 1) * size else s.tail_

-- The chunks before that tail.
abbrev pub chunks_after : Storage → (block size n : ℕ) → List Ptr
chunks_after s block size n =
    if s.tail_ == null then chunks block size (n - 1) [] else chunks block size n []

-- A block of `n` chunks of `size` bytes, at addresses that nothing else uses.
pub record IsRoom (tail : Ptr) (live : List Ptr) (block size n : ℕ) : Type 0 where
  pub some_chunks : 2 ≤ n
  pub some_bytes : 0 < size
  pub nonnull : 0 < block
  pub in_space : block + n * size < 2 ^ 64
  pub unused :
      (a : Ptr) → block ≤ a → a < block + n * size → (if a == tail then 1 else 0) + count a live ≡ 0

module _ (mem : Memory) (s : Storage) (block size m : ℕ) where
  first_link : Memory
  first_link = store mem (block + suc m * size) (if s.tail_ == null then null else s.tail_)

  segregate-link_down :
      {mem' : Memory}
      → 0 < size
      → block + suc (suc m) * size < 2 ^ 64
      → link_down
          (suc (suc m) * size)
          first_link
          (block + m * size)
          (block + suc m * size)
          block
          size
        ≡ some mem'
      → add_block mem s block (suc (suc m) * size) size
        ≡ some (
          mem',
          record {
            head_ = block;
            tail_ = if s.tail_ == null then block + suc m * size else s.tail_;
          },
        )
  unfolding add_block first_link
  segregate-link_down {mem'} p b e =
      let e1 : back (block + suc (suc m) * size) size ≡ block + suc m * size = omega arith in
      let e2 : back (block + suc m * size) size ≡ block + m * size = omega arith in
      rw (add_block, segregate, e1, e2, e) (rw e1)

  first_link-tail : s.tail_ ≢ null → first_link (block + suc m * size) ≡ s.tail_
  unfolding first_link
  first_link-tail t = ground arith

-- What `add_block` leaves: the storage holds the new chunks, and memory outside the block is as it
-- was.
abbrev pub AddsBlock : Memory → Storage → List Ptr → (block size n : ℕ) → Type 0
AddsBlock mem s live block size n =
    (mem' : Memory) × (s' : Storage) × (add_block mem s block (n * size) size ≡ some (mem', s'))
    × (s'.head_ ≡ block)
    × (s'.tail_ ≡ tail_after s block size n)
    × Holds mem' s' (chunks_after s block size n) live
    × ((a : Ptr) → ((a < block) ⊎ (block + n * size ≤ a)) → mem' a ≡ mem a)

module _ {mem : Memory} {s : Storage} {live : List Ptr} {block size m : ℕ}
    (holds : Holds mem s [] live) (room : IsRoom s.tail_ live block size (suc (suc m))) where
  block-distinct :
      (a : Ptr)
      → count a (chunks block size (suc (suc m)) [])
          + (if a == s.tail_ then 1 else 0)
          + count a live
        ≤ 1
  block-distinct a = elim (Bool-cases (leb block a && ltb a (block + suc (suc m) * size))) [
    | inl within ↦
        ground (arith, chunks-IsDistinct block size (suc (suc m)) room.some_bytes a, room.unused a)
    | inr outside ↦
        ground (
          arith,
          count-chunks_outside a block size (suc (suc m)),
          room.some_bytes,
          holds.distinct a,
        )
  ]

  block-nonnull : count null (chunks block size (suc (suc m)) []) ≡ 0
  block-nonnull =
      count-chunks_outside null block size (suc (suc m)) (inl room.nonnull) room.some_bytes

  module _ {mem' : Memory}
      (kept : (a : Ptr)
        → count a (chunks block size (suc m) []) ≡ 0
        → mem' a ≡ first_link mem s block size m a) where
    outside-kept : (a : Ptr) → ((a < block) ⊎ (block + suc (suc m) * size ≤ a)) → mem' a ≡ mem a
    unfolding first_link
    outside-kept a out =
        ground (arith, kept a, room.some_bytes, count-chunks_outside a block size (suc m))

    first-Holds :
        Links mem' block (chunks block size (suc m) []) (block + suc m * size)
        → s.tail_ ≡ null
        → Holds mem'
            (record { head_ = block; tail_ = block + suc m * size })
            (chunks block size (suc m) [])
            live
    first-Holds linked t = record {
      linked = linked;
      distinct = λ a. ground (
        arith,
        block-distinct a,
        count-chunks a block size (suc m) ((block + suc m * size) ∷ []),
      );
      nonnull = ground (
        arith,
        block-nonnull,
        holds.nonnull,
        count-chunks null block size (suc m) ((block + suc m * size) ∷ []),
      );
    }

    next-Holds :
        Links mem' block (chunks block size (suc (suc m)) []) s.tail_
        → Holds mem'
            (record { head_ = block; tail_ = s.tail_ })
            (chunks block size (suc (suc m)) [])
            live
    next-Holds linked = record {
      linked = linked;
      distinct = λ a. omega (arith, block-distinct a);
      nonnull = omega (arith, block-nonnull, holds.nonnull);
    }

  above-loop :
      (block + m * size < 2 ^ 64)
      × (block + suc m * size < 2 ^ 64)
      × (m < suc (suc m) * size)
      × ((a : Ptr) → a ≤ block + m * size → count a ((block + suc m * size) ∷ []) ≡ 0)
  above-loop = (
    grind (arith, room.some_bytes, room.in_space),
    grind (arith, room.some_bytes, room.in_space),
    grind (arith, room.some_bytes),
    λ a hi. ground (arith, room.some_bytes),
  )

  pub after-first :
      s.tail_ ≡ null
      → (tail_after s block size (suc (suc m)) ≡ block + suc m * size)
        × (chunks_after s block size (suc (suc m)) ≡ chunks block size (suc m) [])
  after-first t = let e : suc (suc m) - 1 ≡ suc m = omega arith in rw e (ground arith, ground arith)

  pub after-next :
      s.tail_ ≢ null
      → (tail_after s block size (suc (suc m)) ≡ s.tail_)
        × (chunks_after s block size (suc (suc m)) ≡ chunks block size (suc (suc m)) [])
  after-next t = (ground arith, ground arith)

  add_block-first : s.tail_ ≡ null → AddsBlock mem s live block size (suc (suc m))
  add_block-first t =
      let (mem', e, linked, kept) =
        link_down_lem (suc (suc m) * size) m (first_link mem s block size m) (block + suc m * size)
          block size [] (block + suc m * size) room.some_bytes above-loop.0 above-loop.2
          (λ a lo hi. refl) refl in
      (
        mem',
        record { head_ = block; tail_ = block + suc m * size },
        segregate-link_down mem s block size m room.some_bytes room.in_space e
            ∙ ap (λ (q : Ptr). some (mem', record { head_ = block; tail_ = q })) (ground arith),
        refl,
        sym (after-first t).0,
        rw (after-first t).1 (first-Holds kept linked t),
        outside-kept kept,
      )

  add_block-next : s.tail_ ≢ null → AddsBlock mem s live block size (suc (suc m))
  add_block-next t =
      let (mem', e, linked, kept) =
        link_down_lem (suc (suc m) * size) m (first_link mem s block size m) (block + suc m * size)
          block size ((block + suc m * size) ∷ []) s.tail_ room.some_bytes above-loop.0 above-loop.2
          (λ a lo hi. above-loop.3 a hi) (refl, first_link-tail mem s block size m t) in
      (
        mem',
        record { head_ = block; tail_ = s.tail_ },
        segregate-link_down mem s block size m room.some_bytes room.in_space e
            ∙ ap (λ (q : Ptr). some (mem', record { head_ = block; tail_ = q })) (ground arith),
        refl,
        sym (after-next t).0,
        rw (after-next t).1 (next-Holds kept linked),
        outside-kept kept,
      )

  pub add_block_lem : AddsBlock mem s live block size (suc (suc m))
  add_block_lem = elim (ne-or-eq s.tail_ null) [
    | inl t ↦ add_block-first t
    | inr t ↦ add_block-next t
  ]
