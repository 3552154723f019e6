-- ===== src/MemoryPool/Storage.antt =====
-- core/memory_pool/include/segregated_storage.hpp: a free list of equal chunks. The owner takes and
-- gives at the head; another thread gives at the tail, under `lock_tail_`, so that its two writes
-- are one step here. `none` is a fault: a pointer read or written through null, the failed `assert`,
-- or a loop of `segregate` that passes its block.
pub mod Chunks
pub mod Laws
pub mod AddBlock
use server_core.Common.{
  ℕ, zero, suc, ◌+◌, ◌-◌, ◌%◌, ◌^◌, Bool, true, false, Option, none, some, ◌==◌, if◌then◌else◌,
}
use server_core.MemoryPool.Memory.{Ptr, null, Memory, store}

pub record Storage : Type 0 where
  pub head_ : Ptr
  pub tail_ : Ptr

abbrev pub new_storage : Storage
new_storage = record { head_ = null; tail_ = null }

-- `malloc`: the head, whatever it is, after reading the pointer in it.
unfoldable pub storage_malloc : Memory → Storage → Option (Ptr × Storage)
storage_malloc mem s =
    if s.head_ == null then none else some (s.head_, record s { head_ = mem s.head_ })

-- `free`
unfoldable pub storage_free : Memory → Storage → Ptr → Option (Memory × Storage)
storage_free mem s chunk =
    if chunk == null then none else some (store mem chunk s.head_, record s { head_ = chunk })

-- `free_append`
unfoldable pub free_append : Memory → Storage → Ptr → Option (Memory × Storage)
free_append mem s chunk =
    if s.tail_ == null then none else some (store mem s.tail_ chunk, record s { tail_ = chunk })

unfoldable pub empty : Storage → Bool
empty s = s.head_ == s.tail_

-- `char*` minus an offset
abbrev pub back : Ptr → ℕ → Ptr
back p k = (p + 2 ^ 64 - k) % 2 ^ 64

-- The `for` loop of `segregate`: it links each chunk to the one above, down to the block itself.
pub link_down : ℕ → Memory → (it last block partition_sz : ℕ) → Option Memory
link_down zero mem it last block partition_sz = none
link_down (suc fuel) mem it last block partition_sz = elim (it == block) [
  | true ↦ some (store mem it last)
  | false ↦ link_down fuel (store mem it last) (back it partition_sz) it block partition_sz
]

-- `segregate`: the last chunk becomes the tail of an unused list, and is put before the tail of
-- one in use. Each round of the loop takes at least a byte of the block: its size is fuel enough.
unfoldable pub segregate :
    Memory → Storage → (block sz partition_sz : ℕ) → Option (Memory × Storage)
unfolding link_down
segregate mem s block sz partition_sz =
    let last = back (block + sz) partition_sz in
    let mem' = store mem last (if s.tail_ == null then null else s.tail_) in
    let s' = record s { tail_ = if s.tail_ == null then last else s.tail_ } in
    elim (link_down sz mem' (back last partition_sz) last block partition_sz) [
      | none ↦ none
      | some mem'' ↦ some (mem'', s')
    ]

-- `add_block`: what the list held before is no longer reached from its head.
unfoldable pub add_block :
    Memory → Storage → (block sz partition_sz : ℕ) → Option (Memory × Storage)
unfolding segregate
add_block mem s block sz partition_sz = elim (segregate mem s block sz partition_sz) [
  | none ↦ none
  | some (mem', s') ↦ some (mem', record s' { head_ = block })
]
