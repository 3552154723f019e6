-- ===== src/MemoryPool/Pool.antt =====
-- core/memory_pool/include/pool.hpp: a pool of chunks of one size, which grows by blocks of doubling
-- length. `::malloc` is the C library's: its answer is an argument of the operations that may ask
-- it, null if it fails; `::free` is called on the blocks that `purge_memory` returns, in that order.
-- `none` is a fault of the storage below.
pub mod Invariant
mod Block
mod Outside
mod Grow
pub mod Alloc
pub mod Purge
pub mod Race
pub mod Clients
pub mod Contents
pub mod Contract
mod Examples
use server_core.Common.{
  ℕ, zero, suc, ◌+◌, ◌*◌, ◌%◌, ◌^◌, ◌≡◌, Bool, true, false, List, [], ◌∷◌, ◌++◌, Option, none, some,
  ◌==◌, ltb, if◌then◌else◌,
}
use server_core.MemoryPool.Memory.{Ptr, null, Memory, store}
use server_core.MemoryPool.Storage.{
  Storage, new_storage, storage_malloc, storage_free, free_append, empty, add_block,
}

-- `sizeof(void*)`
abbrev pub pointer_size : ℕ
pointer_size = 8

-- `next_size_` is the number of chunks of the next block; `first_` heads the list of blocks.
pub record Pool : Type 0 where
  pub storage : Storage
  pub next_size_ : ℕ
  pub alloc_size_ : ℕ
  pub first_ : Ptr

unfoldable pub new_pool : (requested_size : ℕ) → Pool
new_pool requested_size = record {
  storage = new_storage;
  next_size_ = 64;
  alloc_size_ = if ltb requested_size pointer_size then pointer_size else requested_size;
  first_ = null;
}

abbrev pub total_size : Pool → ℕ
total_size p = p.next_size_ * p.alloc_size_ % 2 ^ 64

-- What an operation returns: a pointer, the memory and the pool.
abbrev pub Answer : Type 0
Answer = Option (Ptr × Memory × Pool)

-- `storage().malloc()`
pub take_chunk : Memory → Pool → Answer
take_chunk mem p = elim (storage_malloc mem p.storage) [
  | none ↦ none
  | some (c, s) ↦ some (c, mem, record p { storage = s })
]

-- `resize_and_malloc`, where `::malloc` has answered `ptr`.
pub resize_and_malloc : Memory → Pool → Ptr → Answer
unfolding take_chunk
resize_and_malloc mem p ptr =
    if ptr == null
    then some (null, mem, p)
    else elim (add_block mem p.storage (ptr + pointer_size) (total_size p) p.alloc_size_) [
      | none ↦ none
      | some (mem', s) ↦
          take_chunk (store mem' ptr p.first_)
            (record p { storage = s; first_ = ptr; next_size_ = p.next_size_ * 2 % 2 ^ 64 })
    ]

-- `Malloc`
unfoldable pub malloc : Memory → Pool → Ptr → Answer
unfolding resize_and_malloc take_chunk
malloc mem p ptr = if empty p.storage then resize_and_malloc mem p ptr else take_chunk mem p

-- `Free` and `FreeAppend`
unfoldable pub free : Memory → Pool → Ptr → Option (Memory × Pool)
free mem p chunk = elim (storage_free mem p.storage chunk) [
  | none ↦ none
  | some (mem', s) ↦ some (mem', record p { storage = s })
]

unfoldable pub free_append_chunk : Memory → Pool → Ptr → Option (Memory × Pool)
free_append_chunk mem p chunk = elim (free_append mem p.storage chunk) [
  | none ↦ none
  | some (mem', s) ↦ some (mem', record p { storage = s })
]

-- The loop of `PurgeMemory`: the blocks that are freed, in order. `none`: out of fuel.
pub free_blocks : ℕ → Memory → Ptr → Option (List Ptr)
free_blocks zero mem first = none
free_blocks (suc fuel) mem first = elim (first == null) [
  | true ↦ some []
  | false ↦ elim (free_blocks fuel mem (mem first)) [ none ↦ none | some bs ↦ some (first ∷ bs) ]
]

-- `PurgeMemory`: the head is reset, the tail is not.
pub purged : Pool → Pool
purged p = record p {
  next_size_ = 32;
  storage = record (p.storage) { head_ = null };
  first_ = null;
}

unfoldable pub purge_memory : ℕ → Memory → Pool → Option (List Ptr × Pool)
unfolding free_blocks purged
purge_memory fuel mem p = elim (free_blocks fuel mem p.first_) [
  | none ↦ none
  | some bs ↦ some (bs, purged p)
]
