-- ===== src/MemoryPool/Pool/Invariant.antt =====
-- A pool with its chunks in use and its blocks; what a block from `::malloc` must satisfy.
use server_core.Common.{
  ℕ, ◌+◌, ◌*◌, ◌^◌, ◌≤◌, ◌<◌, ◌≡◌, refl, List, [], ◌++◌, arith, ◌==◌, if◌then◌else◌,
}
use server_core.MemoryPool.Memory.{Ptr, null, Memory, count, Links}
use server_core.MemoryPool.Storage.Laws.{Holds}
use server_core.MemoryPool.Pool.{Pool, pointer_size, new_pool}

-- `xs` are the free chunks before the tail, `live` the chunks handed out, `blocks` the blocks that
-- `::malloc` gave, newest first.
pub record Inv (mem : Memory) (p : Pool) (xs live blocks : List Ptr) : Type 0 where
  pub holds : Holds mem p.storage xs (live ++ blocks)
  pub headers : Links mem p.first_ blocks null
  pub room : pointer_size ≤ p.alloc_size_
  pub several : 2 ≤ p.next_size_

-- How often an address is one of the pool's: free, its tail, in use, or a block's.
abbrev pub uses : Pool → (xs live blocks : List Ptr) → Ptr → ℕ
uses p xs live blocks a =
    if a == null
    then 0
    else (if a == p.storage.tail_ then 1 else 0) + count a xs + count a live + count a blocks

-- The documented behaviour of `::malloc` on success: a region of the size asked for, which
-- overlaps nothing that the pool still uses, and does not wrap round the address space.
pub record IsFresh (p : Pool) (live blocks : List Ptr) (ptr : Ptr) : Type 0 where
  pub nonnull : 0 < ptr
  pub in_space : ptr + pointer_size + p.next_size_ * p.alloc_size_ < 2 ^ 64
  pub unused :
      (a : Ptr)
      → ptr ≤ a
      → a < ptr + pointer_size + p.next_size_ * p.alloc_size_
      → (if a == p.storage.tail_ then 1 else 0) + count a live + count a blocks ≡ 0

-- The constructor makes an empty pool, whatever the size.
pub new_pool-Inv : (mem : Memory) (requested_size : ℕ) → Inv mem (new_pool requested_size) [] [] []
unfolding new_pool
new_pool-Inv mem requested_size = record {
  holds = record { linked = refl; distinct = λ a. ground arith; nonnull = refl };
  headers = refl;
  room = ground arith;
  several = omega arith;
}
