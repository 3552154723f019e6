-- ===== src/MemoryPool/Pool/Examples.antt =====
-- The pool's theorems on small pools, and tests of its operations.
use server_core.Common.{ℕ, ◌≡◌, refl, [], ◌∷◌, some, none, arith}
use server_core.MemoryPool.Memory.{Ptr, Memory, store}
use server_core.MemoryPool.Storage.{empty, storage_malloc, add_block}
use server_core.MemoryPool.Pool.{Pool, Answer, new_pool, malloc, free, purge_memory, purged}
use server_core.MemoryPool.Pool.Invariant.{Inv, IsFresh}
use server_core.MemoryPool.Pool.Alloc.{free-Inv}
use server_core.MemoryPool.Pool.Purge.{purge_memory_lem}
use server_core.MemoryPool.Pool.Clients.{start, GoodAnswer, malloc_never_twice}

abbrev blank : Memory
blank = λ _. 0

-- A block at 8 with chunks at 16, 32 and 48, of which the last is in use.
abbrev small_memory : Memory
small_memory = store blank 16 32

abbrev small_pool : Pool
small_pool = record {
  storage = record { head_ = 16; tail_ = 32 };
  next_size_ = 64;
  alloc_size_ = 16;
  first_ = 8;
}

small_pool-Inv : Inv small_memory small_pool (16 ∷ []) (48 ∷ []) (8 ∷ [])
small_pool-Inv = record {
  holds = record { linked = (refl, refl); distinct = λ a. ground arith; nonnull = refl };
  headers = (refl, refl);
  room = omega arith;
  several = omega arith;
}

new_pool-IsFresh : IsFresh (new_pool 16) [] [] 1000
unfolding new_pool
new_pool-IsFresh = record {
  nonnull = omega arith;
  in_space = omega arith;
  unused = λ a lo hi. ground arith;
}

abbrev answer : Answer → ℕ × ℕ × ℕ
answer none = (0, 0, 0)
answer (some (c, mem', p')) = (c, p'.storage.head_, p'.storage.tail_)

-- The first chunk of a new pool follows the header of its first block, the second follows the
-- first, and the last of the 64 becomes the tail.
first_chunk : answer (malloc blank (new_pool 16) 1000) ≡ (1008, 1024, 2016)
unfolding new_pool malloc empty add_block storage_malloc
first_chunk = refl

malloc_never_twice_example :
    GoodAnswer (record { mem = blank; pool = new_pool 16; live = []; blocks = [] }) 1000
malloc_never_twice_example =
    malloc_never_twice {requested_size = 16} 1000 (start blank) (λ e h. new_pool-IsFresh)

free-Inv_example :
    (mem' : Memory) × (p' : Pool) × (free small_memory small_pool 48 ≡ some (mem', p'))
    × Inv mem' p' (48 ∷ 16 ∷ []) [] (8 ∷ [])
    × ((ptr : Ptr) → malloc mem' p' ptr ≡ some (48, mem', small_pool))
free-Inv_example = free-Inv small_pool-Inv 48 (omega arith)

purge_memory_lem_example : purge_memory 2 small_memory small_pool ≡ some (8 ∷ [], purged small_pool)
purge_memory_lem_example = purge_memory_lem 2 small_pool-Inv (omega arith)

-- The same block, with the chunk at 32 as the tail and nothing before it.
abbrev empty_pool : Pool
empty_pool = record {
  storage = record { head_ = 32; tail_ = 32 };
  next_size_ = 64;
  alloc_size_ = 16;
  first_ = 8;
}

empty_pool-Inv : Inv blank empty_pool [] (48 ∷ []) (8 ∷ [])
empty_pool-Inv = record {
  holds = record { linked = refl; distinct = λ a. ground arith; nonnull = refl };
  headers = (refl, refl);
  room = omega arith;
  several = omega arith;
}

empty_pool-IsFresh : IsFresh empty_pool (32 ∷ 48 ∷ []) (8 ∷ []) 1000
empty_pool-IsFresh = record {
  nonnull = omega arith;
  in_space = omega arith;
  unused = λ a lo hi. ground arith;
}
