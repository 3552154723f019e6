-- ===== src/MemoryPool/SingletonPool/Examples.antt =====
-- Tests of the pools of two threads.
use server_core.Common.{◌≡◌, refl, List, [], ◌∷◌, Option, none, some, ◌>>=◌}
use server_core.MemoryPool.Memory.{Ptr}
use server_core.MemoryPool.Storage.{empty, add_block, storage_malloc, storage_free}
use server_core.MemoryPool.Pool.{new_pool, free_blocks, purged}
use server_core.MemoryPool.Pool
use server_core.MemoryPool.SingletonPool.{
  SingletonPool, new_singleton_pool, malloc, free, purge_memory,
}

abbrev start : SingletonPool
start = new_singleton_pool 16 (λ a. 0)

abbrev chunk : Option (Ptr × SingletonPool) → Ptr
chunk none = 0
chunk (some (c, s)) = c

-- What thread 1 takes and thread 2 gives back, thread 2 is handed out next.
moved :
    chunk (do taken ← malloc start 1 1000; given ← free taken.1 2 taken.0; malloc given 2 5000)
    ≡ 1008
unfolding malloc free Pool.malloc Pool.free new_pool empty add_block storage_malloc storage_free
moved = refl

abbrev blocks : Option (List Ptr × SingletonPool) → List Ptr
blocks none = []
blocks (some (bs, s)) = bs

-- Thread 1 frees its block, in which that chunk lies.
freed :
    blocks (do taken ← malloc start 1 1000; given ← free taken.1 2 taken.0; purge_memory 2 given 1)
    ≡ 1000 ∷ []
unfolding malloc free purge_memory Pool.malloc Pool.free Pool.purge_memory new_pool empty add_block
    storage_malloc storage_free
freed = refl
