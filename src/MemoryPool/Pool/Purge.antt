-- ===== src/MemoryPool/Pool/Purge.antt =====
-- `PurgeMemory`: what it frees, and the pool that it leaves.
use server_core.Common.{ℕ, zero, suc, ◌<◌, ◌≡◌, ◌≢◌, List, [], ◌∷◌, some, none, arith, length}
use server_core.MemoryPool.Memory.{Ptr, null, Memory, count, count-append, Links}
use server_core.MemoryPool.Storage.{empty, storage_malloc}
use server_core.MemoryPool.Pool.{Pool, malloc, free_blocks, purged, purge_memory}
use server_core.MemoryPool.Pool.Invariant.{Inv}

free_blocks_lem :
    (fuel : ℕ) (mem : Memory) (first : Ptr) (blocks : List Ptr)
    → Links mem first blocks null
    → count null blocks ≡ 0
    → length blocks < fuel
    → free_blocks fuel mem first ≡ some blocks
unfolding free_blocks
free_blocks_lem zero mem first blocks l z f = absurd (omega arith)
free_blocks_lem (suc fuel) mem first [] l z f = ground arith
free_blocks_lem (suc fuel) mem first (b ∷ blocks) l z f =
    ground (arith, free_blocks_lem fuel mem (mem b) blocks l.1)

-- On a pool that satisfies the invariant, the loop of `PurgeMemory` ends, given fuel above the
-- number of blocks, and it frees each block of the pool once, newest first.
pub purge_memory_lem :
    {mem : Memory} {p : Pool} {xs live blocks : List Ptr} (fuel : ℕ)
    → Inv mem p xs live blocks
    → length blocks < fuel
    → purge_memory fuel mem p ≡ some (blocks, purged p)
unfolding purge_memory
purge_memory_lem {mem} {p} {live} {blocks} fuel inv f =
    let none_null : count null blocks ≡ 0 =
      omega (arith, inv.holds.nonnull, count-append null live blocks) in
    rw (purge_memory, free_blocks_lem fuel mem p.first_ blocks inv.headers none_null f)

-- If `PurgeMemory` has ended on a pool whose tail was set, the next `Malloc` reads through the null
-- head, whatever `::malloc` would answer.
pub malloc_after_purge :
    (fuel : ℕ) (mem : Memory) (p : Pool) {p' : Pool} {freed : List Ptr}
    → purge_memory fuel mem p ≡ some (freed, p')
    → p.storage.tail_ ≢ null
    → (mem' : Memory) (ptr : Ptr) → malloc mem' p' ptr ≡ none
unfolding purge_memory malloc empty storage_malloc
malloc_after_purge fuel mem p e t mem' ptr = ground arith
