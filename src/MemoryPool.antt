-- ===== src/MemoryPool.antt =====
-- core/memory_pool/include: the memory pools, from the free list of equal chunks up to the pools of
-- the threads.
pub mod Memory
pub mod Storage
pub mod Pool
pub mod ChunkPool
pub mod ObjectPool
pub mod Allocator
pub mod SingletonPool
