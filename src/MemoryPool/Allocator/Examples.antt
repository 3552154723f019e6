-- ===== src/MemoryPool/Allocator/Examples.antt =====
-- The theorem on allocators, at the node of a list of one-byte values, and tests.
use server_core.Common.{◌<◌, ◌≤◌, ◌≡◌, ◌≢◌, ◌↔◌, ◌+◌, refl, true, false, some, none, arith}
use server_core.MemoryPool.Memory.{Ptr, null, Memory}
use server_core.MemoryPool.Allocator.{
  FastPoolAllocator, new_allocator, rebound, max_size, allocate, deallocate,
}
use server_core.MemoryPool.Allocator.Rebind.{chunk_size, rebound-chunks}

abbrev blank : Memory
blank = λ a. 0

rebound-chunks_example :
    (c c' : Ptr) × (mem' : Memory) × (a₁ a₂ : FastPoolAllocator) × (allocate true blank
        (rebound 24 1 (new_allocator 1))
        1
        1000
      ≡ some (c, mem', a₁))
    × (allocate true mem' a₁ 1 0 ≡ some (c', mem', a₂))
    × (c ≢ null)
    × (c < c')
    × ((c + 24 ≤ c') ↔ (24 ≤ chunk_size 1))
rebound-chunks_example =
    rebound-chunks true blank 24 1 (new_allocator 1) 1000 0 (omega arith, omega arith)

-- More than one object at a time: null, or a failed assert.
several : allocate false blank (new_allocator 24) 2 1000 ≡ some (null, blank, new_allocator 24)
unfolding allocate
several = refl

several_with_asserts : allocate true blank (new_allocator 24) 2 1000 ≡ none
unfolding allocate
several_with_asserts = refl

ignored : deallocate false blank (new_allocator 24) 1008 2 ≡ some (blank, new_allocator 24)
unfolding deallocate
ignored = refl

largest : max_size 24 ≡ 768614336404564650
unfolding max_size
largest = refl
