-- ===== src/MemoryPool/Allocator.antt =====
-- core/memory_pool/include/allocator.hpp: a standard allocator over a pool of its own. `sizeof_t` is
-- `sizeof(T)` for the `T` of the allocator, and `sizeof_u` that of the allocator that it is made of.
-- `none` is a fault of the pool, or the failed `assert`, if that is compiled in.
pub mod Rebind
mod Examples
use server_core.Common.{
  ℕ, ◌-◌, ◌/◌, ◌^◌, Bool, true, false, Option, none, some, ◌==◌, if◌then◌else◌,
}
use server_core.MemoryPool.Memory.{Ptr, null, Memory}
use server_core.MemoryPool.Pool.{Pool, new_pool}
use server_core.MemoryPool.Pool

pub record FastPoolAllocator : Type 0 where
  pub pool_ : Pool

-- The constructor, and the copy of an allocator for the same type: a pool of its own.
unfoldable pub new_allocator : (sizeof_t : ℕ) → FastPoolAllocator
new_allocator sizeof_t = record { pool_ = new_pool sizeof_t }

unfoldable pub copied : (sizeof_t : ℕ) → FastPoolAllocator → FastPoolAllocator
copied sizeof_t a = record { pool_ = new_pool sizeof_t }

-- The allocator for `T` that is made of one for `U`.
unfoldable pub rebound : (sizeof_t sizeof_u : ℕ) → FastPoolAllocator → FastPoolAllocator
rebound sizeof_t sizeof_u a = record { pool_ = new_pool sizeof_u }

-- `max_size`, of which the division by 0 does not arise: no type has size 0.
unfoldable pub max_size : (sizeof_t : ℕ) → ℕ
max_size sizeof_t = (2 ^ 64 - 1) / sizeof_t

abbrev pub with_pool : Option (Ptr × Memory × Pool) → Option (Ptr × Memory × FastPoolAllocator)
with_pool none = none
with_pool (some (c, mem, p)) = some (c, mem, record { pool_ = p })

-- `asserts` tells whether `assert` is compiled in; `ptr` is what `::malloc` would answer.
unfoldable pub allocate :
    (asserts : Bool)
    → Memory
    → FastPoolAllocator
    → (n : ℕ) → (ptr : Ptr) → Option (Ptr × Memory × FastPoolAllocator)
allocate asserts mem a n ptr =
    if n == 1
    then with_pool (Pool.malloc mem a.pool_ ptr)
    else if asserts
    then none
    else some (null, mem, a)

abbrev pub with_freed : Option (Memory × Pool) → Option (Memory × FastPoolAllocator)
with_freed none = none
with_freed (some (mem, p)) = some (mem, record { pool_ = p })

unfoldable pub deallocate :
    (asserts : Bool)
    → Memory
    → FastPoolAllocator
    → (p : Ptr) → (n : ℕ) → Option (Memory × FastPoolAllocator)
deallocate asserts mem a p n =
    if n == 1 then with_freed (Pool.free mem a.pool_ p) else if asserts then none else some (mem, a)
