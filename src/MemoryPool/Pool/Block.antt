-- ===== src/MemoryPool/Pool/Block.antt =====
-- A block from `::malloc`, cut into the chunks of an empty pool.
use server_core.Common.{
  ℕ, suc, ◌+◌, ◌-◌, ◌*◌, ◌%◌, ◌^◌, ◌≤◌, ◌<◌, ◌≡◌, ap, List, [], ◌++◌, arith, ◌==◌, if◌then◌else◌,
}
use server_core.MemoryPool.Memory.{Ptr, Memory, count, count-append}
use server_core.MemoryPool.Storage.{Storage}
use server_core.MemoryPool.Storage.AddBlock.{IsRoom, AddsBlock, add_block_lem}
use server_core.MemoryPool.Pool.{Pool, pointer_size, total_size}
use server_core.MemoryPool.Pool.Invariant.{Inv, IsFresh}

pub mul_mono : (a b c : ℕ) → b ≤ c → a * b ≤ a * c
mul_mono a b c h = grind arith

-- The first chunk of a block.
abbrev pub base : Ptr → Ptr
base ptr = ptr + pointer_size

-- The pool after a new block has come in, before its first chunk is handed out.
abbrev pub grown : Pool → Ptr → Storage → Pool
grown p ptr s = record p { storage = s; first_ = ptr; next_size_ = p.next_size_ * 2 % 2 ^ 64 }

module _ {mem : Memory} {p : Pool} {live blocks : List Ptr} (ptr m : ℕ)
    (inv : Inv mem p [] live blocks) (fresh : IsFresh p live blocks ptr)
    (size : p.next_size_ ≡ suc (suc m)) where
  pub unused-count :
      (a : Ptr)
      → ptr ≤ a
      → a < ptr + pointer_size + p.next_size_ * p.alloc_size_
      → (if a == p.storage.tail_ then 1 else 0) + count a (live ++ blocks) ≡ 0
  unused-count a lo hi = ground (arith, fresh.unused a, count-append a live blocks)

  pub total-exact : total_size p ≡ suc (suc m) * p.alloc_size_
  total-exact = omega (arith, fresh.in_space, ap (λ (k : ℕ). k * p.alloc_size_) size)

  pub block-IsRoom : IsRoom p.storage.tail_ (live ++ blocks) (base ptr) p.alloc_size_ (suc (suc m))
  block-IsRoom = record {
    some_chunks = omega arith;
    some_bytes = omega (arith, inv.room);
    nonnull = omega arith;
    in_space = omega (arith, fresh.in_space, ap (λ (k : ℕ). k * p.alloc_size_) size);
    unused = λ a lo hi.
        unused-count a (omega arith) (omega (arith, ap (λ (k : ℕ). k * p.alloc_size_) size));
  }

  pub added : AddsBlock mem p.storage (live ++ blocks) (base ptr) p.alloc_size_ (suc (suc m))
  added = add_block_lem inv.holds block-IsRoom

  pub doubled : p.next_size_ * 2 % 2 ^ 64 ≡ p.next_size_ * 2
  doubled = omega (arith, fresh.in_space, mul_mono p.next_size_ pointer_size p.alloc_size_ inv.room)

  pub last-above : base ptr < base ptr + (suc (suc m) - 1) * p.alloc_size_
  last-above = let e : suc (suc m) - 1 ≡ suc m = omega arith in rw e (omega (arith, inv.room))
