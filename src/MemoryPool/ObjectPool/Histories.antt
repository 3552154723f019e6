-- ===== src/MemoryPool/ObjectPool/Histories.antt =====
-- What threads may do with an object pool: take chunks, give back chunks that they or other threads
-- took, and write into the chunks that they hold. Each call is one step: the owner's calls are not
-- under the lock of the tail.
use server_core.Common.{
  ℕ, ◌+◌, ◌*◌, ◌^◌, ◌<◌, ◌≤◌, ◌≡◌, true, false, List, [], ◌∷◌, some, ◌==◌, count,
}
use server_core.MemoryPool.Memory.{Ptr, null, Memory, Links, erase}
use server_core.MemoryPool.Storage.{empty}
use server_core.MemoryPool.Pool.{pointer_size}
use server_core.MemoryPool.ObjectPool.{ObjectPool, new_object_pool, object_pool, malloc, free}

-- `held` are the chunks that threads hold.
pub record State : Type 0 where
  pub objects : ObjectPool
  pub held : List Ptr

-- What a block from `::malloc` must satisfy for pool `id`: it does not wrap round the address
-- space, and no chunk that is held, no tail, free list or list of blocks of a pool has an address
-- in it.
pub record IsFreshBlock (s : ObjectPool) (held : List Ptr) (id : ℕ) (ptr : Ptr) : Type 0 where
  pub nonnull : 0 < ptr
  pub in_space : ptr + pointer_size + (s.pools id).next_size_ * (s.pools id).alloc_size_ < 2 ^ 64
  pub unused :
      (a : Ptr)
      → ptr ≤ a
      → a < ptr + pointer_size + (s.pools id).next_size_ * (s.pools id).alloc_size_
      → (count a held ≡ 0)
        × ((i : ℕ)
            → ((a == (s.pools i).storage.tail_) ≡ false)
              × ((xs : List Ptr)
                  → Links s.mem (s.pools i).storage.head_ xs (s.pools i).storage.tail_
                  → count a xs ≡ 0)
              × ((bs : List Ptr) → Links s.mem (s.pools i).first_ bs null → count a bs ≡ 0))

-- If the pool that thread `t` asks is empty and `::malloc` answers with a block, that is fresh.
abbrev pub Answers : State → (t : ℕ) → Ptr → Type 0
Answers s t ptr =
    (id : ℕ) (found : ObjectPool)
    → object_pool s.objects t ≡ some (id, found)
    → empty (found.pools id).storage ≡ true
    → 0 < ptr
    → IsFreshBlock found s.held id ptr

pub data Step (s : State) : State → Type 0 where
  takes :
      (t : ℕ) (ptr c : Ptr) (objects : ObjectPool)
      → Answers s t ptr
      → malloc s.objects t ptr ≡ some (c, objects)
      → Step s (record { objects = objects; held = c ∷ s.held })
  gives :
      (t : ℕ) (c : Ptr) (objects : ObjectPool)
      → 0 < count c s.held
      → free s.objects t c ≡ some objects
      → Step s (record { objects = objects; held = erase c s.held })
  -- A short that overlaps the pointer of its chunk shares bytes with it: in use, the pointer is
  -- free to change, and else the short is.
  writes :
      (mem : Memory) (owner : Ptr → ℕ)
      → ((a : Ptr) → count a s.held ≡ 0 → mem a ≡ s.objects.mem a)
      → ((a : Ptr) → 0 < count a s.held → owner a ≡ s.objects.owner a)
      → Step s (record s { objects = record (s.objects) { mem = mem; owner = owner } })

pub data Reach (requested_size : ℕ) : State → Type 0 where
  start :
      (mem : Memory) (owner : Ptr → ℕ)
      → Reach requested_size
          (record { objects = new_object_pool requested_size mem owner; held = [] })
  later : {s t : State} → Reach requested_size s → Step s t → Reach requested_size t
