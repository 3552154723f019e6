-- ===== src/MemoryPool/Storage/Laws.antt =====
-- The list that a storage threads through memory, and what the operations make of it.
use server_core.Common.{
  ◌+◌, ◌≤◌, ◌≡◌, ◌≢◌, refl, List, [], ◌∷◌, ◌++◌, some, arith, ◌==◌, if◌then◌else◌, true, false,
}
use server_core.MemoryPool.Memory.{
  Ptr, null, Memory, store, count, count-append, Links, Links-store, Links-cons, Links-append,
  Links-cons,
}
use server_core.MemoryPool.Storage.{Storage, empty, storage_malloc, storage_free, free_append}

-- The storage holds the free chunks `xs`, in order, and then its tail; `live` are the addresses
-- that are in use elsewhere. No address stands twice among all of these.
pub record Holds (mem : Memory) (s : Storage) (xs live : List Ptr) : Type 0 where
  pub linked : Links mem s.head_ xs s.tail_
  pub distinct : (a : Ptr) → (if a == s.tail_ then 1 else 0) + count a xs + count a live ≤ 1
  pub nonnull : count null xs + count null live ≡ 0

module _ {mem : Memory} {s : Storage} where
  -- The chunks in use may be listed in any order.
  pub Holds-reorder :
      {xs live live' : List Ptr}
      → Holds mem s xs live
      → ((a : Ptr) → count a live' ≡ count a live)
      → Holds mem s xs live'
  Holds-reorder h e = record {
    linked = h.linked;
    distinct = λ a. omega (arith, h.distinct a, e a);
    nonnull = omega (arith, h.nonnull, e null);
  }

  -- An empty storage holds no chunk but the one it keeps at its tail.
  pub empty-Holds : (xs live : List Ptr) → Holds mem s xs live → empty s ≡ true → xs ≡ []
  unfolding empty
  empty-Holds [] live h e = refl
  empty-Holds (x ∷ xs) live h e = absurd (ground (arith, h.linked, h.distinct x))

  pub storage_malloc_lem :
      (xs live : List Ptr)
      → Holds mem s xs live
      → empty s ≡ false
      → (c : Ptr) × (ys : List Ptr) × (xs ≡ c ∷ ys)
        × (s.head_ ≡ c)
        × (storage_malloc mem s ≡ some (c, record s { head_ = mem c }))
        × Holds mem (record s { head_ = mem c }) ys (c ∷ live)
  unfolding storage_malloc empty
  storage_malloc_lem [] live h e = absurd (ground (arith, h.linked))
  storage_malloc_lem (c ∷ ys) live h e = (
    c,
    ys,
    refl,
    h.linked.0,
    ground (arith, h.linked, h.nonnull),
    record {
      linked = h.linked.1;
      distinct = λ a. ground (arith, h.distinct a);
      nonnull = ground (arith, h.nonnull);
    },
  )

  pub storage_free_lem :
      (c : Ptr) (xs live : List Ptr)
      → Holds mem s xs (c ∷ live)
      → (storage_free mem s c ≡ some (store mem c s.head_, record s { head_ = c }))
        × Holds (store mem c s.head_) (record s { head_ = c }) (c ∷ xs) live
  unfolding storage_free
  storage_free_lem c xs live h = (
    ground (arith, h.nonnull),
    record {
      linked = Links-cons mem s.head_ xs s.tail_ c h.linked (ground (arith, h.distinct c));
      distinct = λ a. ground (arith, h.distinct a);
      nonnull = ground (arith, h.nonnull);
    },
  )

  pub free_append_lem :
      (c : Ptr) (xs live : List Ptr)
      → Holds mem s xs (c ∷ live)
      → s.tail_ ≢ null
      → (free_append mem s c ≡ some (store mem s.tail_ c, record s { tail_ = c }))
        × Holds (store mem s.tail_ c) (record s { tail_ = c }) (xs ++ s.tail_ ∷ []) live
  unfolding free_append
  free_append_lem c xs live h t = (
    ground arith,
    record {
      linked =
          Links-append (store mem s.tail_ c) s.head_ xs s.tail_ c
            (Links-store mem s.head_ xs s.tail_ s.tail_ c h.linked
              (ground (arith, h.distinct s.tail_)))
            (ground arith);
      distinct = λ a. ground (arith, h.distinct a, count-append a xs (s.tail_ ∷ []));
      nonnull = ground (arith, h.nonnull, count-append null xs (s.tail_ ∷ []));
    },
  )
