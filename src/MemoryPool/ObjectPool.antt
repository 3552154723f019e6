-- ===== src/MemoryPool/ObjectPool.antt =====
-- core/memory_pool/include/object_pool.hpp: one pool for each thread, made when the thread first
-- asks. Behind each chunk stands the number of the thread that took it, so that another thread
-- gives it back to that thread's pool, at the tail. A template argument `T` is its `RequestedSize`,
-- an `unsigned`: the number is behind the chunk as long as two more do not wrap round.
-- The thread-local `object_pool_` and `thread_id_` are found by the thread. `_aligned_malloc` is
-- taken to succeed; `none` is a fault: one of the pool's, a write through null, a thread number past
-- the array, or the use of a pool whose memory has been freed.
pub mod Shares
pub mod Moves
pub mod Histories
pub mod Ownership
pub mod Calls
pub mod Threads
pub mod Callers
pub mod Contents
pub mod Contract
pub mod Examples
use server_core.Common.{
  ℕ, ◌+◌, ◌-◌, ◌%◌, ◌^◌, ◌≡◌, Bool, true, false, ◌||◌, List, [], ◌∷◌, Option, none, some,
  if◌then◌else◌, ◌==◌, ltb, ◌>>=◌,
}
use server_core.MemoryPool.Memory.{Ptr, null, Memory}
use server_core.MemoryPool.Pool.{Pool, new_pool}
use server_core.MemoryPool.Pool

abbrev pub max_thread_num : ℕ
max_thread_num = 64

-- `owner` is the short behind a chunk; `pools` is `object_pool_array_`, of which the entries up to
-- `thread_id_counter` have been made; `thread_id_` is none for a thread without a pool. `freed` are the
-- pools whose memory the destructor has freed: their use is a fault.
pub record ObjectPool : Type 0 where
  pub requested_size : ℕ
  pub mem : Memory
  pub owner : Ptr → ℕ
  pub pools : ℕ → Pool
  pub thread_id_ : ℕ → Option ℕ
  pub thread_id_counter : ℕ
  pub ref_count_ : ℕ → ℕ
  pub freed : ℕ → Bool

abbrev pub update {ℓ} : {A : Type ℓ} → (ℕ → A) → ℕ → A → ℕ → A
update f i x j = if j == i then x else f j

-- No thread has asked yet.
abbrev pub new_object_pool : (requested_size : ℕ) → Memory → (owner : Ptr → ℕ) → ObjectPool
new_object_pool requested_size mem owner = record {
  requested_size = requested_size;
  mem = mem;
  owner = owner;
  pools = λ i. new_pool ((requested_size + 2) % 2 ^ 32);
  thread_id_ = λ t. none;
  thread_id_counter = 0;
  ref_count_ = λ t. 0;
  freed = λ i. false;
}

-- A pool made for thread `t`, in the array and in the thread.
abbrev pub with_pool : ObjectPool → (t : ℕ) → ObjectPool
with_pool s t =
    let id = s.thread_id_counter + 1 in
    record s {
      pools = update s.pools id (new_pool ((s.requested_size + 2) % 2 ^ 32));
      thread_id_ = update s.thread_id_ t (some id);
      thread_id_counter = id;
      ref_count_ = update s.ref_count_ t ((s.ref_count_ t + 1) % 2 ^ 32);
    }

-- `object_pool`: the number of the thread's pool.
unfoldable pub object_pool : ObjectPool → (t : ℕ) → Option (ℕ × ObjectPool)
object_pool s t = elim (s.thread_id_ t) [
  | some id ↦ some (id, s)
  | none ↦
      if ltb max_thread_num (s.thread_id_counter + 1)
      then none
      else some (s.thread_id_counter + 1, with_pool s t)
]

-- The private `malloc`, of the pool `id`; `ptr` is what `::malloc` would answer.
unfoldable pub malloc_from : ObjectPool → (id : ℕ) → (ptr : Ptr) → Option (Ptr × ObjectPool)
malloc_from s id ptr = elim (if s.freed id then none else Pool.malloc s.mem (s.pools id) ptr) [
  | none ↦ none
  | some (c, mem, p) ↦
      if c == null
      then none
      else some
          (c, record s { mem = mem; pools = update s.pools id p; owner = update s.owner c id })
]

-- `Malloc`
unfoldable pub malloc : ObjectPool → (t : ℕ) → (ptr : Ptr) → Option (Ptr × ObjectPool)
unfolding object_pool malloc_from
malloc s t ptr = do found ← object_pool s t; malloc_from found.1 found.0 ptr

abbrev pub with_memory : ObjectPool → (id : ℕ) → Option (Memory × Pool) → Option ObjectPool
with_memory s id none = none
with_memory s id (some (mem, p)) = some (record s { mem = mem; pools = update s.pools id p })

-- The private `free`, of the pool `id`.
unfoldable pub free_into : ObjectPool → (id : ℕ) → (chunk : Ptr) → Option ObjectPool
free_into s id chunk =
    let thread_id = s.owner chunk in
    if s.freed thread_id
    then none
    else if thread_id == id
    then with_memory s id (Pool.free s.mem (s.pools id) chunk)
    else if thread_id == 0 || ltb s.thread_id_counter thread_id
    then none
    else with_memory s thread_id (Pool.free_append_chunk s.mem (s.pools thread_id) chunk)

-- `Free`
unfoldable pub free : ObjectPool → (t : ℕ) → (chunk : Ptr) → Option ObjectPool
unfolding object_pool free_into
free s t chunk = do found ← object_pool s t; free_into found.1 found.0 chunk

-- The loops of `Preallocate`: one takes as many chunks as `::malloc` is given answers for, the other
-- gives back those that are not null.
unfoldable pub malloc_all :
    ObjectPool → (t : ℕ) → (ptrs : List Ptr) → Option (List Ptr × ObjectPool)
unfolding malloc
malloc_all s t [] = some ([], s)
malloc_all s t (ptr ∷ ptrs) = do
  one ← malloc s t ptr
  rest ← malloc_all one.1 t ptrs
  some (one.0 ∷ rest.0, rest.1)

unfoldable pub free_all :
    ObjectPool → (t : ℕ) → (arr : List Ptr) → (ret : Bool) → Option (Bool × ObjectPool)
unfolding free
free_all s t [] ret = some (ret, s)
free_all s t (c ∷ cs) ret = elim (c == null) [
  | true ↦ free_all s t cs false
  | false ↦ do given ← free s t c; free_all given t cs ret
]

-- `Preallocate`, of as many chunks as `ptrs` has answers. Its array `arr` is taken to be there.
unfoldable pub preallocate : ObjectPool → (t : ℕ) → (ptrs : List Ptr) → Option (Bool × ObjectPool)
unfolding malloc_all free_all
preallocate s t ptrs = do taken ← malloc_all s t ptrs; free_all taken.1 t taken.0 true

-- What a constructor of `T` does at a chunk: whether it returns, and the memory that it leaves.
abbrev pub Init : Type 0
Init = Memory → Ptr → Bool × Memory

-- `Construct`
unfoldable pub construct : ObjectPool → (t : ℕ) → (ptr : Ptr) → Init → Option (Ptr × ObjectPool)
unfolding malloc free
construct s t ptr init = do
  ret ← malloc s t ptr
  let made = init (ret.1.mem) ret.0 in
      let written = record (ret.1) { mem = made.1 } in
      if made.0
      then some (ret.0, written)
      else (do given ← free written t ret.0; some (null, given))

-- `Destroy`; `end` is what the destructor of `T` leaves.
unfoldable pub destroy :
    ObjectPool → (t : ℕ) → (chunk : Ptr) → (Memory → Ptr → Memory) → Option ObjectPool
unfolding free
destroy s t chunk end = free (record s { mem = end s.mem chunk }) t chunk

-- `PurgeMemory`: the blocks that it frees and the pool of the thread without them.
unfoldable pub purge_memory : (fuel : ℕ) → ObjectPool → (t : ℕ) → Option (List Ptr × ObjectPool)
unfolding object_pool
purge_memory fuel s t = do
  found ← object_pool s t
  purged ←
      if found.1.freed found.0
      then none
      else Pool.purge_memory fuel found.1.mem (found.1.pools found.0)
  some (purged.0, record (found.1) { pools = update (found.1.pools) found.0 purged.1 })

-- `~ObjectPool`, called by thread `t`.
unfoldable pub destruct : ObjectPool → (t : ℕ) → ObjectPool
destruct s t = elim (s.thread_id_ t) [
  | none ↦ s
  | some id ↦
      let left = (s.ref_count_ t + 2 ^ 32 - 1) % 2 ^ 32 in
      record s {
        ref_count_ = update s.ref_count_ t left;
        freed = if left == 0 then update s.freed id true else s.freed;
      }
]
