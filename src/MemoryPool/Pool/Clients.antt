-- ===== src/MemoryPool/Pool/Clients.antt =====
-- Histories of a pool whose clients keep to its rules: they give back only chunks that they hold,
-- and write only into those.
use server_core.Common.{
  ℕ, ◌+◌, ◌<◌, ◌≡◌, ◌≢◌, refl, ap, sym, ◌∙◌, subst, true, List, [], ◌∷◌, ◌++◌, Option, some, arith,
  if◌then◌else◌,
}
use mathlib.Core.Option.{some-injective}
use server_core.MemoryPool.Memory.{Ptr, null, Memory, count, count-append, erase, Links-agree}
use server_core.MemoryPool.Storage.{empty}
use server_core.MemoryPool.Pool.{
  pointer_size, Pool, Answer, new_pool, malloc, free, free_append_chunk,
}
use server_core.MemoryPool.Pool.Invariant.{Inv, IsFresh, new_pool-Inv}
use server_core.MemoryPool.Pool.Alloc.{
  Mallocs, reuses, grows, fails, malloc-Inv, free-Inv, free_append_chunk-Inv,
}

-- The memory, the pool, the chunks that clients hold and the blocks from `::malloc`.
pub record State : Type 0 where
  pub mem : Memory
  pub pool : Pool
  pub live : List Ptr
  pub blocks : List Ptr

-- If the pool is empty and `::malloc` answers with a block, the block is fresh.
abbrev pub Answers : State → Ptr → Type 0
Answers s ptr = empty s.pool.storage ≡ true → 0 < ptr → IsFresh s.pool s.live s.blocks ptr

pub data Step (s : State) : State → Type 0 where
  allocate :
      (ptr c : Ptr) (mem' : Memory) (p' : Pool)
      → Answers s ptr
      → malloc s.mem s.pool ptr ≡ some (c, mem', p')
      → c ≢ null
      → Step s (record {
        mem = mem';
        pool = p';
        live = c ∷ s.live;
        blocks = if empty s.pool.storage then ptr ∷ s.blocks else s.blocks;
      })
  release :
      (c : Ptr) (mem' : Memory) (p' : Pool)
      → 0 < count c s.live
      → free s.mem s.pool c ≡ some (mem', p')
      → Step s (record { mem = mem'; pool = p'; live = erase c s.live; blocks = s.blocks })
  release_from_other_thread :
      (c : Ptr) (mem' : Memory) (p' : Pool)
      → 0 < count c s.live
      → s.pool.storage.tail_ ≢ null
      → free_append_chunk s.mem s.pool c ≡ some (mem', p')
      → Step s (record { mem = mem'; pool = p'; live = erase c s.live; blocks = s.blocks })
  write :
      (mem' : Memory)
      → ((a : Ptr) → count a s.live ≡ 0 → mem' a ≡ s.mem a)
      → Step s (record s { mem = mem' })

pub data Reach (requested_size : ℕ) : State → Type 0 where
  start :
      (mem : Memory)
      → Reach requested_size
          (record { mem = mem; pool = new_pool requested_size; live = []; blocks = [] })
  later : {s t : State} → Reach requested_size s → Step s t → Reach requested_size t

abbrev pub HasInv : State → Type 0
HasInv s = (xs : List Ptr) × Inv s.mem s.pool xs s.live s.blocks

-- Two answers of one call are the same.
same_answer :
    {o : Answer} {r r' : Ptr × Memory × Pool} (ys live blocks : List Ptr)
    → o ≡ some r
    → o ≡ some r'
    → Inv r.1 r.2 ys (r.0 ∷ live) blocks
    → Inv (r'.1) (r'.2) ys (r'.0 ∷ live) blocks
same_answer ys live blocks e e' =
    subst (λ r. Inv r.1 r.2 ys (r.0 ∷ live) blocks) (some-injective _ _ (sym e ∙ e'))

pub allocate-HasInv :
    {s : State} {xs : List Ptr} (ptr c : Ptr) (mem' : Memory) (p' : Pool)
    → Mallocs s.mem s.pool ptr xs s.live s.blocks
    → malloc s.mem s.pool ptr ≡ some (c, mem', p')
    → c ≢ null
    → (ys : List Ptr) × Inv mem' p' ys
        (c ∷ s.live)
        (if empty s.pool.storage then ptr ∷ s.blocks else s.blocks)
allocate-HasInv {s} ptr c mem' p' (reuses d ys q e split taken inv next tail) eq h =
    rw e (ys, same_answer ys s.live s.blocks taken eq inv)
allocate-HasInv {s} ptr c mem' p' (grows mem'' ys q e pos taken inv next keeps tail split) eq h =
    rw e (ys, same_answer ys s.live (ptr ∷ s.blocks) taken eq inv)
allocate-HasInv {s} ptr c mem' p' (fails e z taken) eq h =
    absurd (h (sym (ap (λ (r : Ptr × Memory × Pool). r.0) (some-injective _ _ (sym taken ∙ eq)))))

pub write-HasInv :
    {s : State} (mem' : Memory)
    → ((a : Ptr) → count a s.live ≡ 0 → mem' a ≡ s.mem a)
    → HasInv s
    → HasInv (record s { mem = mem' })
write-HasInv {s} mem' same (xs, inv) = (
  xs,
  record {
    holds = record {
      linked =
          Links-agree s.mem mem' s.pool.storage.head_ xs s.pool.storage.tail_ inv.holds.linked
            (λ a c. same a (omega (arith, inv.holds.distinct a, count-append a s.live s.blocks)));
      distinct = inv.holds.distinct;
      nonnull = inv.holds.nonnull;
    };
    headers =
        Links-agree s.mem mem' s.pool.first_ s.blocks null inv.headers
          (λ a c. same a (omega (arith, inv.holds.distinct a, count-append a s.live s.blocks)));
    room = inv.room;
    several = inv.several;
  },
)

same_change :
    {o : Option (Memory × Pool)} {r r' : Memory × Pool} (ys live blocks : List Ptr)
    → o ≡ some r
    → o ≡ some r'
    → Inv r.0 r.1 ys live blocks
    → Inv (r'.0) (r'.1) ys live blocks
same_change ys live blocks e e' =
    subst (λ r. Inv r.0 r.1 ys live blocks) (some-injective _ _ (sym e ∙ e'))

pub Step-HasInv : {s t : State} → Step s t → HasInv s → HasInv t
Step-HasInv (allocate ptr c mem' p' fresh e h) (xs, inv) =
    allocate-HasInv ptr c mem' p' (malloc-Inv inv ptr fresh) e h
Step-HasInv {s} (release c mem' p' h e) (xs, inv) =
    let (_, _, e', inv', _) = free-Inv inv c h in
    (c ∷ xs, same_change _ (erase c s.live) s.blocks e' e inv')
Step-HasInv {s} (release_from_other_thread c mem' p' h t e) (xs, inv) =
    let (_, _, e', inv', _, _) = free_append_chunk-Inv inv c h t in
    (xs ++ s.pool.storage.tail_ ∷ [], same_change _ (erase c s.live) s.blocks e' e inv')
Step-HasInv (write mem' same) inv = write-HasInv mem' same inv

pub Reach-HasInv : {requested_size : ℕ} {s : State} → Reach requested_size s → HasInv s
Reach-HasInv {requested_size} (start mem) = ([], new_pool-Inv mem requested_size)
Reach-HasInv (later r st) = Step-HasInv st (Reach-HasInv r)

-- What an answer of `Malloc` says: null only when `::malloc` failed, and never a chunk or a block
-- that is in use.
abbrev pub GoodAnswer : State → Ptr → Type 0
GoodAnswer s ptr =
    (c : Ptr) × (mem' : Memory) × (p' : Pool) × (malloc s.mem s.pool ptr ≡ some (c, mem', p'))
    × (c ≡ null → ptr ≡ null)
    × (c ≢ null → count c s.live + count c s.blocks ≡ 0)

pub answer-good :
    {s : State} {xs : List Ptr} (ptr : Ptr)
    → Mallocs s.mem s.pool ptr xs s.live s.blocks
    → GoodAnswer s ptr
answer-good {s} ptr (reuses c ys p' e split taken inv next tail) = (
  c,
  s.mem,
  p',
  taken,
  λ z. absurd (ground (arith, inv.holds.nonnull)),
  λ h. ground (arith, inv.holds.distinct c, count-append c s.live s.blocks),
)
answer-good {s} ptr (grows mem' ys p' e pos taken inv next keeps tail split) = (
  ptr + pointer_size,
  mem',
  p',
  taken,
  λ z. omega arith,
  λ h. ground (
    arith,
    inv.holds.distinct (ptr + pointer_size),
    count-append (ptr + pointer_size) s.live s.blocks,
    count-append (ptr + pointer_size) s.live (ptr ∷ s.blocks),
  ),
)
answer-good {s} ptr (fails e z taken) = (null, s.mem, s.pool, taken, λ _. z, λ h. absurd (h refl))

-- In every state that a pool reaches from its constructor, when clients give back only chunks that
-- they hold and write only into those, and when a block from `::malloc` is fresh (`IsFresh`),
-- `Malloc` returns without a fault; it returns null only if `::malloc` failed, and any other answer
-- is neither a chunk that a client holds nor the header of a block.
pub malloc_never_twice :
    {requested_size : ℕ} {s : State} (ptr : Ptr)
    → Reach requested_size s
    → Answers s ptr
    → GoodAnswer s ptr
malloc_never_twice ptr r fresh = answer-good ptr (malloc-Inv (Reach-HasInv r).1 ptr fresh)
