-- ===== src/MemoryPool/ChunkPool.antt =====
-- core/memory_pool/include: what a client relies on in a pool, `Malloc` and `Free` with their laws.
-- `MemoryPool.Pool.Contract` fills it with one pool, `MemoryPool.ObjectPool.Contract` with those of
-- all threads; packets, sessions and clients take it as a parameter.
use server_core.Common.{ℕ, ◌<◌, ◌≡◌, ◌≢◌, List, [], ◌∷◌, Option, some, count}
use server_core.MemoryPool.Memory.{Ptr, null, erase}

-- `Call` is what a call depends on besides the pool: the thread, and the answer of `::malloc`.
-- `Lends s held`: the pool is sound, and `held` are the chunks that its clients have.
pub record ChunkPool : Type 1 where
  pub State : Type 0
  pub Call : Type 0
  pub initial : State → Type 0
  pub malloc : State → Call → Option (Ptr × State)
  pub free : State → Call → (chunk : Ptr) → Option State
  -- The word that stands at a chunk.
  pub content : State → Ptr → ℕ
  pub Lends : State → (held : List Ptr) → Type 0
  -- What the system must answer in a call of `Malloc`, when a call of `Free` is served, and how
  -- clients write into the chunks that they hold.
  pub Answers : State → (held : List Ptr) → Call → Type 0
  pub Serves : State → Call → Type 0
  pub Writes : State → (held : List Ptr) → State → Type 0
  pub initial-Lends : {s : State} → initial s → Lends s []
  pub malloc-Lends :
      {s t : State} {held : List Ptr} {chunk : Ptr} (call : Call)
      → Lends s held
      → Answers s held call
      → malloc s call ≡ some (chunk, t)
      → (chunk ≢ null) × (count chunk held ≡ 0) × Lends t (chunk ∷ held)
  pub free-Lends :
      {s t : State} {held : List Ptr} (call : Call) (chunk : Ptr)
      → Lends s held
      → 0 < count chunk held
      → free s call chunk ≡ some t
      → Lends t (erase chunk held)
  pub free-some :
      {s : State} {held : List Ptr} (call : Call) (chunk : Ptr)
      → Lends s held
      → 0 < count chunk held
      → Serves s call
      → (t : State) × (free s call chunk ≡ some t)
  pub malloc-content :
      {s t : State} {held : List Ptr} {chunk : Ptr} (call : Call) (a : Ptr)
      → Lends s held
      → Answers s held call
      → malloc s call ≡ some (chunk, t)
      → 0 < count a held
      → content t a ≡ content s a
  pub free-content :
      {s t : State} {held : List Ptr} (call : Call) (chunk a : Ptr)
      → Lends s held
      → 0 < count chunk held
      → free s call chunk ≡ some t
      → 0 < count a held
      → 0 < count a (erase chunk held)
      → content t a ≡ content s a
  pub write-Lends : {s t : State} {held : List Ptr} → Lends s held → Writes s held t → Lends t held
