-- ===== src/MemoryPool/ObjectPool/Threads.antt =====
-- `Malloc` and `Free` of any thread, in every history.
use mathlib.Core.Option.{some-injective}
use server_core.Common.{
  ℕ, ◌<◌, ◌≡◌, ◌≢◌, inl, inr, refl, ap, sym, ◌∙◌, subst, ◌∷◌, Option, none, some, ◌>>=◌, ◌==◌,
  if◌then◌else◌, arith, count,
}
use server_core.MemoryPool.Memory.{Ptr, null, erase}
use server_core.MemoryPool.ObjectPool.{ObjectPool, max_thread_num, malloc, free}
use server_core.MemoryPool.ObjectPool.Shares.{Share, nothing}
use server_core.MemoryPool.ObjectPool.Ownership.{Inv, new-Inv, object_pool-cases}
use server_core.MemoryPool.ObjectPool.Ownership.Writes.{written-Inv}
use server_core.MemoryPool.ObjectPool.Histories.{
  State, Answers, Step, takes, gives, writes, Reach, start, later,
}
use server_core.MemoryPool.ObjectPool.Calls.{malloc_from-cases, free_into-gives}

-- What a call of `Malloc` comes to.
pub data Taken (s : State) (t : ℕ) (ptr : Ptr) : Type 0 where
  takes_one :
      (c : Ptr) (objects : ObjectPool)
      → malloc s.objects t ptr ≡ some (c, objects)
      → c ≢ null
      → count c s.held ≡ 0
      → objects.thread_id_ t ≡ some (objects.owner c)
      → Taken s t ptr
  no_memory : ptr ≡ null → malloc s.objects t ptr ≡ none → Taken s t ptr
  no_pool :
      s.objects.thread_id_ t ≡ none
      → s.objects.thread_id_counter ≡ max_thread_num
      → malloc s.objects t ptr ≡ none
      → Taken s t ptr

-- A chunk that is handed out is new.
pub taken-new :
    {s : State} {t : ℕ} {ptr c : Ptr} {objects : ObjectPool}
    → Taken s t ptr
    → malloc s.objects t ptr ≡ some (c, objects)
    → (c ≢ null) × (count c s.held ≡ 0)
taken-new {s} (takes_one d objects' e n new _) r =
    subst (λ (x : Ptr × ObjectPool). (x.0 ≢ null) × (count x.0 s.held ≡ 0))
      (some-injective _ _ (sym e ∙ r)) (n, new)
taken-new (no_memory _ e) r = absurd (ground (arith, e, r))
taken-new (no_pool _ _ e) r = absurd (ground (arith, e, r))

abbrev pub HasInv : State → Type 0
HasInv s = (shares : ℕ → Share) × Inv s.objects s.held shares

-- One `Malloc`: what it comes to, and the pools are as they were before.
pub malloc-HasInv :
    (s : State) (t : ℕ) (ptr : Ptr)
    → HasInv s
    → Answers s t ptr
    → Taken s t ptr
      × ((c : Ptr) (objects : ObjectPool)
          → malloc s.objects t ptr ≡ some (c, objects)
          → HasInv (record { objects = objects; held = c ∷ s.held }))
unfolding malloc
malloc-HasInv s t ptr (shares, inv) fresh = elim (object_pool-cases s.objects s.held shares t inv) [
  | inl (unset, full, e) ↦
      let fault : malloc s.objects t ptr ≡ none = rw (malloc, e, ◌>>=◌) refl in
      (no_pool unset full fault, λ c objects r. absurd (ground (arith, fault, r)))
  | inr (id, s₁, shares₁, e, inv₁, pos, le, _, named, _) ↦
      elim (malloc_from-cases s₁ s.held shares₁ inv₁ id ptr pos le (fresh id s₁ e)) [
        | inl (z, failed) ↦
            let fault : malloc s.objects t ptr ≡ none = rw (malloc, e, ◌>>=◌) failed in
            (no_memory z fault, λ c objects r. absurd (ground (arith, fault, r)))
        | inr (c, s₂, shares₂, given, nonnull, owned, names, new, inv₂) ↦
            let result : malloc s.objects t ptr ≡ some (c, s₂) = rw (malloc, e, ◌>>=◌) given in
            (
              takes_one c s₂ result nonnull new
                  (ap (λ (f : ℕ → Option ℕ). f t) names ∙ named ∙ ap some (sym owned)),
              λ d objects r.
                  subst
                    (λ (x : Ptr × ObjectPool).
                      HasInv (record { objects = x.1; held = x.0 ∷ s.held }))
                    (some-injective _ _ (sym result ∙ r)) (shares₂, inv₂),
            )
      ]
]

-- What a call of `Free` with a chunk that is held comes to: the number behind it is that of a pool,
-- which is the thread's own, and has the chunk at its head, or another's, and has it at its tail.
pub data Returned (s : State) (t : ℕ) (c : Ptr) : Type 0 where
  given_back :
      (id : ℕ) (objects : ObjectPool)
      → free s.objects t c ≡ some objects
      → objects.thread_id_ t ≡ some id
      → ((j : ℕ) → s.objects.thread_id_ t ≡ some j → j ≡ id)
      → (if s.objects.owner c == id
          then (objects.pools (s.objects.owner c)).storage.head_ ≡ c
          else (objects.pools (s.objects.owner c)).storage.tail_ ≡ c)
      → Returned s t c
  no_pool_for :
      s.objects.thread_id_ t ≡ none
      → s.objects.thread_id_counter ≡ max_thread_num
      → free s.objects t c ≡ none
      → Returned s t c

pub free-HasInv :
    (s : State) (t : ℕ) (c : Ptr)
    → HasInv s
    → 0 < count c s.held
    → Returned s t c
      × ((objects : ObjectPool)
          → free s.objects t c ≡ some objects
          → HasInv (record { objects = objects; held = erase c s.held }))
unfolding free
free-HasInv s t c (shares, inv) k = elim (object_pool-cases s.objects s.held shares t inv) [
  | inl (unset, full, e) ↦
      let fault : free s.objects t c ≡ none = rw (free, e, ◌>>=◌) refl in
      (no_pool_for unset full fault, λ objects r. absurd (ground (arith, fault, r)))
  | inr (id, s₁, shares₁, e, inv₁, pos, le, owners, named, kept) ↦
      let (s₂, shares₂, given, at, inv₂, names) = free_into-gives s₁ s.held shares₁ inv₁ id c k in
      let result : free s.objects t c ≡ some s₂ = rw (free, e, ◌>>=◌) given in
      (
        given_back id s₂ result (ap (λ (f : ℕ → Option ℕ). f t) names ∙ named) kept (
            subst
              (λ (f : Ptr → ℕ).
                if f c == id
                then (s₂.pools (f c)).storage.head_ ≡ c
                else (s₂.pools (f c)).storage.tail_ ≡ c)
              owners at),
        λ objects r.
            subst (λ (x : ObjectPool). HasInv (record { objects = x; held = erase c s.held }))
              (some-injective _ _ (sym result ∙ r)) (shares₂, inv₂),
      )
]

Step-HasInv : {s s' : State} → HasInv s → Step s s' → HasInv s'
Step-HasInv {s} inv (takes t ptr c objects fresh e) =
    (malloc-HasInv s t ptr inv fresh).1 c objects e
Step-HasInv {s} inv (gives t c objects k e) = (free-HasInv s t c inv k).1 objects e
Step-HasInv {s} (shares, inv) (writes mem owner same tags) =
    (shares, written-Inv s.objects s.held shares mem owner same tags inv)

pub Reach-HasInv : {requested_size : ℕ} {s : State} → Reach requested_size s → HasInv s
Reach-HasInv {requested_size} (start mem owner) = (λ i. nothing, new-Inv requested_size mem owner)
Reach-HasInv (later r step) = Step-HasInv (Reach-HasInv r) step

-- In every state that the threads reach, when each gives back only chunks that are held and writes
-- only into those, and when a block from `::malloc` is fresh for the pools of all threads
-- (`Answers`), `Malloc` of a thread hands out a chunk that is not null and that no thread holds,
-- with the number of the thread's pool behind it; or it faults, because `::malloc` failed, or
-- because the thread has no pool and all 64 have been made.
pub malloc_never_shared :
    (requested_size : ℕ) (s : State) (t : ℕ) (ptr : Ptr)
    → Reach requested_size s
    → Answers s t ptr
    → Taken s t ptr
malloc_never_shared requested_size s t ptr r fresh =
    (malloc-HasInv s t ptr (Reach-HasInv r) fresh).0

-- In every state that the threads reach, `Free` by any thread of a chunk that is held does not
-- fault, unless the thread has no pool and all 64 have been made: the chunk becomes the head of the
-- pool whose number stands behind it if that is the thread's own pool, and else the tail of that
-- pool.
pub free_returns_home :
    (requested_size : ℕ) (s : State) (t : ℕ) (c : Ptr)
    → Reach requested_size s
    → 0 < count c s.held
    → Returned s t c
free_returns_home requested_size s t c r k = (free-HasInv s t c (Reach-HasInv r) k).0
