-- ===== src/MemoryPool/ObjectPool/Contents/Calls.antt =====
-- A call of a thread leaves every chunk as it is that is held before and after.
use server_core.Common.{
  ℕ, ◌≤◌, ◌<◌, ◌≡◌, ◌≢◌, inl, inr, ap, ◌∙◌, ◌∷◌, some, ◌>>=◌, arith, count, ne-or-eq,
}
use server_core.MemoryPool.Memory.{Ptr, Memory, erase, count-erase}
use server_core.MemoryPool.ObjectPool.{ObjectPool, malloc, free}
use server_core.MemoryPool.ObjectPool.Shares.{used_le}
use server_core.MemoryPool.ObjectPool.Moves.{live_ne_null}
use server_core.MemoryPool.ObjectPool.Ownership.{held-live, live-used, object_pool-cases}
use server_core.MemoryPool.ObjectPool.Histories.{State, Answers, Reach}
use server_core.MemoryPool.ObjectPool.Threads.{HasInv, Reach-HasInv, taken-new, malloc-HasInv}
use server_core.MemoryPool.ObjectPool.Contents.{
  SameAt, object_pool-same, malloc_from-SameAt, free_into-SameAt,
}

pub malloc-SameAt :
    (s : State) (t : ℕ) (ptr c : Ptr) (objects : ObjectPool) (a : Ptr)
    → HasInv s
    → Answers s t ptr
    → malloc s.objects t ptr ≡ some (c, objects)
    → 0 < count a s.held
    → SameAt s.objects objects a
unfolding malloc
malloc-SameAt s t ptr c objects a (shares, inv) fresh e k =
    let new = (taken-new (malloc-HasInv s t ptr (shares, inv) fresh).0 e).1 in
    elim (object_pool-cases s.objects s.held shares t inv) [
      | inl (_, _, fault) ↦ absurd (ground (arith, rw (malloc, fault, ◌>>=◌) at e))
      | inr (id, s₁, shares₁, found, inv₁, _, _, _, _, _) ↦
          let (mem, owner) = object_pool-same s.objects s₁ t id found in
          let (m, o) =
            malloc_from-SameAt s₁ s.held shares₁ inv₁ id ptr a (fresh id s₁ found)
              (rw (malloc, found, ◌>>=◌) at e) new k in
          (m ∙ ap (λ (f : Memory). f a) mem, o ∙ ap (λ (f : Memory). f a) owner)
    ]

free-SameAt :
    (s : State) (t : ℕ) (c : Ptr) (objects : ObjectPool) (a : Ptr)
    → HasInv s
    → free s.objects t c ≡ some objects
    → 0 < count a s.held
    → a ≢ c
    → SameAt s.objects objects a
unfolding free
free-SameAt s t c objects a (shares, inv) e k n =
    elim (object_pool-cases s.objects s.held shares t inv) [
      | inl (_, _, fault) ↦ absurd (ground (arith, rw (free, fault, ◌>>=◌) at e))
      | inr (id, s₁, shares₁, found, inv₁, _, _, _, _, _) ↦
          let (mem, owner) = object_pool-same s.objects s₁ t id found in
          let (m, o) =
            free_into-SameAt s₁ s.held shares₁ inv₁ id c a (rw (free, found, ◌>>=◌) at e) k n in
          (m ∙ ap (λ (f : Memory). f a) mem, o ∙ ap (λ (f : Memory). f a) owner)
    ]

-- A chunk is held once.
held_once : (s : State) (a : Ptr) → HasInv s → count a s.held ≤ 1
held_once s a (shares, inv) = elim (ne-or-eq (count a s.held) 0) [
  | inl none_held ↦ omega (arith, none_held)
  | inr some_held ↦
      let (live, _, _, _) = held-live s.objects s.held shares a inv (omega (arith, some_held)) in
      let i = s.objects.owner a in
      let nonnull = live_ne_null inv.apart i a live in
      omega (
        arith,
        inv.lent a,
        live-used (s.objects.pools i) (shares i) a nonnull,
        used_le s.objects.mem (s.objects.pools i) (shares i) (inv.apart.fits i) a,
      )
]

-- A call of a thread, as in `Histories.Step`.
pub data Call (s : State) : State → Type 0 where
  mallocs :
      (t : ℕ) (ptr c : Ptr) (objects : ObjectPool)
      → Answers s t ptr
      → malloc s.objects t ptr ≡ some (c, objects)
      → Call s (record { objects = objects; held = c ∷ s.held })
  frees :
      (t : ℕ) (c : Ptr) (objects : ObjectPool)
      → 0 < count c s.held
      → free s.objects t c ≡ some objects
      → Call s (record { objects = objects; held = erase c s.held })

pub Call-SameAt :
    {s s' : State} (a : Ptr)
    → HasInv s
    → Call s s'
    → 0 < count a s.held
    → 0 < count a s'.held
    → SameAt s.objects s'.objects a
Call-SameAt {s} a inv (mallocs t ptr c objects fresh e) k k' =
    malloc-SameAt s t ptr c objects a inv fresh e k
Call-SameAt {s} a inv (frees t c objects held e) k k' =
    free-SameAt s t c objects a inv e k
      (λ z. ground (arith, z, k', count-erase a c s.held held, held_once s c inv))

-- In every state that the threads reach, a call of `Malloc` or of `Free` by any thread, where a
-- block from `::malloc` is fresh, leaves the pointer at every chunk that is held before and after
-- the call, and the number behind it, as they were.
pub held_chunk_kept :
    (requested_size : ℕ) (s s' : State) (a : Ptr)
    → Reach requested_size s
    → Call s s'
    → 0 < count a s.held
    → 0 < count a s'.held
    → (s'.objects.mem a ≡ s.objects.mem a) × (s'.objects.owner a ≡ s.objects.owner a)
held_chunk_kept requested_size s s' a r call k k' = Call-SameAt a (Reach-HasInv r) call k k'
