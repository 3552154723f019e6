-- ===== src/MemoryPool/ObjectPool/Examples.antt =====
-- The theorems on object pools, at a pool of which two threads ask, and tests of its operations.
use mathlib.Core.Option.{some-injective}
use server_core.Common.{
  ℕ, ◌≡◌, ◌≢◌, refl, subst, ◌≤◌, Bool-cases, inl, inr, List, [], ◌∷◌, Option, none, some, false,
  ◌==◌, count, arith,
}
use server_core.MemoryPool.Memory.{store, Ptr, null, Memory, Links}
use server_core.MemoryPool.Storage.{empty, add_block, storage_malloc, storage_free, free_append}
use server_core.MemoryPool.Pool.{Pool, new_pool}
use server_core.MemoryPool.Pool
use server_core.MemoryPool.ObjectPool.{
  ObjectPool, new_object_pool, with_pool, object_pool, Init, destruct, malloc_from, malloc,
  free_into, free,
}
use server_core.MemoryPool.ObjectPool.Histories.{
  State, IsFreshBlock, Answers, takes, Reach, start, later,
}
use server_core.MemoryPool.ObjectPool.Threads.{
  Taken, Returned, malloc_never_shared, free_returns_home,
}
use server_core.MemoryPool.ObjectPool.Contents.Calls.{Call, mallocs, held_chunk_kept}
use server_core.MemoryPool.ObjectPool.Callers.{Constructed, construct_cases}

abbrev pub blank : Memory
blank = λ a. 0

abbrev pub made : State
made = record { objects = new_object_pool 14 blank (λ c. 0); held = [] }

-- In blank memory no list leads anywhere.
Links-blank : (xs : List Ptr) (a : Ptr) → Links blank 0 xs 0 → a ≢ 0 → count a xs ≡ 0
Links-blank [] a l n = refl
Links-blank (x ∷ xs) a l n = ground (arith, Links-blank xs a l.1 n, l.0, n)

made-IsFreshBlock : IsFreshBlock (with_pool made.objects 1) [] 1 1000
unfolding new_pool
made-IsFreshBlock = record {
  nonnull = omega arith;
  in_space = omega arith;
  unused = λ a lo hi.
      (refl, λ i. (ground (arith, lo), λ xs l. linked i a xs lo l, λ bs l. listed i a bs lo l));
}
  where
    linked :
        (i a : ℕ) (xs : List Ptr)
        → 1000 ≤ a
        → Links blank
            ((with_pool made.objects 1).pools i).storage.head_
            xs
            ((with_pool made.objects 1).pools i).storage.tail_
        → count a xs ≡ 0
    linked i a xs lo l = elim (Bool-cases (i == 1)) [
      | inl e ↦ Links-blank xs a (rw e at l) (ground (arith, lo))
      | inr e ↦ Links-blank xs a (rw e at l) (ground (arith, lo))
    ]

    listed :
        (i a : ℕ) (xs : List Ptr)
        → 1000 ≤ a
        → Links blank ((with_pool made.objects 1).pools i).first_ xs null
        → count a xs ≡ 0
    listed i a xs lo l = elim (Bool-cases (i == 1)) [
      | inl e ↦ Links-blank xs a (rw e at l) (ground (arith, lo))
      | inr e ↦ Links-blank xs a (rw e at l) (ground (arith, lo))
    ]

pub made-Answers : Answers made 1 1000
unfolding object_pool
made-Answers id found e _ _ =
    subst (λ (x : ℕ × ObjectPool). IsFreshBlock x.1 [] x.0 1000) (some-injective _ _ e)
      made-IsFreshBlock

abbrev pub rest : Option (Ptr × ObjectPool) → ObjectPool
rest none = made.objects
rest (some (c, objects)) = objects

abbrev one_taken : State
one_taken = record { objects = rest (malloc made.objects 1 1000); held = 1008 ∷ [] }

one_taken-Reach : Reach 14 one_taken
unfolding malloc object_pool malloc_from Pool.malloc new_pool empty add_block storage_malloc
one_taken-Reach =
    later (start blank (λ c. 0))
      (takes 1 1000 1008 (rest (malloc made.objects 1 1000)) made-Answers refl)

malloc_never_shared_example : Taken made 1 1000
malloc_never_shared_example = malloc_never_shared 14 made 1 1000 (start blank (λ c. 0)) made-Answers

-- Thread 2 gives back what thread 1 took.
free_returns_home_example : Returned one_taken 2 1008
free_returns_home_example = free_returns_home 14 one_taken 2 1008 one_taken-Reach (omega arith)

-- Thread 1 takes a second chunk.
abbrev two_taken : State
two_taken = record { objects = rest (malloc one_taken.objects 1 0); held = 1024 ∷ 1008 ∷ [] }

takes_second : Call one_taken two_taken
unfolding malloc object_pool malloc_from Pool.malloc new_pool empty add_block storage_malloc
takes_second =
    mallocs 1 0 1024 (rest (malloc one_taken.objects 1 0))
      (λ id found e z pos. absurd (omega (arith, pos))) refl

held_chunk_kept_example :
    (two_taken.objects.mem 1008 ≡ one_taken.objects.mem 1008)
    × (two_taken.objects.owner 1008 ≡ one_taken.objects.owner 1008)
held_chunk_kept_example =
    held_chunk_kept 14 one_taken two_taken 1008 one_taken-Reach takes_second (omega arith)
      (omega arith)

-- A constructor that writes and throws.
abbrev throwing : Init
throwing mem c = (false, store mem c 7)

construct_cases_example : Constructed 14 made 1 1000 throwing
construct_cases_example =
    construct_cases 14 made 1 1000 throwing (start blank (λ c. 0)) made-Answers
      (λ mem c a n. ground (arith, n))

abbrev run : Option (Ptr × ObjectPool) → (t : ℕ) → Option ObjectPool
run none t = none
run (some (c, objects)) t = free objects t c

abbrev ends : Option ObjectPool → ℕ × ℕ × ℕ × ℕ
ends none = (0, 0, 0, 0)
ends (some s) = (
  (s.pools 1).storage.head_,
  (s.pools 1).storage.tail_,
  (s.pools 2).storage.head_,
  s.thread_id_counter,
)

-- Thread 1 takes a chunk: given back by thread 1 it is the head of pool 1, by thread 7 its tail.
own_chunk : ends (run (malloc made.objects 1 1000) 1) ≡ (1008, 2016, 0, 1)
unfolding malloc object_pool malloc_from Pool.malloc new_pool empty add_block storage_malloc free
    free_into Pool.free storage_free
own_chunk = refl

chunk_of_another : ends (run (malloc made.objects 1 1000) 7) ≡ (1024, 1008, 0, 2)
unfolding malloc object_pool malloc_from Pool.malloc new_pool empty add_block storage_malloc free
    free_into Pool.free_append_chunk free_append
chunk_of_another = refl

abbrev run_after_destruct : Option (Ptr × ObjectPool) → (t : ℕ) → Option ObjectPool
run_after_destruct none t = none
run_after_destruct (some (c, objects)) t = free (destruct objects 1) t c

-- When the destructor has run on thread 1, what it took cannot be given back.
destructed : run_after_destruct (malloc made.objects 1 1000) 7 ≡ none
unfolding malloc object_pool malloc_from Pool.malloc new_pool empty add_block storage_malloc free
    free_into destruct
destructed = refl
