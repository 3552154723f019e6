-- ===== src/Lock/Sections/Examples.antt =====
-- The theorem on sections, at a list that two threads lengthen.
use server_core.Common.{ℕ, ◌≡◌, ◌≢◌, ◌⊎◌, refl, List, [], ◌∷◌, ◌++◌, some, get_elem?, arith}
use server_core.Lock.{Pc, lock_call, init, move, step}
use server_core.Lock.Sections.{
  run_body, serial, Guarded, assign, accesses, enters, works, Reach, start, later,
}
use server_core.Lock.Sections.Atomic.{sections_are_atomic}

-- Thread 0 is in its section, of two writes.
abbrev two_writes : List (List ℕ → List ℕ)
two_writes = (λ xs. 7 ∷ xs) ∷ (λ xs. 8 ∷ xs) ∷ []

abbrev locked : Guarded (List ℕ)
locked = record {
  locks =
      move (move (move (init 2) 0 lock_call Pc.idle) 0 lock_call Pc.locking) 0 lock_call
        Pc.draining;
  value = [];
  body = assign (λ i. []) 0 two_writes;
  todo = assign (λ i. []) 0 two_writes;
  done = [];
}

locked-Reach : Reach (List ℕ) 2 [] locked
unfolding step
locked-Reach =
    later
      (later
        (later start (accesses 0 lock_call Pc.idle refl (λ e. ground arith) (λ e. ground arith)))
        (accesses 0 lock_call Pc.locking refl (λ e. ground arith) (λ e. ground arith)))
      (enters 0 lock_call Pc.draining two_writes refl (λ e. ground arith) refl)

-- It has made one of them, and thread 1 has asked for the lock.
abbrev halfway : Guarded (List ℕ)
halfway = record locked {
  locks = move locked.locks 1 lock_call Pc.idle;
  value = 7 ∷ [];
  todo = assign (assign (λ i. []) 0 two_writes) 0 ((λ xs. 8 ∷ xs) ∷ []);
}

halfway-Reach : Reach (List ℕ) 2 [] halfway
unfolding step
halfway-Reach =
    later (later locked-Reach (works 0 (λ xs. 7 ∷ xs) ((λ xs. 8 ∷ xs) ∷ []) refl refl))
      (accesses 1 lock_call Pc.idle refl (λ e. ground arith) (λ e. ground arith))

sections_are_atomic_example :
    (((i : ℕ) → get_elem? halfway.locks.threads i ≢ some Pc.writing)
      × (halfway.value ≡ serial [] halfway.done))
    ⊎ ((i : ℕ) × (get_elem? halfway.locks.threads i ≡ some Pc.writing)
        × (run_body halfway.value (halfway.todo i)
            ≡ serial [] (halfway.done ++ halfway.body i ∷ [])))
sections_are_atomic_example = sections_are_atomic (List ℕ) (omega arith) halfway-Reach
