-- ===== src/Lock/Examples.antt =====
-- The spinlock's theorems at concrete schedules, and tests of its steps.
use server_core.Common.{ℕ, ◌≡◌, ◌≢◌, refl, List, [], ◌∷◌, some, get_elem?, arith}
use server_core.Lock.{Pc, Call, lock_call, read_lock_call, System, Reach, start, init, run}
use server_core.Lock.Exclusion.{
  writers_exclude, no_deadlock, CanMove, none_yet, one_more, writer_section,
}
use server_core.Lock.Race.{run-Reach, writer_meets_reader}

-- Thread 0 is a writer inside; thread 1 has lost the exchange.
abbrev contended : List (ℕ × Call)
contended = (0, lock_call) ∷ (1, lock_call) ∷ (0, lock_call) ∷ (0, lock_call) ∷ (1, lock_call) ∷ []

-- Thread 0 is about to lock, and thread 1 has seen the lock free.
abbrev window : List (ℕ × Call)
window = (0, lock_call) ∷ (1, read_lock_call) ∷ (1, read_lock_call) ∷ []

contended_threads : (run (init 2) contended).threads ≡ Pc.writing ∷ Pc.locking ∷ []
unfolding run
contended_threads = refl

-- Two readers share the lock, and a writer waits for both.
readers_share :
    (run (init 3) (
      (0, read_lock_call)
      ∷ (0, read_lock_call)
      ∷ (0, read_lock_call)
      ∷ (1, read_lock_call)
      ∷ (1, read_lock_call)
      ∷ (1, read_lock_call)
      ∷ (2, lock_call)
      ∷ (2, lock_call)
      ∷ (2, lock_call)
      ∷ [])).threads
    ≡ Pc.reading ∷ Pc.reading ∷ Pc.draining ∷ []
unfolding run
readers_share = refl

writers_exclude_example : ◌≡◌ {A = ℕ} 0 0
unfolding run
writers_exclude_example =
    writers_exclude 0 0 (omega arith) (run-Reach {n = 2} contended start) refl refl refl refl

no_deadlock_example : CanMove (run (init 2) contended)
unfolding run
no_deadlock_example =
    no_deadlock 1 (omega arith) (run-Reach {n = 2} contended start) refl (λ e. ground arith)

writer_section_example :
    (Pc.locking ≢ Pc.reading)
    × ((Pc.locking ≡ Pc.writing) → ◌≡◌ {A = ℕ} 0 1)
    × (get_elem? (run (init 2) contended).threads 0 ≡ some Pc.writing)
unfolding run
writer_section_example =
    writer_section 0 1 (omega arith) (run-Reach {n = 2} contended start) refl refl
      (one_more none_yet 1 lock_call Pc.locking refl (λ e. omega arith)) refl

writer_meets_reader_example :
    (t : System) × Reach 2 t
    × (get_elem? t.threads 0 ≡ some Pc.writing)
    × (get_elem? t.threads 1 ≡ some Pc.reading)
unfolding run
writer_meets_reader_example =
    writer_meets_reader 0 1 lock_call (run-Reach window start) refl refl refl refl
      (λ e. omega arith)
