-- ===== src/Lock.antt =====
-- core/lock/Spinlock.h and Spinlock.cpp: the reader-writer spinlock, one shared access at a time.
-- A thread that uses the lock stands at one of the points of `Pc`. `lock_` and `reader_` are atomic
-- and each step makes one access to them, so every interleaving is a sequence of such steps.
-- `ExclusiveLockHolder` and `SharedLockHolder` make a thread pair each `Lock` with `Unlock` and
-- each `ReadLock` with `ReadUnlock`: so `step` lets no thread unlock what it does not hold.
pub mod Invariant
pub mod Exclusion
pub mod Race
pub mod Sections
mod Examples
use server_core.Common.{
  ℕ, ◌+◌, ◌-◌, ◌%◌, ◌^◌, ◌≡◌, ◌==◌, if◌then◌else◌, List, [], ◌∷◌, Option, none, some, get_elem?,
  set, replicate,
}

-- The two atomic fields; `long` is 32 bits wide, and a negative value is its bit pattern.
pub record Spinlock : Type 0 where
  pub lock_ : ℕ
  pub reader_ : ℕ

-- The constructor.
abbrev pub new_spinlock : Spinlock
new_spinlock = record { lock_ = 0; reader_ = 0 }

pub data Pc : Type 0 where
  idle : Pc  -- outside the lock
  locking : Pc  -- head of the loop of `Lock`
  draining : Pc  -- the `while` on `reader_` in `Lock`
  writing : Pc  -- `Lock` has returned
  read_locking : Pc  -- head of the loop of `ReadLock`
  tested : Pc  -- `ReadLock` has seen `lock_` at 0, and not yet counted itself
  reading : Pc  -- `ReadLock` has returned

-- `lock_.exchange(1) == 0` writes 1 whether or not it wins; a loser sleeps and tries again.
pub exchange_lock : Spinlock → Spinlock × Pc
exchange_lock s = (record s { lock_ = 1 }, if s.lock_ == 0 then draining else locking)

-- `while (reader_.load() != 0) {}`
pub drain_readers : Spinlock → Spinlock × Pc
drain_readers s = (s, if s.reader_ == 0 then writing else draining)

-- `Unlock`
pub unlock : Spinlock → Spinlock × Pc
unlock s = (record s { lock_ = 0 }, idle)

-- `if (!lock_)` of `ReadLock`
pub test_lock : Spinlock → Spinlock × Pc
test_lock s = (s, if s.lock_ == 0 then tested else read_locking)

-- `++reader_` of `ReadLock`
pub count_reader : Spinlock → Spinlock × Pc
count_reader s = (record s { reader_ = (s.reader_ + 1) % 2 ^ 32 }, reading)

-- `ReadUnlock`
pub read_unlock : Spinlock → Spinlock × Pc
read_unlock s = (record s { reader_ = (s.reader_ + 2 ^ 32 - 1) % 2 ^ 32 }, idle)

-- What a thread outside the lock asks for.
pub data Call : Type 0 where
  lock_call read_lock_call : Call

abbrev pub first_pc : Call → Pc
first_pc lock_call = locking
first_pc read_lock_call = read_locking

-- The next access of a thread that stands at the given point.
pub step : Call → Spinlock → Pc → Spinlock × Pc
unfolding exchange_lock drain_readers unlock test_lock count_reader read_unlock
step c s idle = (s, first_pc c)
step c s locking = exchange_lock s
step c s draining = drain_readers s
step c s writing = unlock s
step c s read_locking = test_lock s
step c s tested = count_reader s
step c s reading = read_unlock s

-- The lock and the threads that use it.
pub record System : Type 0 where
  pub mem : Spinlock
  pub threads : List Pc

abbrev pub init : ℕ → System
init n = record { mem = new_spinlock; threads = replicate n idle }

-- One access of thread `i`, which is at `p`; the scheduler and the callers choose `i` and `c`.
abbrev pub move : System → ℕ → Call → Pc → System
move s i c p = record { mem = (step c s.mem p).0; threads = set s.threads i (step c s.mem p).1 }

pub data Step (s : System) : System → Type 0 where
  pick : (i : ℕ) (c : Call) (p : Pc) → get_elem? s.threads i ≡ some p → Step s (move s i c p)

pub data Reach (n : ℕ) : System → Type 0 where
  start : Reach n (init n)
  later : {s t : System} → Reach n s → Step s t → Reach n t

-- One entry of a schedule; a thread that is not there makes no step.
pub turn : System → ℕ × Call → System
unfolding step
turn s (i, c) = elim (get_elem? s.threads i) [ none ↦ s | some p ↦ move s i c p ]

pub run : System → List (ℕ × Call) → System
unfolding turn
run s [] = s
run s (ic ∷ ics) = run (turn s ic) ics

-- Who is where: past the exchange of `Lock`; counted in `reader_`; on the way in as a reader.
abbrev pub holds : Pc → ℕ
holds draining = 1
holds writing = 1
holds _ = 0

abbrev pub reads : Pc → ℕ
reads reading = 1
reads _ = 0

abbrev pub admitted : Pc → ℕ
admitted tested = 1
admitted reading = 1
admitted _ = 0
