-- ===== src/ThreadPool.antt =====
-- core/thread_manager/ThreadPool.h and ThreadPool.cpp. A task is known by a number: what it computes
-- is the caller's, and `std::packaged_task` keeps what it throws from the worker. The three critical
-- sections are under `spinlock_`, so each is one step; a worker that holds a task runs it outside.
pub mod Order
pub mod Shutdown
mod Examples
use server_core.Common.{
  ◌≢◌, ℕ, suc, ◌+◌, ◌≡◌, ◌==◌, if◌then◌else◌, Bool, true, false, List, [], ◌∷◌, ◌++◌, Option, none,
  some, get_elem?, set, replicate,
}

pub record ThreadPool : Type 0 where
  pub tasks_ : List ℕ
  pub stop : Bool

-- Where a worker of the constructor's loop stands.
pub data Worker : Type 0 where
  looping : Worker  -- at the head of the loop
  running : ℕ → Worker  -- `task()` is being called
  returned : Worker  -- the function has returned, and `join` can

-- The locked part of `Enqueue`; `none` is the exception "enqueue on stopped ThreadPool".
unfoldable pub enqueue : ThreadPool → ℕ → Option ThreadPool
enqueue p t = if p.stop then none else some (record p { tasks_ = p.tasks_ ++ (t ∷ []) })

-- The locked part of the worker's loop, and where it leads.
unfoldable pub take_task : ThreadPool → Worker × ThreadPool
take_task p = elim p.tasks_ [
  | [] ↦ (if p.stop then returned else looping, p)
  | t ∷ ts ↦ (running t, record p { tasks_ = ts })
]

-- The next step of a worker.
unfoldable pub work : ThreadPool → Worker → Worker × ThreadPool
unfolding take_task
work p looping = take_task p
work p (running t) = (looping, p)
work p returned = (returned, p)

-- The locked part of the destructor.
unfoldable pub stop_pool : ThreadPool → ThreadPool
stop_pool p = record p { stop = true }

-- The pool with its workers. `accepted` lists the tasks that `Enqueue` has taken, and `started`
-- those that a worker has taken, each in that order; `finished` those that have been run.
pub record System : Type 0 where
  pub pool : ThreadPool
  pub workers : List Worker
  pub accepted : List ℕ
  pub started : List ℕ
  pub finished : List ℕ

-- The constructor.
abbrev pub init : ℕ → System
init thread_amount = record {
  pool = record { tasks_ = []; stop = false };
  workers = replicate thread_amount looping;
  accepted = [];
  started = [];
  finished = [];
}

abbrev pub task_of : Worker → List ℕ
task_of (running t) = t ∷ []
task_of _ = []

-- A step of a worker from `w` to `w'`: the task that it takes up is started, the one that it leaves
-- is finished.
abbrev pub worked : System → ℕ → Worker → System
worked s i w =
    let (w', p) = work s.pool w in
    record s {
      pool = p;
      workers = set s.workers i w';
      started = s.started ++ task_of w';
      finished = s.finished ++ task_of w;
    }

pub data WorkerStep (s : System) : System → Type 0 where
  works :
      (i : ℕ) (w : Worker)
      → get_elem? s.workers i ≡ some w
      → w ≢ returned
      → WorkerStep s (worked s i w)

pub data Step (s : System) : System → Type 0 where
  worker : {t : System} → WorkerStep s t → Step s t
  enqueued :
      (t : ℕ) (p : ThreadPool)
      → enqueue s.pool t ≡ some p
      → Step s (record s { pool = p; accepted = s.accepted ++ (t ∷ []) })
  stopped : Step s (record s { pool = stop_pool s.pool })

pub data Reach (n : ℕ) : System → Type 0 where
  start : Reach n (init n)
  later : {s t : System} → Reach n s → Step s t → Reach n t

-- Every worker has returned, so the destructor has joined them all.
abbrev pub AllReturned : List Worker → Type 0
AllReturned [] = Unit {0}
AllReturned (w ∷ ws) = (w ≡ returned) × AllReturned ws

-- Steps of workers alone, counted.
pub data Works (s : System) : ℕ → System → Type 0 where
  none_yet : Works s 0 s
  one_more : {n : ℕ} {t u : System} → Works s n t → WorkerStep t u → Works s (suc n) u
