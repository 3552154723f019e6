-- ===== src/ThreadPool/Examples.antt =====
-- Two workers and three tasks.
use server_core.Common.{ℕ, ◌+◌, ◌≤◌, ◌≡◌, ◌⊎◌, refl, true, false, [], ◌∷◌, count, arith}
use server_core.ThreadPool.{
  looping, running, enqueue, take_task, work, stop_pool, System, init, worked, WorkerStep, works,
  worker, enqueued, stopped, Reach, start, later, AllReturned, Works, none_yet, one_more,
}
use server_core.ThreadPool.Shutdown.{remaining, joined_pool_ran_all, shutdown_ends}

-- Worker 0 takes task 7, `stop` comes, and then both return.
abbrev with_task : System
with_task = record (init 2) { pool = record { tasks_ = 7 ∷ []; stop = false }; accepted = 7 ∷ [] }

abbrev taken : System
taken = worked with_task 0 looping

abbrev stopping : System
stopping = record taken { pool = stop_pool taken.pool }

abbrev ran : System
ran = worked stopping 0 (running 7)

abbrev one_left : System
one_left = worked ran 1 looping

abbrev all_left : System
all_left = worked one_left 0 looping

with_task-Reach : Reach 2 with_task
unfolding enqueue
with_task-Reach = later start (enqueued 7 with_task.pool refl)

stopping-Reach : Reach 2 stopping
unfolding work
stopping-Reach =
    later (later with_task-Reach (worker (works 0 looping refl (ground arith)))) stopped

shut_down : Works stopping 3 all_left
unfolding work take_task
shut_down =
    one_more
      (one_more (one_more none_yet (works 0 (running 7) refl (ground arith)))
        (works 1 looping refl (ground arith)))
      (works 0 looping refl (ground arith))

all_left-Reach : Reach 2 all_left
unfolding work take_task
all_left-Reach =
    later
      (later (later stopping-Reach (worker (works 0 (running 7) refl (ground arith))))
        (worker (works 1 looping refl (ground arith))))
      (worker (works 0 looping refl (ground arith)))

all_left-AllReturned : AllReturned all_left.workers
unfolding work take_task stop_pool
all_left-AllReturned = (refl, (refl, tt))

joined_pool_ran_all_example :
    (all_left.started ≡ all_left.accepted)
    × ((a : ℕ) → count a all_left.finished ≡ count a all_left.accepted)
    × (all_left.pool.tasks_ ≡ [])
joined_pool_ran_all_example = joined_pool_ran_all (omega arith) all_left-Reach all_left-AllReturned

halted : stopping.pool.stop ≡ true
unfolding stop_pool
halted = refl

shutdown_ends_example :
    (3 + remaining all_left ≤ remaining stopping)
    × (AllReturned all_left.workers ⊎ ((u : System) × WorkerStep all_left u))
shutdown_ends_example = shutdown_ends halted shut_down
