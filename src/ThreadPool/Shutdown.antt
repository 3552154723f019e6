-- ===== src/ThreadPool/Shutdown.antt =====
-- What the destructor waits for comes: after `stop`, the workers end, and no task is left.
use server_core.Common.{
  length-replicate, length-set, ◌≢◌, ◌⊎◌, ℕ, suc, ◌+◌, ◌*◌, ◌≤◌, ◌<◌, ◌≡◌, refl, ap, sym, ◌∙◌, true,
  List, [], ◌∷◌, ◌++◌, some, get_elem?, count, append-nil, length, arith, inl, inr,
}
use server_core.Common.Tally.{tally, tally-set}
use server_core.ThreadPool.{
  ThreadPool, Worker, looping, running, returned, take_task, work, System, worked, WorkerStep,
  works, worker, enqueued, stopped, Reach, start, later, AllReturned, Works, none_yet, one_more,
}
use server_core.ThreadPool.Order.{at_task, left, Reach-Inv}

-- No worker is at a task.
AllReturned-at_task : (ws : List Worker) (a : ℕ) → AllReturned ws → tally (at_task a) ws ≡ 0
AllReturned-at_task [] a h = refl
AllReturned-at_task (w ∷ ws) a (e, h) = ground (arith, e, AllReturned-at_task ws a h)

AllReturned-left : (ws : List Worker) → AllReturned ws → tally left ws ≡ length ws
AllReturned-left [] h = refl
AllReturned-left (w ∷ ws) (e, h) = ground (arith, e, AllReturned-left ws h)

Reach-length : {n : ℕ} {s : System} → Reach n s → length s.workers ≡ n
Reach-length {n} start = length-replicate n looping
Reach-length (later {s} r (worker (works i w e ne))) =
    length-set s.workers i (work s.pool w).0 ∙ Reach-length r
Reach-length (later r (enqueued t p e)) = Reach-length r
Reach-length (later r stopped) = Reach-length r

-- In every reachable state of a pool with a worker where all workers have returned, so that the
-- destructor's joins are over, the tasks were started in exactly the order in which `Enqueue`
-- accepted them, each accepted task was run to its end as often as it was accepted, and the queue
-- is empty.
pub joined_pool_ran_all :
    {n : ℕ} {s : System}
    → 0 < n
    → Reach n s
    → AllReturned s.workers
    → (s.started ≡ s.accepted)
      × ((a : ℕ) → count a s.finished ≡ count a s.accepted)
      × (s.pool.tasks_ ≡ [])
joined_pool_ran_all {n} {s} some_worker r all =
    let inv = Reach-Inv r in
    let (halted, none_left) =
      inv.done (omega (arith, AllReturned-left s.workers all, Reach-length r)) in
    let order : s.started ≡ s.accepted =
      sym (append-nil s.started) ∙ ap (◌++◌ s.started) (sym none_left) ∙ inv.fifo in
    (
      order,
      λ a. omega (arith, inv.once a, AllReturned-at_task s.workers a all, ap (count a) order),
      none_left,
    )

-- A bound on the steps left to do after `stop`.
abbrev pub cost : Worker → ℕ
cost looping = 1
cost (running t) = 2
cost returned = 0

abbrev pub remaining : System → ℕ
remaining s = 2 * length s.pool.tasks_ + tally cost s.workers

work-cost :
    (p : ThreadPool) (w : Worker)
    → p.stop ≡ true
    → w ≢ returned
    → ((work p w).1.stop ≡ true)
      × (2 * length (work p w).1.tasks_ + cost (work p w).0 < 2 * length p.tasks_ + cost w)
unfolding work take_task
work-cost p looping h ne = ground arith
work-cost p (running t) h ne = ground arith
work-cost p returned h ne = absurd (ne refl)

step-remaining :
    {s t : System}
    → s.pool.stop ≡ true
    → WorkerStep s t
    → (t.pool.stop ≡ true) × (remaining t < remaining s)
step-remaining {s} h (works i w e ne) =
    let (halted, less) = work-cost s.pool w h ne in
    (halted, omega (arith, less, tally-set cost s.workers i w (work s.pool w).0 e))

Works-remaining :
    {s : System} {n : ℕ} {t : System}
    → s.pool.stop ≡ true
    → Works s n t
    → (t.pool.stop ≡ true) × (n + remaining t ≤ remaining s)
Works-remaining h none_yet = (h, omega arith)
Works-remaining h (one_more k st) =
    let (halted, before) = Works-remaining h k in
    let (halted', less) = step-remaining halted st in (halted', omega arith)

-- A worker that has not returned, if there is one.
find_active :
    (ws : List Worker)
    → AllReturned ws ⊎ ((i : ℕ) × (w : Worker) × (get_elem? ws i ≡ some w) × (w ≢ returned))
find_active [] = inl tt
find_active (looping ∷ ws) = inr (0, looping, refl, ground arith)
find_active (running t ∷ ws) = inr (0, running t, refl, ground arith)
find_active (returned ∷ ws) = elim (find_active ws) [
  | inl all ↦ inl (refl, all)
  | inr (i, w, e, ne) ↦ inr (suc i, w, e, ne)
]

-- Once `stop` is set, the workers make no more steps than twice the queue's length, plus two for
-- each running worker and one for each other that has not returned; and as long as not all have
-- returned, one of them can step.
pub shutdown_ends :
    {n : ℕ} {s t : System}
    → s.pool.stop ≡ true
    → Works s n t
    → (n + remaining t ≤ remaining s) × (AllReturned t.workers ⊎ ((u : System) × WorkerStep t u))
shutdown_ends {n} {s} {t} h k = (
  (Works-remaining h k).1,
  elim (find_active t.workers) [
    | inl all ↦ inl all
    | inr (i, w, e, ne) ↦ inr (worked t i w, works i w e ne)
  ],
)
