-- ===== src/ThreadPool/Order.antt =====
-- Tasks are started in the order in which they were enqueued, and each of them once.
use server_core.Common.{
  ℕ, ◌+◌, ◌<◌, ◌≡◌, refl, ap, sym, ◌∙◌, true, List, [], ◌∷◌, ◌++◌, some, get_elem?, count,
  count-append, append_assoc, arith, ltb, Bool-cases, inl, inr,
}
use server_core.Common.Tally.{tally, tally-set, tally-replicate}
use server_core.ThreadPool.{
  ThreadPool, Worker, looping, running, returned, enqueue, take_task, work, stop_pool, System, init,
  task_of, worked, works, Step, worker, enqueued, stopped, Reach, start, later,
}

-- How many workers are at task `a`; how many have returned.
abbrev pub at_task : ℕ → Worker → ℕ
at_task a w = count a (task_of w)

abbrev pub left : Worker → ℕ
left returned = 1
left _ = 0

pub record Inv (s : System) : Type 0 where
  pub fifo : s.started ++ s.pool.tasks_ ≡ s.accepted
  pub once : (a : ℕ) → count a s.finished + tally (at_task a) s.workers ≡ count a s.started
  pub done : 0 < tally left s.workers → (s.pool.stop ≡ true) × (s.pool.tasks_ ≡ [])

work-fifo : (p : ThreadPool) (w : Worker) → task_of (work p w).0 ++ (work p w).1.tasks_ ≡ p.tasks_
unfolding work take_task
work-fifo p looping = ground arith
work-fifo p (running t) = refl
work-fifo p returned = refl

work-left :
    (p : ThreadPool) (w : Worker)
    → ((work p w).1.stop ≡ p.stop)
      × (p.tasks_ ≡ [] → (work p w).1.tasks_ ≡ [])
      × (left (work p w).0 ≡ 1 → left w ≡ 0 → (p.stop ≡ true) × (p.tasks_ ≡ []))
unfolding work take_task
work-left p looping = ground arith
work-left p (running t) = ground arith
work-left p returned = ground arith

worked-Inv :
    {s : System} (i : ℕ) (w : Worker) → get_elem? s.workers i ≡ some w → Inv s → Inv (worked s i w)
worked-Inv {s} i w e inv =
    let (w', p) = work s.pool w in
    let (same, stays, leaves) = work-left s.pool w in
    let moved = tally-set left s.workers i w w' e in
    record {
      fifo =
          append_assoc s.started (task_of w') p.tasks_
          ∙ ap (◌++◌ s.started) (work-fifo s.pool w)
          ∙ inv.fifo;
      once = λ a. omega (
        arith,
        inv.once a,
        count-append a s.finished (task_of w),
        count-append a s.started (task_of w'),
        tally-set (at_task a) s.workers i w w' e,
      );
      done = λ h. elim (Bool-cases (ltb 0 (tally left s.workers))) [
        | inl before ↦
            let (halted, none_left) = inv.done (ground (arith, before)) in
            (same ∙ halted, stays none_left)
        | inr first ↦
            let (halted, none_left) =
              leaves (ground (arith, first, moved, h)) (ground (arith, first, moved, h)) in
            (same ∙ halted, stays none_left)
      ];
    }

enqueued-Inv :
    {s : System} (t : ℕ) (p : ThreadPool)
    → enqueue s.pool t ≡ some p
    → Inv s
    → Inv (record s { pool = p; accepted = s.accepted ++ (t ∷ []) })
unfolding enqueue
enqueued-Inv {s} t p e inv =
    let grown : p.tasks_ ≡ s.pool.tasks_ ++ (t ∷ []) = ground arith in
    record {
      fifo = rw grown (
          sym (append_assoc s.started s.pool.tasks_ (t ∷ []))
          ∙ ap (λ (xs : List ℕ). xs ++ (t ∷ [])) inv.fifo);
      once = inv.once;
      done = λ h. absurd (ground (arith, e, inv.done h));
    }

init-Inv : (n : ℕ) → Inv (init n)
init-Inv n = record {
  fifo = refl;
  once = λ a. omega (arith, tally-replicate (at_task a) n looping refl);
  done = λ h. absurd (omega (arith, tally-replicate left n looping refl));
}

pub Step-Inv : {s t : System} → Step s t → Inv s → Inv t
unfolding stop_pool
Step-Inv (worker (works i w e ne)) inv = worked-Inv i w e inv
Step-Inv (enqueued t p e) inv = enqueued-Inv t p e inv
Step-Inv stopped inv = record {
  fifo = inv.fifo;
  once = inv.once;
  done = λ h. (refl, (inv.done h).1);
}

pub Reach-Inv : {n : ℕ} {s : System} → Reach n s → Inv s
Reach-Inv {n} start = init-Inv n
Reach-Inv (later r st) = Step-Inv st (Reach-Inv r)
