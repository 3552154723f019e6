-- ===== src/Tcp/Server/Start/Invariant.antt =====
-- The loops that wait in the queue stand before all work that was added, and those that were taken up
-- keep their workers.
use mathlib.Core.Option.{some-injective}
use server_core.Common.{
  ℕ, zero, suc, ◌+◌, ◌≤◌, ◌≡◌, ◌≢◌, inl, inr, refl, ap, ◌∙◌, subst, true, false, List, [], ◌∷◌,
  ◌++◌, some, get_elem?, set, replicate, length, length-set, count, count-append, append_assoc,
  Bool-cases, arith, ◌==◌,
}
use server_core.Common.Tally.{tally, tally-set, le-tally}
use server_core.ThreadPool.{
  ThreadPool, Worker, looping, running, returned, enqueue, take_task, work, stop_pool, System,
  task_of, worked,
}
use server_core.Tcp.Server.Start.{loop_task, enqueue_on}
use server_core.Tcp.Server.Start.Histories.{
  Step, works, adds, stops, Serves, begun, later, at_iocp, at_loop, elsewhere,
}

-- Of the `k` loops, those not yet taken up stand first in the queue.
pub record Queued (k : ℕ) (s : System) (m : ℕ) (rest : List ℕ) : Type 0 where
  pub queue : s.pool.tasks_ ≡ replicate m loop_task ++ rest
  pub others : count loop_task rest ≡ 0
  pub sum : tally at_iocp s.workers + m ≡ k

-- Every worker is at its loop or at an `IocpWork`, and nothing else was started.
pub record Taken (n : ℕ) (s : System) : Type 0 where
  pub all : tally at_loop s.workers + tally at_iocp s.workers ≡ n
  pub none_else : tally elsewhere s.workers ≡ 0
  pub only : (a : ℕ) → a ≢ loop_task → count a s.started ≡ 0

pub record Inv (k n : ℕ) (s : System) : Type 0 where
  pub queued : (m : ℕ) × (rest : List ℕ) × Queued k s m rest
  pub taken : n ≤ k → Taken n s
  pub size : length s.workers ≡ n

-- The system after a worker has moved from `w` to `w'`.
abbrev moved : System → ℕ → Worker → Worker → ThreadPool → System
moved s i w w' p = record s {
  pool = p;
  workers = set s.workers i w';
  started = s.started ++ task_of w';
  finished = s.finished ++ task_of w;
}

module _ (k n : ℕ) (s : System) (inv : Inv k n s) where
  takes_iocp :
      (i m : ℕ) (ts rest : List ℕ)
      → get_elem? s.workers i ≡ some looping
      → ts ≡ replicate m loop_task ++ rest
      → count loop_task rest ≡ 0
      → tally at_iocp s.workers + suc m ≡ k
      → Inv k n (moved s i looping (running loop_task) (record (s.pool) { tasks_ = ts }))
  takes_iocp i m ts rest e queue others sum =
      let io = tally-set at_iocp s.workers i looping (running loop_task) e in
      record {
        queued = (m, rest, record { queue = queue; others = others; sum = omega (arith, io, sum) });
        taken = λ le.
            let was = inv.taken le in
            record {
              all =
                  omega (
                    arith,
                    io,
                    was.all,
                    tally-set at_loop s.workers i looping (running loop_task) e,
                  );
              none_else = omega (
                arith,
                was.none_else,
                tally-set elsewhere s.workers i looping (running loop_task) e,
              );
              only = λ a ne.
                  ground (arith, was.only a ne, count-append a s.started (loop_task ∷ []), ne);
            };
        size = length-set s.workers i (running loop_task) ∙ inv.size;
      }

  -- With all loops taken up, added work is taken only if there are workers left.
  takes_other :
      (i : ℕ) (w' : Worker) (p : ThreadPool) (rest : List ℕ)
      → get_elem? s.workers i ≡ some looping
      → p.tasks_ ≡ rest
      → at_iocp w' ≡ 0
      → count loop_task rest ≡ 0
      → tally at_iocp s.workers ≡ k
      → Inv k n (moved s i looping w' p)
  takes_other i w' p rest e queue away others sum =
      let io = tally-set at_iocp s.workers i looping w' e in
      record {
        queued = (
          0,
          rest,
          record { queue = queue; others = others; sum = omega (arith, io, sum, away) },
        );
        taken = λ le.
            absurd
              (omega (arith, (inv.taken le).all, le-tally at_loop s.workers i looping e, sum, le));
        size = length-set s.workers i w' ∙ inv.size;
      }

  ends :
      (i t : ℕ)
      → get_elem? s.workers i ≡ some (running t)
      → running t ≢ running loop_task
      → Inv k n (moved s i (running t) looping s.pool)
  ends i t e ne =
      let differs : t ≢ loop_task = λ z. ne (ap running z) in
      let other : (t == loop_task) ≡ false = ground (arith, differs) in
      let io = tally-set at_iocp s.workers i (running t) looping e in
      let (m, rest, q) = inv.queued in
      record {
        queued = (
          m,
          rest,
          record { queue = q.queue; others = q.others; sum = ground (arith, io, q.sum, differs) },
        );
        taken = λ le. absurd (
            ground (
              arith,
              (inv.taken le).none_else,
              le-tally elsewhere s.workers i (running t) e,
              other,
            ));
        size = length-set s.workers i looping ∙ inv.size;
      }

  worked-Inv :
      (i : ℕ) (w : Worker)
      → get_elem? s.workers i ≡ some w
      → w ≢ returned
      → w ≢ running loop_task
      → Inv k n (worked s i w)
  unfolding work take_task
  worked-Inv i returned e ne ne' = absurd (ne refl)
  worked-Inv i (running t) e ne ne' = ends i t e ne'
  worked-Inv i looping e ne ne' = looped (inv.queued.0) (inv.queued.1) inv.queued.2
    where
      looped : (m : ℕ) (rest : List ℕ) → Queued k s m rest → Inv k n (worked s i looping)
      looped (suc m) rest q =
          rw q.queue (takes_iocp i m (replicate m loop_task ++ rest) rest e refl q.others q.sum)
      looped zero (t ∷ rest) q = rw q.queue (
          takes_other i (running t) (record (s.pool) { tasks_ = rest }) rest e refl
            (ground (arith, q.others)) (ground (arith, q.others)) (omega (arith, q.sum)))
      looped zero [] q = elim (Bool-cases s.pool.stop) [
        | inl halted ↦
            rw (q.queue, halted)
              (takes_other i returned (record { tasks_ = []; stop = true }) [] e refl refl refl
                (omega (arith, q.sum)))
        | inr going ↦
            rw (q.queue, going)
              (takes_other i looping (record { tasks_ = []; stop = false }) [] e refl refl refl
                (omega (arith, q.sum)))
      ]

  adds-Inv : (t : ℕ) (u : System) → t ≢ loop_task → enqueue_on s t ≡ some u → Inv k n u
  unfolding enqueue
  adds-Inv t u ne e =
      let (m, rest, q) = inv.queued in
      elim (Bool-cases s.pool.stop) [
        | inl halted ↦ absurd (ground (arith, rw halted at e))
        | inr going ↦ subst (Inv k n) (some-injective _ _ (rw going at e)) (record {
          queued = (
            m,
            rest ++ t ∷ [],
            record {
              queue =
                  ap (λ (xs : List ℕ). xs ++ t ∷ []) q.queue
                  ∙ append_assoc (replicate m loop_task) rest (t ∷ []);
              others = ground (arith, q.others, count-append loop_task rest (t ∷ []), ne);
              sum = q.sum;
            },
          );
          taken = λ le. record {
            all = (inv.taken le).all;
            none_else = (inv.taken le).none_else;
            only = (inv.taken le).only;
          };
          size = inv.size;
        })
      ]

Step-Inv : {k n : ℕ} {s u : System} → Inv k n s → Step s u → Inv k n u
unfolding stop_pool
Step-Inv {k} {n} {s} inv (works i w e ne ne') = worked-Inv k n s inv i w e ne ne'
Step-Inv {k} {n} {s} inv (adds t u ne e) = adds-Inv k n s inv t u ne e
Step-Inv {k} {n} {s} inv stops =
    let (m, rest, q) = inv.queued in
    record {
      queued = (m, rest, record { queue = q.queue; others = q.others; sum = q.sum });
      taken = λ le. record {
        all = (inv.taken le).all;
        none_else = (inv.taken le).none_else;
        only = (inv.taken le).only;
      };
      size = inv.size;
    }

pub Serves-Inv : {k n : ℕ} {s u : System} → Inv k n s → Serves s u → Inv k n u
Serves-Inv inv begun = inv
Serves-Inv inv (later r step) = Step-Inv (Serves-Inv inv r) step
