-- ===== src/Tcp/Server/Start/Workers.antt =====
-- The workers that `Init` leaves for added work. `IocpWork` loops on `TRUE`, so that a worker that
-- takes it up keeps it, as long as it does not end by an exception.
use mathlib.Core.Option.{some-injective}
use server_core.Common.{
  Bool, not, ◌&&◌, ℕ, zero, suc, ◌≤◌, ◌<◌, ◌≡◌, ◌≢◌, inl, inr, refl, ap, sym, ◌∙◌, subst, false, [],
  ◌++◌, some, none, replicate, length, length-replicate, count, list_laws, Bool-cases, arith, leb,
}
use server_core.Common.Tally.{tally, tally-replicate}
use server_core.ThreadPool.{
  ThreadPool, Worker, looping, running, returned, enqueue, take_task, work, stop_pool, System,
  task_of, worked,
}
use server_core.ThreadPool
use server_core.Tcp.ClientManager.{new_manager}
use server_core.Tcp.Server.{set_packet_header_size}
use server_core.Tcp.Server.Start.{
  Call, init_calls, asserts_hold, start_pool, Starter, loop_task, enqueue_on, enqueue_all, init,
  default_packet_header_size,
}
use server_core.Tcp.Server.Start.Histories.{Serves, at_iocp, at_loop, elsewhere}
use server_core.Tcp.Server.Start.Invariant.{Inv, Serves-Inv}

-- What the loop of `Init` makes of a pool on which no worker has started.
abbrev filled : ℕ → System → System
filled m s = record s {
  pool = record (s.pool) { tasks_ = s.pool.tasks_ ++ replicate m loop_task };
  accepted = s.accepted ++ replicate m loop_task;
}

enqueue_on-filled : (s : System) → s.pool.stop ≡ false → enqueue_on s loop_task ≡ some (filled 1 s)
unfolding enqueue
enqueue_on-filled s going = ground (arith, going)

enqueue_all-filled :
    (m : ℕ) (s : System) → s.pool.stop ≡ false → enqueue_all m s ≡ some (filled m s)
unfolding enqueue_all
enqueue_all-filled zero s going = simp list_laws
enqueue_all-filled (suc m) s going =
    rw (enqueue_all, enqueue_on-filled s going)
      (enqueue_all-filled m (filled 1 s) going ∙ simp list_laws)

filled-Inv : (k n : ℕ) → Inv k n (filled k (ThreadPool.init n))
filled-Inv k n =
    let none_at = tally-replicate at_iocp n looping refl in
    record {
      queued =
          (k, [], record { queue = simp list_laws; others = refl; sum = omega (arith, none_at) });
      taken = λ le. record {
        all = omega (arith, none_at, all_looping n);
        none_else = tally-replicate elsewhere n looping refl;
        only = λ a ne. refl;
      };
      size = length-replicate n looping;
    }
  where
    all_looping : (n : ℕ) → tally at_loop (replicate n looping) ≡ n
    all_looping zero = refl
    all_looping (suc n) = omega (arith, all_looping n)

-- What is left for added work when `Init` has put `k` loops on `n` workers.
pub data Left (k n : ℕ) (u : System) : Type 0 where
  nothing_left : n ≤ k → ((a : ℕ) → a ≢ loop_task → count a u.started ≡ 0) → Left k n u
  some_left : k < n → length u.workers ≡ n → tally at_iocp u.workers ≤ k → Left k n u

abbrev started_with : Starter → Starter
started_with s = record s {
  server =
      set_packet_header_size (record (s.server) { manager = new_manager })
        default_packet_header_size;
  thread_pool_ = some (filled s.iocp_worker_amount_ (ThreadPool.init s.worker_amount_));
}

init-new :
    (asserts : Bool) (succeeds : Call → Bool) (s s' : Starter)
    → s.thread_pool_ ≡ none
    → init asserts succeeds s ≡ some s'
    → started_with s ≡ s'
unfolding init start_pool
init-new asserts succeeds s s' new made =
    elim (Bool-cases (asserts && not (asserts_hold succeeds (init_calls s.listen_port_)))) [
      | inl failed ↦ absurd (ground (arith, rw failed at made))
      | inr held ↦ some-injective _ _ (
          sym (
            rw
              (
                start_pool,
                new,
                enqueue_all-filled s.iocp_worker_amount_ (ThreadPool.init s.worker_amount_) refl,
              )
              refl)
          ∙ rw held at made)
    ]

-- After `Init` has returned on a server that had no thread pool, in every history of the pool in
-- which no `IocpWork` ends: if there are no more workers than `iocp_worker_amount_`, no work that
-- was added is ever started; and if there are more, no more than `iocp_worker_amount_` of the
-- workers are ever at an `IocpWork`.
pub workers-Left :
    (asserts : Bool) (succeeds : Call → Bool) (s s' : Starter) (system u : System)
    → s.thread_pool_ ≡ none
    → init asserts succeeds s ≡ some s'
    → s'.thread_pool_ ≡ some system
    → Serves system u
    → Left s.iocp_worker_amount_ s.worker_amount_ u
workers-Left asserts succeeds s s' system u new made at serves =
    let k = s.iocp_worker_amount_ in
    let n = s.worker_amount_ in
    let same : filled k (ThreadPool.init n) ≡ system =
      some-injective _ _
        (ap (λ (x : Starter). x.thread_pool_) (init-new asserts succeeds s s' new made) ∙ at) in
    let inv = Serves-Inv (subst (Inv k n) same (filled-Inv k n)) serves in
    elim (Bool-cases (leb n k)) [
      | inl le ↦ nothing_left (ground (arith, le)) (inv.taken (ground (arith, le))).only
      | inr gt ↦ some_left (ground (arith, gt)) inv.size (omega (arith, inv.queued.2.sum))
    ]
