-- ===== src/Tcp/Server/Start/Examples.antt =====
-- The theorem on the workers, with the amounts that a server has from its constructor, and tests of
-- the start.
use server_core.Common.{Bool, false, ℕ, ◌≡◌, refl, true, List, [], ◌∷◌, Option, none, some, arith}
use server_core.ThreadPool.{System, looping, running, returned, enqueue, take_task, work, worked}
use server_core.ThreadPool
use server_core.Tcp.Server.System.{new_server}
use server_core.Tcp.Server.Start.{
  Starter, new_starter, set_worker_amount, enqueue_all, Call, bind_port, start_pool, init, add_work,
  get_all_client,
}
use server_core.Tcp.Server.Start.Histories.{begun, later, works}
use server_core.Tcp.Server.Start.Workers.{Left, workers-Left}

abbrev starter : Starter
starter = new_starter (new_server (λ h. true) 4) 0

abbrev started : Starter → Starter
started s = elim (init true (λ c. true) s) [ none ↦ s | some s' ↦ s' ]

abbrev pool_of : Starter → System
pool_of s = elim s.thread_pool_ [ none ↦ ThreadPool.init 0 | some system ↦ system ]

abbrev one_taken : System
one_taken = worked (pool_of (started starter)) 0 looping

workers-Left_example : Left 14 16 one_taken
unfolding init start_pool enqueue_all enqueue work take_task
workers-Left_example =
    workers-Left true (λ c. true) starter (started starter) (pool_of (started starter)) one_taken
      refl refl refl
      (later begun (works 0 looping refl (λ e. ground (arith, e)) (λ e. ground (arith, e))))

-- `Init` sets the header size, whatever was set before it.
header : (started starter).server.packet_header_size_ ≡ 2
unfolding init start_pool enqueue_all enqueue
header = refl

nobody_yet : get_all_client (started starter) ≡ []
unfolding init start_pool enqueue_all enqueue
nobody_yet = refl

-- Work added before `Init` has no pool to go to.
too_early : add_work starter 7 ≡ none
unfolding add_work
too_early = refl

abbrev queue_of : Option Starter → List ℕ
queue_of none = []
queue_of (some s) = (pool_of s).pool.tasks_

last_in_queue :
    queue_of (add_work (started (set_worker_amount starter 2)) 7)
    ≡ 0 ∷ 0 ∷ 0 ∷ 0 ∷ 0 ∷ 0 ∷ 0 ∷ 0 ∷ 0 ∷ 0 ∷ 0 ∷ 0 ∷ 0 ∷ 0 ∷ 7 ∷ []
unfolding add_work init start_pool enqueue_all enqueue
last_in_queue = refl

-- A port that is taken stops `Init` where `_ASSERT` is compiled in.
abbrev all_but_bind : Call → Bool
all_but_bind (bind_port port) = false
all_but_bind _ = true

port_taken : init true all_but_bind starter ≡ none
unfolding init
port_taken = refl
