-- ===== src/Tcp/Server/Start.antt =====
-- core/server/Server.cpp: what is set before the start, and `Init`, with the thread pool on which it
-- puts the loops of the I/O threads. `asserts` tells whether `_ASSERT` is compiled in, and `succeeds`
-- which calls of Winsock do. The creation of `io_context_pool_` at the end of `Init`, when the
-- loops are on the thread pool, is left out: they use it on a completion, and it is `Run`, called
-- later, that posts the first request.
pub mod Histories
pub mod Invariant
pub mod Workers
mod Examples
use server_core.Common.{
  Bool, true, false, not, ◌&&◌, ◌||◌, if◌then◌else◌, ℕ, zero, suc, ◌+◌, ◌%◌, ◌^◌, List, [], ◌∷◌,
  ◌++◌, Option, none, some,
}
use server_core.ThreadPool.{System, enqueue}
use server_core.ThreadPool
use server_core.Tcp.ClientManager.{ClientManager, new_manager}
use server_core.Tcp.Server.{Server, Hook, set_packet_header_size}

-- The fields of `Server` that its loops do not read. `thread_pool_` is none before `Init`.
pub record Starter : Type 0 where
  pub server : Server
  pub listen_port_ : ℕ
  pub worker_amount_ : ℕ
  pub iocp_worker_amount_ : ℕ
  pub thread_pool_ : Option System

abbrev pub default_worker_amount : ℕ
default_worker_amount = 16

abbrev pub default_iocp_worker_amount : ℕ
default_iocp_worker_amount = 14

abbrev pub default_packet_header_size : ℕ
default_packet_header_size = 2

-- The constructor; `listen_port_` is what its memory held.
abbrev pub new_starter : Server → (listen_port_ : ℕ) → Starter
new_starter server listen_port_ = record {
  server = server;
  listen_port_ = listen_port_;
  worker_amount_ = default_worker_amount;
  iocp_worker_amount_ = default_iocp_worker_amount;
  thread_pool_ = none;
}

-- `SetListenPort`, `SetWorkerAmount` and `SetIocpWorkerAmount`, each of a `USHORT`
abbrev pub set_listen_port : Starter → ℕ → Starter
set_listen_port s port = record s { listen_port_ = port % 2 ^ 16 }

abbrev pub set_worker_amount : Starter → ℕ → Starter
set_worker_amount s amount = record s { worker_amount_ = amount % 2 ^ 16 }

abbrev pub set_iocp_worker_amount : Starter → ℕ → Starter
set_iocp_worker_amount s amount = record s { iocp_worker_amount_ = amount % 2 ^ 16 }

-- The task `IocpWork`, whichever of them.
abbrev pub loop_task : ℕ
loop_task = 0

-- `thread_pool_->Enqueue`: an exception on a pool that was stopped, none.
abbrev pub enqueue_on : System → (task : ℕ) → Option System
enqueue_on s t = elim (enqueue s.pool t) [
  | none ↦ none
  | some p ↦ some (record s { pool = p; accepted = s.accepted ++ (t ∷ []) })
]

-- The loop of `Init` that enqueues `IocpWork`.
unfoldable pub enqueue_all : ℕ → System → Option System
enqueue_all zero s = some s
enqueue_all (suc n) s = elim (enqueue_on s loop_task) [ none ↦ none | some t ↦ enqueue_all n t ]

-- The calls of Winsock in `Init`; `bind_port` has the port on which the server will listen.
pub data Call : Type 0 where
  startup listen_socket reuse_address : Call
  bind_port : ℕ → Call
  get_disconnect_ex get_accept_ex get_connect_ex : Call
  create_port associate_socket : Call

-- In their order, which is also that of their `_ASSERT`s.
abbrev pub init_calls : (listen_port_ : ℕ) → List Call
init_calls port =
    startup
    ∷ listen_socket
    ∷ reuse_address
    ∷ bind_port port
    ∷ get_disconnect_ex
    ∷ get_accept_ex
    ∷ get_connect_ex
    ∷ create_port
    ∷ associate_socket
    ∷ []

-- The answer of `setsockopt` is not looked at.
abbrev pub is_asserted : Call → Bool
is_asserted reuse_address = false
is_asserted _ = true

abbrev pub asserts_hold : (succeeds : Call → Bool) → List Call → Bool
asserts_hold succeeds [] = true
asserts_hold succeeds (c ∷ cs) = (succeeds c || not (is_asserted c)) && asserts_hold succeeds cs

-- The end of `Init`: none if `Enqueue` throws. A pool that is there stays.
unfoldable pub start_pool : Starter → Option Starter
unfolding enqueue_all
start_pool s = elim s.thread_pool_ [
  | some system ↦ some s
  | none ↦ elim (enqueue_all s.iocp_worker_amount_ (ThreadPool.init s.worker_amount_)) [
    | none ↦ none
    | some system ↦ some (record s { thread_pool_ = some system })
  ]
]

-- `Init`: none if an `_ASSERT` fails.
unfoldable pub init : (asserts : Bool) → (succeeds : Call → Bool) → Starter → Option Starter
unfolding start_pool
init asserts succeeds s =
    let server =
      set_packet_header_size (record (s.server) { manager = new_manager })
        default_packet_header_size in
    if asserts && not (asserts_hold succeeds (init_calls s.listen_port_))
    then none
    else start_pool (record s { server = server })

-- `AddWork`: none is a fault, for there is no pool, or the exception of `Enqueue`.
unfoldable pub add_work : Starter → (task : ℕ) → Option Starter
add_work s t = elim s.thread_pool_ [
  | none ↦ none
  | some system ↦ elim (enqueue_on system t) [
    | none ↦ none
    | some system' ↦ some (record s { thread_pool_ = some system' })
  ]
]

-- `GetAllClient`
abbrev pub get_all_client : Starter → List ℕ
get_all_client s = s.server.manager.clients_
