-- ===== src/Tcp/Server.antt =====
-- core/server/Server.cpp and IoContext.h: the I/O threads' loop and the accept loop, each as one
-- round. A completion is what `GetQueuedCompletionStatus` gives; `outstanding` are the io contexts
-- that are with the completion port, `contexts` counts those of the pool that are in use.
pub mod Start
pub mod System
pub mod Switch
pub mod Watch
pub mod Contexts
mod Examples
use server_core.Common.{
  ℕ, ◌+◌, ◌-◌, ◌≡◌, Bool, true, false, not, ◌&&◌, ◌||◌, List, [], ◌∷◌, Option, none, some,
  if◌then◌else◌, ◌==◌, ltb, length,
}
use server_core.Tcp.Client.{
  Client, new_client, prepare_receive, receive, post_receive, post_send, disconnected,
}
use server_core.Tcp.ClientManager.{ClientManager, add_client, remove_client}
use server_core.Tcp.ClientManager

pub data IoType : Type 0 where
  io_none io_accept io_recv_ready io_recv io_send io_connect io_disconnect : IoType

pub record IoContext : Type 0 where
  pub client_ : ℕ
  pub io_type_ : IoType

-- The constructor, of the fields that the loop reads.
abbrev pub new_io_context : (client : ℕ) → IoType → IoContext
new_io_context client io_type = record { client_ = client; io_type_ = io_type }

-- The handlers that a user can set.
pub data Hook : Type 0 where
  timeout_handler pre_accept_handler post_accept_handler : Hook
  pre_receive_handler post_receive_handler : Hook
  pre_send_handler post_send_handler pre_disconnect_handler post_disconnect_handler : Hook

pub record Server : Type 0 where
  pub manager : ClientManager
  pub clients : ℕ → Client
  pub is_set : Hook → Bool
  pub packet_header_size_ : ℕ
  pub contexts : ℕ
  pub outstanding : List IoContext
  pub called : List Hook

-- `gqcs_result`, `received_bytes` and `io_context` of one round, whether the last error is
-- `WAIT_TIMEOUT`, and whether `WSARecv` and `DisconnectEx` take the requests of this round.
pub record Completion : Type 0 where
  pub gqcs_result : Bool
  pub received_bytes : ℕ
  pub io_context : Option IoContext
  pub is_timeout : Bool
  pub posts : Bool
  pub disconnects : Bool

-- How a round ends: it goes on; or with a fault, a read through null or outside a buffer; or with
-- an exception.
pub data Outcome : Type 0 where
  went : Server → Outcome
  crashed threw : Outcome

-- `SetTimeoutHandler` and its like; `same` is the test for the hook that is set.
abbrev pub set_hook : Server → (same : Hook → Bool) → Server
set_hook s same = record s { is_set = λ h. same h || s.is_set h }

-- `SetPacketHeaderSize`
abbrev pub set_packet_header_size : Server → ℕ → Server
set_packet_header_size s size = record s { packet_header_size_ = size }

-- `TimeoutHandler` and its like
abbrev pub call : Hook → Server → Server
call h s = record s { called = if s.is_set h then h ∷ s.called else s.called }

abbrev pub update : (ℕ → Client) → ℕ → Client → ℕ → Client
update clients a c b = if b == a then c else clients b

-- A context made for client `a`, which goes to the port if the call was taken.
abbrev pub request : Server → ℕ → IoType → Bool × Client → Bool × Server
request s a t (taken, c) = (
  taken,
  record s {
    clients = update s.clients a c;
    contexts = s.contexts + 1;
    outstanding = if taken then new_io_context a t ∷ s.outstanding else s.outstanding;
  },
)

abbrev pub prepare : Server → ℕ → (posts : Bool) → Bool × Server
prepare s a posts = request s a io_recv_ready (prepare_receive (s.clients a) posts)

-- `Client::Disconnect`, which does not look at the answer of `DisconnectEx`.
abbrev pub disconnect : Server → ℕ → (disconnects : Bool) → Server
disconnect s a disconnects = (request s a io_disconnect (disconnects, disconnected (s.clients a))).1

-- The `switch`: `io_result` and the server, or how it ends otherwise.
pub data Switched : Type 0 where
  result : Bool × Server → Switched
  fault unknown : Switched

-- An empty `std::function` throws when it is called.
abbrev pub with_handler : Server → (before after : Client) → Switched → Switched
with_handler s before after next =
    if ltb (length before.events) (length after.events) && not (s.is_set post_receive_handler)
    then unknown
    else next

unfoldable pub switch : Server → IoContext → (received_bytes : ℕ) → (posts : Bool) → Switched
switch s x n posts = elim x.io_type_ [
  | io_accept ↦
      let s' = call pre_accept_handler s in
      let (ok, t) =
        prepare (record s' { manager = add_client s'.manager x.client_ }) x.client_ posts in
      result (ok, call post_accept_handler t)
  | io_recv_ready ↦ result (request s x.client_ io_recv (receive (s.clients x.client_) posts))
  | io_recv ↦ elim (post_receive s.packet_header_size_ (s.clients x.client_) n) [
    | none ↦ fault
    | some c ↦
        with_handler s (s.clients x.client_) c
          (result (prepare (record s { clients = update s.clients x.client_ c }) x.client_ posts))
  ]
  | io_send ↦
      let s' = call pre_send_handler s in
      elim (post_send (s'.clients x.client_) n) [
        | none ↦ fault
        | some c ↦
            result
              (true, call post_send_handler (record s' { clients = update s'.clients x.client_ c }))
      ]
  | io_disconnect ↦
      let s' = call pre_disconnect_handler s in
      result (
        true,
        call post_disconnect_handler (record s' { manager = remove_client s'.manager x.client_ }),
      )
  | _ ↦ unknown
]

-- `io_context_pool_->Destroy(io_context)`
abbrev pub destroy : Server → Server
destroy s = record s { contexts = s.contexts - 1 }

-- The end of the round, from `if (io_result == FALSE)` on.
abbrev pub finish : ℕ → (disconnects : Bool) → Switched → Outcome
finish a disconnects (result (ok, s)) =
    went (destroy (if ok then s else disconnect s a disconnects))
finish a disconnects fault = crashed
finish a disconnects unknown = threw

abbrev pub is_transfer : IoType → Bool
is_transfer io_recv = true
is_transfer io_send = true
is_transfer _ = false

-- One round of `IocpWork`.
unfoldable pub iocp_work : Server → Completion → Outcome
unfolding switch
iocp_work s c = elim c.io_context [
  | none ↦
      if (not c.gqcs_result || c.received_bytes == 0) && c.is_timeout
      then went (call timeout_handler s)
      else crashed
  | some x ↦
      if (not c.gqcs_result || c.received_bytes == 0) && is_transfer x.io_type_
      then went (destroy (disconnect s x.client_ c.disconnects))
      else finish x.client_ c.disconnects (switch s x c.received_bytes c.posts)
]

-- One round of `Run`, where the pool has the memory `fresh`; `AcceptEx` is taken to be accepted.
unfoldable pub run_round : Server → (fresh : ℕ) → Server
run_round s fresh =
    let (made, m) = ClientManager.new_client s.manager fresh in
    elim made [
      | none ↦ s
      | some a ↦ (request (record s { manager = m }) a io_accept (true, new_client)).1
    ]
