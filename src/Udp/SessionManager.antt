-- ===== src/Udp/SessionManager.antt =====
-- core/udp_server/src/session_manager.hpp and session_manager.cpp, with `Session` (session.hpp) and
-- the calls of socket.cpp that it makes. The state is that of one manager and of its socket.
-- Each operation below is one turn of a thread: the body of `iocp_task` for one completion, and the
-- two loops of the heartbeat thread. The memory that `session_pool_.Malloc()` gives is an argument;
-- sessions and packets are found by address. The handlers for a new session and for a packet are
-- called by detached threads, which may run at any later time: their start is the event.
pub mod Setup
pub mod Receives
pub mod Handshake
pub mod Threads
pub mod Delivery
pub mod Loops
pub mod Sweep
pub mod Heartbeat
pub mod Overflow
pub mod Interleaving
pub mod Late
pub mod Entries
pub mod Ownership
pub mod Histories
pub mod Places
pub mod Pooled
pub mod Examples
use server_core.Common.{
  ℕ, zero, suc, ◌+◌, ◌-◌, ◌*◌, ◌%◌, ◌^◌, ◌≡◌, Bool, true, false, not, ◌&&◌, ◌||◌, List, [], ◌∷◌,
  ◌++◌, Option, none, some, if◌then◌else◌, ◌==◌, ltb, leb, drop,
}
use Prim.Native.Nat.{bit_or}
use server_core.Udp.Endpoint.{Endpoint}
use server_core.Udp.Packet.{Data, is_negative, read_short, packet_with_body, packet_of_bytes, wire}
use server_core.Udp.Socket.{on_port}
use server_core.Udp.SessionMap.{SessionMap, find, insert, erase}

-- `is_alive_` is a short, kept as its bit pattern.
pub record Session : Type 0 where
  pub is_alive_ : ℕ
  pub endpoint_ : Endpoint

-- What the manager does to the world outside: it sends datagrams, starts detached threads that call
-- the accept handler or the packet handler, and calls the disconnect handler itself. The threads keep
-- references: `accepted` and `received` have what these point at when the thread is started, a
-- session, and the bytes of the buffer.
pub data Event : Type 0 where
  sent : Endpoint → Option (List ℕ) → Event
  accepted : ℕ → Event
  received : ℕ → List ℕ → Event
  disconnected : ℕ → Event

-- `receives` counts the receive requests posted and not yet completed; `read_buffers` and
-- `write_buffers` the `io_data` objects in use. `gone` is the vector `disconnected` of the heartbeat
-- thread. `recycled` is what the memory of the packet pool holds, the same for each packet. Events
-- are listed newest first.
pub record Manager : Type 0 where
  pub is_inited_all : ℕ
  pub have_to_stop_ : Bool
  pub is_with_iocp_ : Bool
  pub sessions_ : SessionMap
  pub pending_sessions_ : SessionMap
  pub heap : ℕ → Session
  pub gone : List ℕ
  pub receives : ℕ
  pub read_buffers : ℕ
  pub write_buffers : ℕ
  pub recycled : Data
  pub events : List Event

-- `InterlockedIncrement16` and `InterlockedDecrement16` return the new value.
abbrev pub increment16 : ℕ → ℕ
increment16 x = (x + 1) % 2 ^ 16

abbrev pub decrement16 : ℕ → ℕ
decrement16 x = (x + 2 ^ 16 - 1) % 2 ^ 16

-- The comparisons of a short with -1, -2 and -3.
abbrev pub below_minus_1 : ℕ → Bool
below_minus_1 x = is_negative x && ltb x 0xffff

abbrev pub above_minus_2 : ℕ → Bool
above_minus_2 x = not (is_negative x) || x == 0xffff

abbrev pub is_minus_3 : ℕ → Bool
is_minus_3 x = x == 0xfffd

abbrev pub update : (ℕ → Session) → ℕ → Session → ℕ → Session
update h s v a = if a == s then v else h a

abbrev pub set_alive : (ℕ → Session) → ℕ → ℕ → ℕ → Session
set_alive h s x = update h s (record (h s) { is_alive_ = x })

-- The constructor: `iocp` says whether the port could be made, `associated` whether the socket was
-- bound to it; if not, `is_with_iocp_` keeps what its memory held, here `junk`.
unfoldable pub new_manager : (iocp associated junk : Bool) → (ℕ → Session) → Data → Manager
new_manager iocp associated junk heap recycled = record {
  is_inited_all = if iocp then 0x00 else 0x1000;
  have_to_stop_ = false;
  is_with_iocp_ = iocp && on_port iocp associated junk;
  sessions_ = [];
  pending_sessions_ = [];
  heap = heap;
  gone = [];
  receives = 0;
  read_buffers = 0;
  write_buffers = 0;
  recycled = recycled;
  events = [];
}

-- `SetAcceptHandler`, `SetDisconnectHandler` and `SetPacketHandler`
pub data Handler : Type 0 where
  accept disconnect packet : Handler

abbrev pub flag : Handler → ℕ
flag accept = 0x01
flag disconnect = 0x10
flag packet = 0x100

unfoldable pub set_handler : Manager → Handler → Manager
set_handler m h = record m { is_inited_all = bit_or m.is_inited_all (flag h) }

-- The destructor, which then joins the threads.
abbrev pub stop_manager : Manager → Manager
stop_manager m = record m { have_to_stop_ = true }

-- `Socket::Recv`
unfoldable pub recv : Manager → Manager
recv m =
    if m.is_with_iocp_
    then record m { receives = m.receives + 1; read_buffers = m.read_buffers + 1 }
    else m

-- `Socket::Send`
unfoldable pub send : Manager → Endpoint → Data → Manager
send m e d =
    if m.is_with_iocp_
    then record m { write_buffers = m.write_buffers + 1; events = sent e (wire d) ∷ m.events }
    else m

-- The first receives, one for each of the `num_thread_` threads.
unfoldable pub recv_times : ℕ → Manager → Manager
recv_times zero m = m
recv_times (suc n) m = recv_times n (recv m)

-- `Run`
unfoldable pub run : ℕ → Manager → Bool × Manager
unfolding recv_times
run num_thread m = if m.is_inited_all == 0x0111 then (true, recv_times num_thread m) else (false, m)

-- A completion that `GetQueuedCompletionStatus` hands to a thread, or its failure: a timeout, or
-- a request that was dequeued and had failed. In the program `buffer` has the 512 bytes of
-- `socket_buf_size`, and no more than so many are read; the definitions below take any.
pub data Completion : Type 0 where
  timeout : Completion
  failed_read failed_write : Completion
  read : (bytes : ℕ) → Endpoint → List ℕ → Completion
  written : (bytes : ℕ) → Completion

-- `*reinterpret_cast<short*>(read_io_data->buffer + i)`
abbrev pub short_at : List ℕ → ℕ → ℕ
short_at buffer i = elim (read_short (drop i buffer)) [ none ↦ 0 | some x ↦ x ]

-- The branches of `iocp_task` on a datagram.
pub data Kind : Type 0 where
  syn ack heart_beat data_packet malformed : Kind

-- `size + 4 == bytes`: an `int` against an `unsigned long`
abbrev pub size_fits : ℕ → ℕ → Bool
size_fits size bytes =
    ((if is_negative size then size + 2 ^ 32 - 2 ^ 16 else size) + 4) % 2 ^ 32 == bytes

unfoldable pub kind_of : (bytes size type : ℕ) → Kind
kind_of bytes size type =
    if bytes == 6 && size == 2 && type == 0xffff
    then syn
    else if bytes == 6 && size == 2 && type == 0xfffd
    then ack
    else if bytes == 4 && size == 0 && type == 0xffff
    then heart_beat
    else if size_fits size bytes
    then data_packet
    else malformed

-- `r_io_data_pool_.Free(read_io_data); socket_->Recv();`
unfoldable pub finish : Manager → Manager
unfolding recv
finish m = recv (record m { read_buffers = m.read_buffers - 1 })

-- SYN: a new session waits for its ACK. The answer's two bytes fit any packet's memory.
unfoldable pub on_syn : Manager → Endpoint → List ℕ → (fresh : ℕ) → Manager
on_syn m e buffer fresh =
    let m' = record m {
      heap = update m.heap fresh (record { is_alive_ = 0; endpoint_ = e });
      pending_sessions_ = insert e fresh m.pending_sessions_;
    } in
    elim (packet_with_body m.recycled 2 0xfffe (drop 4 buffer)) [ none ↦ m' | some d ↦ send m' e d ]

-- ACK of a session that waits: it is moved to the sessions, and the thread is started that calls the
-- accept handler.
unfoldable pub on_ack : Manager → Endpoint → ℕ → Manager
on_ack m e s = record m {
  pending_sessions_ = erase e m.pending_sessions_;
  sessions_ = insert (m.heap s).endpoint_ s m.sessions_;
  events = accepted s ∷ m.events;
}

unfoldable pub on_heart_beat : Manager → ℕ → Manager
on_heart_beat m s = record m { heap = set_alive m.heap s (increment16 (m.heap s).is_alive_) }

-- A packet of a session: unless the session is on its way out, the thread is started that calls the
-- packet handler. It keeps references to the session and to the buffer, which is then given back.
unfoldable pub on_data : Manager → List ℕ → ℕ → Manager
on_data m buffer s =
    let x = increment16 (m.heap s).is_alive_ in
    record m {
      heap = set_alive m.heap s x;
      events = if above_minus_2 x then received s buffer ∷ m.events else m.events;
    }

-- The body of that thread, run with what its references point at by then: the arguments of the packet
-- handler. `memory` is what the pool's memory for the packet holds.
unfoldable pub packet_thread : (memory : Data) → (session : ℕ) → (buffer : List ℕ) → ℕ × Option Data
unfolding packet_of_bytes
packet_thread memory session buffer = (session, packet_of_bytes memory buffer)

-- The `continue` for an endpoint that is not found leaves the buffer and posts no receive.
abbrev pub if_found : Manager → Option ℕ → (ℕ → Manager) → Manager
if_found m none f = m
if_found m (some s) f = f s

unfoldable pub on_datagram : Manager → Kind → Endpoint → List ℕ → (fresh : ℕ) → Manager
unfolding finish
on_datagram m syn e buffer fresh = finish (on_syn m e buffer fresh)
on_datagram m ack e buffer fresh =
    if_found m (find e m.pending_sessions_) (λ s. finish (on_ack m e s))
on_datagram m heart_beat e buffer fresh =
    if_found m (find e m.sessions_) (λ s. finish (on_heart_beat m s))
on_datagram m data_packet e buffer fresh =
    if_found m (find e m.sessions_) (λ s. finish (on_data m buffer s))
on_datagram m malformed e buffer fresh = finish m

-- A receive request has completed.
abbrev pub completed : Manager → Manager
completed m = record m { receives = m.receives - 1 }

-- One round of the loop of `iocp_task`.
unfoldable pub iocp_task : Manager → Completion → (fresh : ℕ) → Manager
unfolding on_datagram
iocp_task m timeout fresh = m
iocp_task m failed_read fresh = completed m
iocp_task m failed_write fresh = m
iocp_task m (read bytes e buffer) fresh =
    if ltb bytes 4
    then completed m
    else on_datagram (completed m) (kind_of bytes (short_at buffer 0) (short_at buffer 2)) e buffer
        fresh
iocp_task m (written bytes) fresh =
    if ltb bytes 4 then m else record m { write_buffers = m.write_buffers - 1 }
