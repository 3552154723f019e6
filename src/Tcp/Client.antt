-- ===== src/Tcp/Client.antt =====
-- core/server/Client.h and Client.cpp: the two buffers of one connection and the requests that it
-- posts. A request that cannot be posted is the argument `posts`: false for an error of `WSARecv`
-- or `WSASend` other than `WSA_IO_PENDING`. `None` of the results stands for a write outside the
-- memory, a read outside it, or a lock that is held.
pub mod Receive
pub mod Send
pub mod Delivery
mod Examples
use server_core.Common.{
  ℕ, ◌+◌, ◌-◌, ◌%◌, ◌^◌, ◌≡◌, Bool, true, false, List, [], ◌∷◌, ◌++◌, Option, none, some,
  if◌then◌else◌, ltb, leb, ◌==◌, length, take, drop, ◌>>=◌,
}
use server_core.Tcp.Buffer.{Buffer, init, minus32, read, write_at, consume, produce, get_remained}

-- The io contexts of a client that are with the completion port, and what the user's receive
-- handler is called with: the receive buffer as it stands then.
pub data Event : Type 0 where
  recv_ready : Event
  recv : (at len : ℕ) → Event
  sent : List ℕ → Event
  disconnect : Event
  handled : Buffer → Event

-- Events are listed newest first.
pub record Client : Type 0 where
  pub send_buffer_ : Buffer
  pub recv_buffer_ : Buffer
  pub events : List Event

abbrev pub send_buffer_size : ℕ
send_buffer_size = 512

abbrev pub recv_buffer_size : ℕ
recv_buffer_size = 512

-- The constructor.
abbrev pub new_client : Client
new_client = record {
  send_buffer_ = init send_buffer_size;
  recv_buffer_ = init recv_buffer_size;
  events = [];
}

abbrev pub post : Client → Event → Client
post c e = record c { events = e ∷ c.events }

-- `PrepareReceive`
unfoldable pub prepare_receive : Client → (posts : Bool) → Bool × Client
prepare_receive c posts = if posts then (true, post c recv_ready) else (false, c)

-- `Receive`
unfoldable pub receive : Client → (posts : Bool) → Bool × Client
receive c posts =
    if posts
    then (true, post c (recv c.recv_buffer_.offset_ (get_remained c.recv_buffer_)))
    else (false, c)

-- `(UWORD)*(recv_buffer_.Read())`: one `char`, signed, widened to 16 bits.
abbrev pub widen : ℕ → ℕ
widen byte = if ltb byte 128 then byte else byte + 2 ^ 16 - 2 ^ 8

abbrev pub packet_size : Buffer → Option ℕ
packet_size b = elim (read b) [ [] ↦ none | byte ∷ bytes ↦ some (widen byte) ]

-- The packet handed to the user's handler, which is taken to leave the client's buffers alone.
unfoldable pub handle_packet : Client → ℕ → Option Client
handle_packet c n = do
  produced ← produce c.recv_buffer_ n
  consumed ← consume produced n
  some (record c { recv_buffer_ = consumed; events = handled produced ∷ c.events })

-- `PostReceive`; `header` is `Server::packet_header_size_`.
unfoldable pub post_receive : (header : ℕ) → Client → (received_bytes : ℕ) → Option Client
unfolding handle_packet
post_receive header c received_bytes = do
  size ← packet_size c.recv_buffer_
  (if leb (minus32 size c.recv_buffer_.offset_) received_bytes
      then handle_packet c (header + size)
      else some c)

-- `WSASend` on what was copied to place `at`.
abbrev pub post_sent : Client → (at n : ℕ) → (posts : Bool) → Bool × Client
post_sent c at n posts =
    if posts then (true, post c (sent (take n (drop at c.send_buffer_.buffer_)))) else (false, c)

-- `Send`
unfoldable pub send : Client → (bytes : List ℕ) → (posts : Bool) → Option (Bool × Client)
send c bytes posts = do
  mem ← write_at c.send_buffer_.buffer_ c.send_buffer_.offset_ bytes
  produced ← produce (record c.send_buffer_ { buffer_ = mem }) (length bytes)
  some
      (post_sent (record c { send_buffer_ = produced }) c.send_buffer_.offset_ (length bytes) posts)

-- `PostSend`
unfoldable pub post_send : Client → (sent_bytes : ℕ) → Option Client
post_send c sent_bytes = do
  consumed ← consume c.send_buffer_ sent_bytes
  some (record c { send_buffer_ = consumed })

-- `Disconnect`
unfoldable pub disconnected : Client → Client
disconnected c = post c disconnect
