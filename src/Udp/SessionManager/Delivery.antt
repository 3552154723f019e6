-- ===== src/Udp/SessionManager/Delivery.antt =====
-- From one side's packet to the other side's handler: `Packet`, the datagram of socket.hpp, and the
-- data branch of `iocp_task`.
pub mod Overtaken
mod Examples
use server_core.Common.{
  ℕ, ◌+◌, ◌-◌, ◌*◌, ◌/◌, ◌%◌, ◌^◌, ◌≤◌, ◌<◌, ◌≡◌, refl, ap, ◌∙◌, subst, true, false, List, [], ◌∷◌,
  ◌++◌, none, Option, some, ltb, length, arith, append_assoc,
}
use server_core.Udp.Endpoint.{Endpoint}
use server_core.Udp.Packet.{Data, packet_of_bytes, write_short}
use server_core.Udp.Packet.Wire.{read-write_short, built, packet_of_bytes-some}
use server_core.Udp.SessionMap.{find}
use server_core.Udp.SessionManager.{
  Manager, Event, sent, accepted, received, disconnected, read, data_packet, kind_of, short_at,
  iocp_task, on_datagram, on_data, finish, recv, completed, if_found, packet_thread, increment16,
  above_minus_2, set_alive,
}

data-kind :
    (size packet_type : ℕ)
    → size < 2 ^ 15
    → packet_type < 2 ^ 15
    → kind_of (size + 4) size packet_type ≡ data_packet
unfolding kind_of
data-kind size packet_type hs ht = ground (arith, hs, ht)

-- The data branch for a session that is found and alive.
data-task :
    (m : Manager) (e : Endpoint) (s bytes size packet_type fresh : ℕ) (buffer : List ℕ)
    → ltb bytes 4 ≡ false
    → short_at buffer 0 ≡ size
    → short_at buffer 2 ≡ packet_type
    → kind_of bytes size packet_type ≡ data_packet
    → find e m.sessions_ ≡ some s
    → iocp_task m (read bytes e buffer) fresh ≡ finish (on_data (completed m) buffer s)
unfolding iocp_task on_datagram
data-task m e s bytes size packet_type fresh buffer long hs ht kind h =
    rw (long, hs, ht, kind, h) refl

-- The thread of the packet handler is started on the buffer, and a new receive is posted.
pub record Starts (m t : Manager) (s : ℕ) (buffer : List ℕ) : Type 0 where
  pub events : t.events ≡ received s buffer ∷ m.events
  pub receives : t.receives ≡ m.receives - 1 + 1
  pub alive : (t.heap s).is_alive_ ≡ increment16 (m.heap s).is_alive_
  pub sessions : t.sessions_ ≡ m.sessions_
  pub port : t.is_with_iocp_ ≡ m.is_with_iocp_

on_data-Starts :
    (m : Manager) (s : ℕ) (buffer : List ℕ)
    → m.is_with_iocp_ ≡ true
    → above_minus_2 (increment16 (m.heap s).is_alive_) ≡ true
    → Starts m (finish (on_data (completed m) buffer s)) s buffer
unfolding on_data finish recv
on_data-Starts m s buffer on above =
    rw (on, above)
      (record {
        events = refl;
        receives = refl;
        alive = ground arith;
        sessions = refl;
        port = refl;
      })

-- A turn of `iocp_task` on a data packet.
pub packet-Starts :
    (m : Manager) (e : Endpoint) (s bytes size packet_type fresh : ℕ) (behind : List ℕ)
    → bytes ≡ size + 4
    → size < 2 ^ 15
    → packet_type < 2 ^ 15
    → m.is_with_iocp_ ≡ true
    → find e m.sessions_ ≡ some s
    → (m.heap s).is_alive_ + 1 < 2 ^ 15
    → let buffer = write_short size ++ write_short packet_type ++ behind in
      Starts m (iocp_task m (read bytes e buffer) fresh) s buffer
packet-Starts m e s bytes size packet_type fresh behind long hs ht on h alive =
    let buffer = write_short size ++ write_short packet_type ++ behind in
    let kind : kind_of bytes size packet_type ≡ data_packet =
      ap (λ (n : ℕ). kind_of n size packet_type) long ∙ data-kind size packet_type hs ht in
    let task =
      data-task m e s bytes size packet_type fresh buffer (ground (arith, long))
        (read-write_short size) (read-write_short packet_type) kind h in
    rw task (on_data-Starts m s buffer on (ground (arith, alive)))

-- What the thread hands over, run when its buffer holds a packet.
pub packet_thread-some :
    (memory : Data) (s size packet_type : ℕ) (payload : List ℕ)
    → size < 2 ^ 15
    → size ≤ length memory.body
    → size ≤ length payload
    → packet_thread memory s (write_short size ++ write_short packet_type ++ payload)
      ≡ (s, some (built memory size packet_type payload))
unfolding packet_thread
packet_thread-some memory s size packet_type payload hs hm hp =
    ap (λ (p : Option Data). (s, p)) (packet_of_bytes-some memory size packet_type payload hs hm hp)
