-- ===== src/Udp/SessionManager/Places.antt =====
-- A turn adds no session but the new one of a SYN, and none leaves its place and is kept in another.
use server_core.Common.{
  ℕ, ◌+◌, ◌≤◌, ◌≡◌, refl, Option, none, some, Bool, true, false, not, ◌&&◌, ◌==◌, if◌then◌else◌,
  ltb, drop, count-append, arith, Bool-cases, Option-cases, inl, inr, List,
}
use server_core.Udp.Endpoint.{Endpoint}
use server_core.Udp.Packet.{packet_with_body}
use server_core.Udp.SessionMap.{find}
use server_core.Udp.SessionManager.{
  Manager, Completion, timeout, failed_read, failed_write, read, written, Kind, syn, ack,
  heart_beat, data_packet, malformed, kind_of, short_at, iocp_task, on_datagram, finish, on_syn,
  on_ack, on_heart_beat, on_data, if_found, completed, send, recv,
}
use server_core.Udp.SessionManager.Loops.{sweep, reap}
use server_core.Udp.SessionManager.Sweep.{leavers, sweep_sessions_lem, count-leavers}
use server_core.Udp.SessionManager.Entries.{count-insert, count-erase}
use server_core.Udp.SessionManager.Ownership.{places, Inv}
use server_core.Udp.SessionManager.Histories.{reap_gone-keeps}

abbrev pub is_syn : Kind → Bool
is_syn syn = true
is_syn ack = false
is_syn heart_beat = false
is_syn data_packet = false
is_syn malformed = false

-- The completions for which a session is made.
abbrev pub makes_session : Completion → Bool
makes_session timeout = false
makes_session failed_read = false
makes_session failed_write = false
makes_session (read bytes e buffer) =
    not (ltb bytes 4) && is_syn (kind_of bytes (short_at buffer 0) (short_at buffer 2))
makes_session (written bytes) = false

finish-places : (m : Manager) (a : ℕ) → places (finish m) a ≡ places m a
unfolding finish recv
finish-places m a = ground arith

on_syn-places :
    (m : Manager) (e : Endpoint) (buffer : List ℕ) (fresh a : ℕ)
    → places (on_syn m e buffer fresh) a ≤ places m a + (if a == fresh then 1 else 0)
unfolding on_syn send
on_syn-places m e buffer fresh a =
    elim (Option-cases (packet_with_body m.recycled 2 0xfffe (drop 4 buffer))) [
      | inl no_body ↦
          rw (on_syn, no_body) (ground (arith, count-insert e fresh a m.pending_sessions_))
      | inr (d, built) ↦
          rw (on_syn, built) (ground (arith, count-insert e fresh a m.pending_sessions_))
    ]

on_ack-places :
    (m : Manager) (e : Endpoint) (s a : ℕ)
    → find e m.pending_sessions_ ≡ some s
    → places (on_ack m e s) a ≤ places m a
unfolding on_ack
on_ack-places m e s a p = ground (
  arith,
  count-erase e a m.pending_sessions_,
  p,
  count-insert (m.heap s).endpoint_ s a m.sessions_,
)

if_found-places :
    (m : Manager) (o : Option ℕ) (f : ℕ → Manager) (a : ℕ)
    → ((s : ℕ) → o ≡ some s → places (f s) a ≤ places m a)
    → places (if_found m o f) a ≤ places m a
if_found-places m none f a h = omega arith
if_found-places m (some s) f a h = h s refl

on_datagram-places :
    (m : Manager) (k : Kind) (e : Endpoint) (buffer : List ℕ) (fresh a : ℕ)
    → places (on_datagram m k e buffer fresh) a
      ≤ places m a + (if is_syn k && a == fresh then 1 else 0)
unfolding on_datagram on_heart_beat on_data
on_datagram-places m syn e buffer fresh a =
    rw (finish-places (on_syn m e buffer fresh) a) (on_syn-places m e buffer fresh a)
on_datagram-places m ack e buffer fresh a =
    let fewer =
      if_found-places m (find e m.pending_sessions_) (λ s. finish (on_ack m e s)) a
        (λ s p. rw (finish-places (on_ack m e s) a) (on_ack-places m e s a p)) in
    ground (arith, fewer)
on_datagram-places m heart_beat e buffer fresh a =
    let fewer =
      if_found-places m (find e m.sessions_) (λ s. finish (on_heart_beat m s)) a
        (λ s p. ground (arith, finish-places (on_heart_beat m s) a)) in
    ground (arith, fewer)
on_datagram-places m data_packet e buffer fresh a =
    let fewer =
      if_found-places m (find e m.sessions_) (λ s. finish (on_data m buffer s)) a
        (λ s p. ground (arith, finish-places (on_data m buffer s) a)) in
    ground (arith, fewer)
on_datagram-places m malformed e buffer fresh a = ground (arith, finish-places m a)

pub iocp_task-places :
    (m : Manager) (c : Completion) (fresh a : ℕ)
    → places (iocp_task m c fresh) a ≤ places m a + (if makes_session c && a == fresh then 1 else 0)
unfolding iocp_task
iocp_task-places m timeout fresh a = ground arith
iocp_task-places m failed_read fresh a = ground arith
iocp_task-places m failed_write fresh a = ground arith
iocp_task-places m (read bytes e buffer) fresh a = elim (Bool-cases (ltb bytes 4)) [
  | inl short ↦ rw short (ground arith)
  | inr long ↦ rw long (
      on_datagram-places (completed m) (kind_of bytes (short_at buffer 0) (short_at buffer 2)) e
        buffer fresh a)
]
iocp_task-places m (written bytes) fresh a = elim (Bool-cases (ltb bytes 4)) [
  | inl short ↦ rw short (ground arith)
  | inr long ↦ rw long (ground arith)
]

pub sweep-places : (m : Manager) (a : ℕ) → Inv m → places (sweep m) a ≤ places m a
unfolding sweep
sweep-places m a inv =
    let (kept, gone, l) =
      sweep_sessions_lem m.heap m.sessions_ (λ b. omega (arith, inv.distinct b)) in
    rw (kept, gone)
      (omega (
        arith,
        count-append a m.gone (leavers m.heap m.sessions_),
        count-leavers m.heap m.sessions_ a,
      ))

pub reap-places : (m : Manager) (a : ℕ) → places (reap m) a ≤ places m a
unfolding reap
reap-places m a = omega (arith, (reap_gone-keeps m.heap m.gone m.events a).0)
