-- ===== src/Udp/SessionManager/Histories.antt =====
-- Histories of the manager: rounds of `iocp_task` and of the heartbeat thread's two loops, in any
-- order.
use server_core.Common.{
  ℕ, ◌≤◌, ◌<◌, ◌≡◌, ◌≢◌, refl, ap, sym, ◌∙◌, Bool, List, [], ◌∷◌, Option, none, some, ltb, count,
  count-append, arith, Bool-cases, inl, inr,
}
use server_core.Udp.Endpoint.{Endpoint}
use server_core.Udp.Packet.{Data}
use server_core.Udp.SessionMap.{SessionMap, find, same_key, same_key_iff}
use server_core.Udp.SessionManager.{
  Session, Manager, Event, disconnected, Completion, timeout, failed_read, failed_write, read,
  written, Kind, syn, ack, heart_beat, data_packet, malformed, kind_of, short_at, iocp_task,
  on_datagram, finish, on_syn, on_ack, on_heart_beat, on_data, if_found, completed, set_alive,
  decrement16, below_minus_1, is_minus_3, new_manager,
}
use server_core.Udp.SessionManager.Loops.{sweep, sweep_sessions, reap, reap_gone}
use server_core.Udp.SessionManager.Sweep.{
  ids, next_alive, survivors, leavers, sweep_sessions_lem, count-leavers,
}
use server_core.Udp.SessionManager.Entries.{IsKeyed, IsKeyed-agree}
use server_core.Udp.SessionManager.Ownership.{
  places, Inv, alive-Inv, finish-Inv, on_syn-Inv, on_ack-Inv, on_heart_beat-Inv, on_data-Inv,
}

if_found-Inv :
    (m : Manager) (o : Option ℕ) (f : ℕ → Manager)
    → Inv m
    → ((s : ℕ) → o ≡ some s → Inv (f s))
    → Inv (if_found m o f)
if_found-Inv m none f inv h = inv
if_found-Inv m (some s) f inv h = h s refl

on_datagram-Inv :
    (m : Manager) (k : Kind) (e : Endpoint) (buffer : List ℕ) (fresh : ℕ)
    → places m fresh ≡ 0
    → Inv m
    → Inv (on_datagram m k e buffer fresh)
unfolding on_datagram
on_datagram-Inv m syn e buffer fresh new inv =
    finish-Inv (on_syn m e buffer fresh) (on_syn-Inv m e buffer fresh new inv)
on_datagram-Inv m ack e buffer fresh new inv =
    if_found-Inv m (find e m.pending_sessions_) (λ s. finish (on_ack m e s)) inv
      (λ s p. finish-Inv (on_ack m e s) (on_ack-Inv m e s p inv))
on_datagram-Inv m heart_beat e buffer fresh new inv =
    if_found-Inv m (find e m.sessions_) (λ s. finish (on_heart_beat m s)) inv
      (λ s p. finish-Inv (on_heart_beat m s) (on_heart_beat-Inv m s inv))
on_datagram-Inv m data_packet e buffer fresh new inv =
    if_found-Inv m (find e m.sessions_) (λ s. finish (on_data m buffer s)) inv
      (λ s p. finish-Inv (on_data m buffer s) (on_data-Inv m buffer s inv))
on_datagram-Inv m malformed e buffer fresh new inv = finish-Inv m inv

completed-Inv : (m : Manager) → Inv m → Inv (completed m)
completed-Inv m inv = alive-Inv m (completed m) refl refl refl (λ a. refl) inv

iocp_task-Inv :
    (m : Manager) (c : Completion) (fresh : ℕ)
    → places m fresh ≡ 0
    → Inv m
    → Inv (iocp_task m c fresh)
unfolding iocp_task
iocp_task-Inv m timeout fresh new inv = inv
iocp_task-Inv m failed_read fresh new inv = completed-Inv m inv
iocp_task-Inv m failed_write fresh new inv = inv
iocp_task-Inv m (read bytes e buffer) fresh new inv = elim (Bool-cases (ltb bytes 4)) [
  | inl short ↦ rw short (completed-Inv m inv)
  | inr long ↦ rw long (
      on_datagram-Inv (completed m) (kind_of bytes (short_at buffer 0) (short_at buffer 2)) e buffer
        fresh new (completed-Inv m inv))
]
iocp_task-Inv m (written bytes) fresh new inv = elim (Bool-cases (ltb bytes 4)) [
  | inl short ↦ rw short inv
  | inr long ↦ rw long (alive-Inv m _ refl refl refl (λ a. refl) inv)
]

sweep_sessions-endpoint :
    (h : ℕ → Session) (m : SessionMap) (a : ℕ)
    → ((sweep_sessions h m).0 a).endpoint_ ≡ (h a).endpoint_
unfolding sweep_sessions
sweep_sessions-endpoint h [] a = refl
sweep_sessions-endpoint h ((e, s) ∷ m) a =
    ground (arith, sweep_sessions-endpoint (set_alive h s (decrement16 (h s).is_alive_)) m a)

IsKeyed-survivors : (g h : ℕ → Session) (m : SessionMap) → IsKeyed h m → IsKeyed h (survivors g m)
unfolding survivors
IsKeyed-survivors g h [] ks = tt
IsKeyed-survivors g h ((e, s) ∷ m) (k, ks) = elim (Bool-cases (below_minus_1 (next_alive g s))) [
  | inl low ↦ rw low (IsKeyed-survivors g h m ks)
  | inr high ↦ rw high (k, IsKeyed-survivors g h m ks)
]

sweep-Inv : (m : Manager) → Inv m → Inv (sweep m)
unfolding sweep
sweep-Inv m inv =
    let (kept, gone, l) =
      sweep_sessions_lem m.heap m.sessions_ (λ a. omega (arith, inv.distinct a)) in
    let same = sweep_sessions-endpoint m.heap m.sessions_ in
    let h = (sweep_sessions m.heap m.sessions_).0 in
    record {
      distinct =
          rw (kept, gone)
            (λ a. omega (
              arith,
              inv.distinct a,
              count-append a m.gone (leavers m.heap m.sessions_),
              count-leavers m.heap m.sessions_ a,
            ));
      waiting = IsKeyed-agree m.heap h m.pending_sessions_ (λ a c. same a) inv.waiting;
      established = rw kept (
          IsKeyed-survivors m.heap h m.sessions_
            (IsKeyed-agree m.heap h m.sessions_ (λ a c. same a) inv.established));
    }

pub reap_gone-keeps :
    (h : ℕ → Session) (ss : List ℕ) (es : List Event) (a : ℕ)
    → (count a (reap_gone h ss es).1 ≤ count a ss)
      × (((reap_gone h ss es).0 a).endpoint_ ≡ (h a).endpoint_)
unfolding reap_gone
reap_gone-keeps h [] es a = (omega arith, refl)
reap_gone-keeps h (s ∷ ss) es a =
    let h₁ = set_alive h s (next_alive h s) in
    elim (Bool-cases (is_minus_3 (next_alive h s))) [
      | inl last ↦
          let (fewer, same) = reap_gone-keeps h₁ ss (disconnected s ∷ es) a in
          rw last (omega (arith, fewer), ground (arith, same))
      | inr other ↦
          let (fewer, same) = reap_gone-keeps h₁ ss es a in
          rw other (omega (arith, fewer), ground (arith, same))
    ]

reap-Inv : (m : Manager) → Inv m → Inv (reap m)
unfolding reap
reap-Inv m inv =
    let h = (reap_gone m.heap m.gone m.events).0 in
    record {
      distinct = λ a. omega (arith, inv.distinct a, (reap_gone-keeps m.heap m.gone m.events a).0);
      waiting =
          IsKeyed-agree m.heap h m.pending_sessions_
            (λ a c. (reap_gone-keeps m.heap m.gone m.events a).1) inv.waiting;
      established =
          IsKeyed-agree m.heap h m.sessions_ (λ a c. (reap_gone-keeps m.heap m.gone m.events a).1)
            inv.established;
    }

-- A round of an I/O thread, where the session pool has memory that no session uses, and the two
-- loops of the heartbeat thread; other threads may run between the loops.
pub data Step (m : Manager) : Manager → Type 0 where
  task : (c : Completion) (fresh : ℕ) → places m fresh ≡ 0 → Step m (iocp_task m c fresh)
  sweeps : Step m (sweep m)
  reaps : Step m (reap m)

pub data Reach : Manager → Type 0 where
  start :
      (iocp associated junk : Bool) (heap : ℕ → Session) (recycled : Data)
      → Reach (new_manager iocp associated junk heap recycled)
  later : {m m' : Manager} → Reach m → Step m m' → Reach m'

Step-Inv : {m m' : Manager} → Step m m' → Inv m → Inv m'
Step-Inv {m} (task c fresh new) inv = iocp_task-Inv m c fresh new inv
Step-Inv {m} sweeps inv = sweep-Inv m inv
Step-Inv {m} reaps inv = reap-Inv m inv

pub Reach-Inv : {m : Manager} → Reach m → Inv m
unfolding new_manager
Reach-Inv (start iocp associated junk heap recycled) = record {
  distinct = λ a. omega arith;
  waiting = tt;
  established = tt;
}
Reach-Inv (later r st) = Step-Inv st (Reach-Inv r)

-- An entry that is found is one of the map.
pub found :
    (h : ℕ → Session) (e : Endpoint) (s : ℕ) (m : SessionMap)
    → IsKeyed h m
    → find e m ≡ some s
    → (0 < count s (ids m)) × ((h s).endpoint_ ≡ e)
unfolding find
found h e s [] ks p = absurd (ground (arith, p))
found h e s ((j, t) ∷ m) (k, ks) p = elim (Bool-cases (same_key j e)) [
  | inl same ↦
      let at : t ≡ s = ground (arith, p, same) in
      (ground (arith, at), ap (λ (a : ℕ). (h a).endpoint_) (sym at) ∙ k ∙ (same_key_iff j e).0 same)
  | inr other ↦ let (here, own) = found h e s m ks (rw other at p) in (omega (arith, here), own)
]

-- In every state that a manager reaches from its constructor by completions and by the loops of the
-- heartbeat thread, in any order, as long as the session pool gives memory that no session of the
-- maps or on its way out has: a session found under an endpoint has that endpoint, is found under
-- no other, does not wait for an ACK under any, and is not on its way out.
pub session_in_one_place :
    {m : Manager} (e : Endpoint) (s : ℕ)
    → Reach m
    → find e m.sessions_ ≡ some s
    → ((m.heap s).endpoint_ ≡ e)
      × ((j : Endpoint) → find j m.sessions_ ≡ some s → j ≡ e)
      × ((j : Endpoint) → find j m.pending_sessions_ ≢ some s)
      × (count s m.gone ≡ 0)
session_in_one_place {m} e s r p =
    let inv = Reach-Inv r in
    let (here, own) = found m.heap e s m.sessions_ inv.established p in
    (
      own,
      λ j q. sym (found m.heap j s m.sessions_ inv.established q).1 ∙ own,
      λ j q. absurd (
          omega
            (arith, inv.distinct s, here, (found m.heap j s m.pending_sessions_ inv.waiting q).0)),
      omega (arith, inv.distinct s, here),
    )
