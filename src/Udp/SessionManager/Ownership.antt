-- ===== src/Udp/SessionManager/Ownership.antt =====
-- Where a session stands: under one endpoint, its own, in one of the two maps, or on its way out.
use server_core.Common.{
  ℕ, ◌+◌, ◌≤◌, ◌≡◌, refl, List, some, count, arith, Option-cases, inl, inr, drop,
}
use server_core.Udp.Endpoint.{Endpoint}
use server_core.Udp.Packet.{Data, packet_with_body}
use server_core.Udp.SessionMap.{find, insert}
use server_core.Udp.SessionManager.{
  Manager, finish, on_syn, on_ack, on_heart_beat, on_data, send, recv, update,
}
use server_core.Udp.SessionManager.Entries.{
  IsKeyed, IsKeyed-agree, IsKeyed-insert, IsKeyed-erase, count-insert, count-erase,
}
use server_core.Udp.SessionManager.Sweep.{ids}

abbrev pub places : Manager → ℕ → ℕ
places m a = count a (ids m.pending_sessions_) + count a (ids m.sessions_) + count a m.gone

pub record Inv (m : Manager) : Type 0 where
  pub distinct : (a : ℕ) → places m a ≤ 1
  pub waiting : IsKeyed m.heap m.pending_sessions_
  pub established : IsKeyed m.heap m.sessions_

-- Two managers with the same sessions.
record SameSessions (m m' : Manager) : Type 0 where
  pending : m'.pending_sessions_ ≡ m.pending_sessions_
  sessions : m'.sessions_ ≡ m.sessions_
  gone : m'.gone ≡ m.gone
  heap : m'.heap ≡ m.heap

SameSessions-Inv : {m m' : Manager} → SameSessions m m' → Inv m → Inv m'
SameSessions-Inv same inv = record {
  distinct = rw (same.pending, same.sessions, same.gone) inv.distinct;
  waiting = rw (same.pending, same.heap) inv.waiting;
  established = rw (same.sessions, same.heap) inv.established;
}

finish-SameSessions : (m : Manager) → SameSessions m (finish m)
unfolding finish recv
finish-SameSessions m = record {
  pending = ground arith;
  sessions = ground arith;
  gone = ground arith;
  heap = ground arith;
}

send-SameSessions : (m : Manager) (e : Endpoint) (d : Data) → SameSessions m (send m e d)
unfolding send
send-SameSessions m e d = record {
  pending = ground arith;
  sessions = ground arith;
  gone = ground arith;
  heap = ground arith;
}

pub finish-Inv : (m : Manager) → Inv m → Inv (finish m)
finish-Inv m inv = SameSessions-Inv (finish-SameSessions m) inv

-- A new session at an address that no session has.
abbrev with_new : Manager → Endpoint → ℕ → Manager
with_new m e fresh = record m {
  heap = update m.heap fresh (record { is_alive_ = 0; endpoint_ = e });
  pending_sessions_ = insert e fresh m.pending_sessions_;
}

with_new-Inv :
    (m : Manager) (e : Endpoint) (fresh : ℕ) → places m fresh ≡ 0 → Inv m → Inv (with_new m e fresh)
with_new-Inv m e fresh new inv =
    let h = update m.heap fresh (record { is_alive_ = 0; endpoint_ = e }) in
    record {
      distinct =
          λ a. ground (arith, inv.distinct a, count-insert e fresh a m.pending_sessions_, new);
      waiting =
          IsKeyed-insert h e fresh m.pending_sessions_ (ground arith) (
            IsKeyed-agree m.heap h m.pending_sessions_ (λ a c. ground (arith, new, c)) inv.waiting);
      established =
          IsKeyed-agree m.heap h m.sessions_ (λ a c. ground (arith, new, c)) inv.established;
    }

pub on_syn-Inv :
    (m : Manager) (e : Endpoint) (buffer : List ℕ) (fresh : ℕ)
    → places m fresh ≡ 0
    → Inv m
    → Inv (on_syn m e buffer fresh)
unfolding on_syn
on_syn-Inv m e buffer fresh new inv =
    elim (Option-cases (packet_with_body m.recycled 2 0xfffe (drop 4 buffer))) [
      | inl no_body ↦ rw (on_syn, no_body) (with_new-Inv m e fresh new inv)
      | inr (d, built) ↦
          rw (on_syn, built)
            (SameSessions-Inv (send-SameSessions (with_new m e fresh) e d)
              (with_new-Inv m e fresh new inv))
    ]

pub on_ack-Inv :
    (m : Manager) (e : Endpoint) (s : ℕ)
    → find e m.pending_sessions_ ≡ some s
    → Inv m
    → Inv (on_ack m e s)
unfolding on_ack
on_ack-Inv m e s p inv = record {
  distinct = λ a. ground (
    arith,
    inv.distinct a,
    count-erase e a m.pending_sessions_,
    p,
    count-insert (m.heap s).endpoint_ s a m.sessions_,
  );
  waiting = IsKeyed-erase m.heap e m.pending_sessions_ inv.waiting;
  established = IsKeyed-insert m.heap (m.heap s).endpoint_ s m.sessions_ refl inv.established;
}

-- A counter is changed.
pub alive-Inv :
    (m m' : Manager)
    → m'.pending_sessions_ ≡ m.pending_sessions_
    → m'.sessions_ ≡ m.sessions_
    → m'.gone ≡ m.gone
    → ((a : ℕ) → (m'.heap a).endpoint_ ≡ (m.heap a).endpoint_)
    → Inv m
    → Inv m'
alive-Inv m m' p q g same inv = record {
  distinct = rw (p, q, g) inv.distinct;
  waiting = rw p (IsKeyed-agree m.heap m'.heap m.pending_sessions_ (λ a c. same a) inv.waiting);
  established = rw q (IsKeyed-agree m.heap m'.heap m.sessions_ (λ a c. same a) inv.established);
}

pub on_heart_beat-Inv : (m : Manager) (s : ℕ) → Inv m → Inv (on_heart_beat m s)
unfolding on_heart_beat
on_heart_beat-Inv m s inv = alive-Inv m (on_heart_beat m s) refl refl refl (λ a. ground arith) inv

pub on_data-Inv : (m : Manager) (buffer : List ℕ) (s : ℕ) → Inv m → Inv (on_data m buffer s)
unfolding on_data
on_data-Inv m buffer s inv = alive-Inv m (on_data m buffer s) refl refl refl (λ a. ground arith) inv
