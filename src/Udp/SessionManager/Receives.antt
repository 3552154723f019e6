-- ===== src/Udp/SessionManager/Receives.antt =====
-- The receive requests of the UDP socket: which completions are answered by a new request.
use server_core.Common.{
  ℕ, ◌+◌, ◌-◌, ◌<◌, ◌≡◌, refl, ap, ◌∙◌, Bool, true, false, not, ◌&&◌, List, [], ◌∷◌, Option, none,
  some, ltb, if◌then◌else◌, length, arith, Bool-cases, inl, inr,
}
use server_core.Udp.Endpoint.{Endpoint}
use server_core.Udp.Packet.{Data}
use server_core.Udp.SessionMap.{find}
use server_core.Udp.SessionManager.{
  Manager, Completion, timeout, failed_read, failed_write, read, written, Kind, syn, ack,
  heart_beat, data_packet, malformed, kind_of, short_at, iocp_task, on_datagram, finish, on_syn,
  on_ack, on_data, on_heart_beat, send, completed, if_found,
}

abbrev is_some : Option ℕ → Bool
is_some none = false
is_some (some s) = true

-- The endpoint is one that the branch looks for and finds.
abbrev pub is_known : Manager → Kind → Endpoint → Bool
is_known m syn e = true
is_known m ack e = is_some (find e m.pending_sessions_)
is_known m heart_beat e = is_some (find e m.sessions_)
is_known m data_packet e = is_some (find e m.sessions_)
is_known m malformed e = true

-- The thread reaches `socket_->Recv()` at the end of its turn.
abbrev pub reaches_recv : Manager → Completion → Bool
reaches_recv m (read bytes e buffer) =
    not (ltb bytes 4) && is_known m (kind_of bytes (short_at buffer 0) (short_at buffer 2)) e
reaches_recv m _ = false

abbrev pub is_read : Completion → Bool
is_read (read bytes e buffer) = true
is_read failed_read = true
is_read _ = false

finish-receives : (m : Manager) → m.is_with_iocp_ ≡ true → (finish m).receives ≡ m.receives + 1
unfolding finish
finish-receives m w = ground arith

send-keeps :
    (m : Manager) (e : Endpoint) (d : Data)
    → ((send m e d).receives ≡ m.receives) × ((send m e d).is_with_iocp_ ≡ m.is_with_iocp_)
unfolding send
send-keeps m e d = (ground arith, ground arith)

on_syn-keeps :
    (m : Manager) (e : Endpoint) (buffer : List ℕ) (fresh : ℕ)
    → ((on_syn m e buffer fresh).receives ≡ m.receives)
      × ((on_syn m e buffer fresh).is_with_iocp_ ≡ m.is_with_iocp_)
unfolding on_syn send
on_syn-keeps m e buffer fresh = (ground arith, ground arith)

if_found-receives :
    (m : Manager) (o : Option ℕ) (f : ℕ → Manager)
    → ((s : ℕ) → (f s).receives ≡ m.receives + 1)
    → (if_found m o f).receives ≡ (if is_some o then m.receives + 1 else m.receives)
if_found-receives m none f h = refl
if_found-receives m (some s) f h = h s

on_datagram-receives :
    (m : Manager) (k : Kind) (e : Endpoint) (buffer : List ℕ) (fresh : ℕ)
    → m.is_with_iocp_ ≡ true
    → (on_datagram m k e buffer fresh).receives
      ≡ (if is_known m k e then m.receives + 1 else m.receives)
unfolding on_datagram on_ack on_heart_beat on_data
on_datagram-receives m syn e buffer fresh w =
    let (r, i) = on_syn-keeps m e buffer fresh in
    finish-receives (on_syn m e buffer fresh) (i ∙ w) ∙ ap (λ (n : ℕ). n + 1) r
on_datagram-receives m ack e buffer fresh w =
    if_found-receives m (find e m.pending_sessions_) (λ s. finish (on_ack m e s))
      (λ s. finish-receives (on_ack m e s) w)
on_datagram-receives m heart_beat e buffer fresh w =
    if_found-receives m (find e m.sessions_) (λ s. finish (on_heart_beat m s))
      (λ s. finish-receives (on_heart_beat m s) w)
on_datagram-receives m data_packet e buffer fresh w =
    if_found-receives m (find e m.sessions_) (λ s. finish (on_data m buffer s))
      (λ s. finish-receives (on_data m buffer s) w)
on_datagram-receives m malformed e buffer fresh w = finish-receives m w

-- On a manager bound to its port, a round of `iocp_task` changes the number of posted receives by
-- what it must: one less for a receive request that has completed, if there was one, and one more
-- exactly when the datagram has four bytes and its endpoint is known wherever the branch looks for
-- it.
pub iocp_task-receives :
    (m : Manager) (c : Completion) (fresh : ℕ)
    → m.is_with_iocp_ ≡ true
    → (is_read c ≡ true → 0 < m.receives)
    → (iocp_task m c fresh).receives + (if is_read c then 1 else 0)
      ≡ m.receives + (if reaches_recv m c then 1 else 0)
unfolding iocp_task
iocp_task-receives m timeout fresh w h = refl
iocp_task-receives m failed_read fresh w h = omega (arith, h refl)
iocp_task-receives m failed_write fresh w h = refl
iocp_task-receives m (read bytes e buffer) fresh w h =
    let k = kind_of bytes (short_at buffer 0) (short_at buffer 2) in
    ground (arith, h refl, on_datagram-receives (completed m) k e buffer fresh w)
iocp_task-receives m (written bytes) fresh w h = ground arith

-- A completion that reaches no `Recv` costs a receive request, and does nothing else: its buffer
-- is not freed either.
on_datagram-lost :
    (m : Manager) (k : Kind) (e : Endpoint) (buffer : List ℕ) (fresh : ℕ)
    → is_known m k e ≡ false
    → on_datagram m k e buffer fresh ≡ m
unfolding on_datagram
on_datagram-lost m syn e buffer fresh h = cc
on_datagram-lost m ack e buffer fresh h = ground arith
on_datagram-lost m heart_beat e buffer fresh h = ground arith
on_datagram-lost m data_packet e buffer fresh h = ground arith
on_datagram-lost m malformed e buffer fresh h = cc

iocp_task-lost :
    (m : Manager) (c : Completion) (fresh : ℕ)
    → is_read c ≡ true
    → reaches_recv m c ≡ false
    → iocp_task m c fresh ≡ completed m
unfolding iocp_task
iocp_task-lost m timeout fresh r h = cc
iocp_task-lost m failed_read fresh r h = refl
iocp_task-lost m failed_write fresh r h = cc
iocp_task-lost m (read bytes e buffer) fresh r h =
    let k = kind_of bytes (short_at buffer 0) (short_at buffer 2) in
    ground (arith, on_datagram-lost (completed m) k e buffer fresh)
iocp_task-lost m (written bytes) fresh r h = cc

-- Turns one after another, each with the memory that the session pool would give.
pub turns : Manager → List (Completion × ℕ) → Manager
turns m [] = m
turns m ((c, fresh) ∷ cs) = turns (iocp_task m c fresh) cs

-- Receive completions that reach no `Recv`: datagrams of fewer than four bytes, those of an endpoint
-- that is not known, and failed ones.
abbrev pub AllLost : Manager → List (Completion × ℕ) → Type 0
AllLost m [] = Unit {0}
AllLost m ((c, fresh) ∷ cs) = (is_read c ≡ true) × (reaches_recv m c ≡ false) × AllLost m cs

-- No request is completed that has not been posted.
abbrev pub Posted : Manager → List (Completion × ℕ) → Type 0
Posted m [] = Unit {0}
Posted m ((c, fresh) ∷ cs) = (is_read c ≡ true → 0 < m.receives) × Posted (iocp_task m c fresh) cs

is_known-completed :
    (m : Manager) (k : Kind) (e : Endpoint) → is_known (completed m) k e ≡ is_known m k e
is_known-completed m syn e = refl
is_known-completed m _ e = refl

AllLost-completed :
    (m : Manager) (cs : List (Completion × ℕ)) → AllLost m cs → AllLost (completed m) cs
AllLost-completed m [] h = tt
AllLost-completed m ((read bytes e buffer, fresh) ∷ cs) (r, l, h) = (
  r,
  ap (λ (b : Bool). not (ltb bytes 4) && b)
        (is_known-completed m (kind_of bytes (short_at buffer 0) (short_at buffer 2)) e)
      ∙ l,
  AllLost-completed m cs h,
)
AllLost-completed m ((c, fresh) ∷ cs) (r, l, h) = (r, l, AllLost-completed m cs h)

turns-lost :
    (m : Manager) (cs : List (Completion × ℕ))
    → AllLost m cs
    → turns m cs ≡ record m { receives = m.receives - length cs }
unfolding turns
turns-lost m [] h = ap (λ (n : ℕ). record m { receives = n }) (omega arith)
turns-lost m ((c, fresh) ∷ cs) (r, l, h) = rw (iocp_task-lost m c fresh r l) (
    turns-lost (completed m) cs (AllLost-completed m cs h)
    ∙ ap (λ (n : ℕ). record m { receives = n }) (omega arith))

iocp_task-other :
    (m : Manager) (c : Completion) (fresh : ℕ)
    → is_read c ≡ false
    → ((iocp_task m c fresh).events ≡ m.events) × ((iocp_task m c fresh).receives ≡ m.receives)
unfolding iocp_task
iocp_task-other m timeout fresh h = (refl, refl)
iocp_task-other m failed_write fresh h = (refl, refl)
iocp_task-other m (written bytes) fresh h = (ground arith, ground arith)
iocp_task-other m failed_read fresh h = cc
iocp_task-other m (read bytes e buffer) fresh h = cc

-- Without a posted receive nothing is heard again.
turns-deaf :
    (m : Manager) (cs : List (Completion × ℕ))
    → m.receives ≡ 0
    → Posted m cs
    → ((turns m cs).events ≡ m.events) × ((turns m cs).receives ≡ 0)
unfolding turns
turns-deaf m [] z p = (refl, z)
turns-deaf m ((c, fresh) ∷ cs) z (p, ps) = elim (Bool-cases (is_read c)) [
  | inl r ↦ absurd (omega (arith, p r))
  | inr o ↦
      let (es, rs) = iocp_task-other m c fresh o in
      let (es', rs') = turns-deaf (iocp_task m c fresh) cs (rs ∙ z) ps in (es' ∙ es, rs')
]

-- If as many receive completions as there are posted receives are each too short, failed or of an
-- unknown endpoint, then no receive is left, whatever completions of posted requests follow cause
-- no event and post no receive, and the lost completions have freed no buffer.
pub deafened :
    (m : Manager) (lost later : List (Completion × ℕ))
    → AllLost m lost
    → length lost ≡ m.receives
    → Posted (turns m lost) later
    → ((turns (turns m lost) later).events ≡ m.events)
      × ((turns (turns m lost) later).receives ≡ 0)
      × ((turns m lost).read_buffers ≡ m.read_buffers)
deafened m lost later h n p =
    let e = turns-lost m lost h in
    let none_left : (turns m lost).receives ≡ 0 = rw e (omega arith) in
    let (es, rs) = turns-deaf (turns m lost) later none_left p in (es ∙ rw e refl, rs, rw e refl)
