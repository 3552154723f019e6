-- ===== src/Udp/SessionManager/Handshake.antt =====
-- SYN and ACK: how an endpoint becomes a session.
use server_core.Common.{
  ℕ, ◌+◌, ◌-◌, ◌≤◌, ◌<◌, ◌≡◌, ◌≢◌, refl, ap, ◌∙◌, true, List, [], ◌∷◌, none, some, length, drop,
  arith,
}
use server_core.Udp.Endpoint.{Endpoint}
use server_core.Udp.Packet.{Data, packet_with_body, wire}
use server_core.Udp.SessionMap.{
  find, insert, erase, same_key, same_key_iff, find-insert, find-erase, insert-found,
}
use server_core.Udp.SessionManager.{
  Manager, read, kind_of, iocp_task, finish, on_syn, on_ack, send, completed, update, sent,
  accepted,
}

-- The three-way handshake's datagrams as they stand at the head of a buffer of 512 bytes.
abbrev pub syn_datagram : ℕ → ℕ → List ℕ → List ℕ
syn_datagram a b rest = 2 ∷ 0 ∷ 0xff ∷ 0xff ∷ a ∷ b ∷ rest

abbrev pub ack_datagram : List ℕ → List ℕ
ack_datagram rest = 2 ∷ 0 ∷ 0xfd ∷ 0xff ∷ rest

same_key_refl : (e : Endpoint) → same_key e e ≡ true
same_key_refl e = (same_key_iff e e).1 refl

-- The answer to a SYN, whatever the packet memory held.
syn_ack-wire :
    (old : Data) (a b : ℕ) (rest : List ℕ)
    → 2 ≤ length old.body
    → (d : Data) × (packet_with_body old 2 0xfffe (a ∷ b ∷ rest) ≡ some d)
      × (wire d ≡ some (2 ∷ 0 ∷ 0xfe ∷ 0xff ∷ a ∷ b ∷ []))
unfolding packet_with_body wire
syn_ack-wire old a b rest h = (
  record { size = 2; packet_type = 0xfffe; body = a ∷ b ∷ drop 2 old.body },
  ground arith,
  ground arith,
)

-- The manager after a SYN, and after an ACK of the session `s`.
abbrev after_syn : Manager → Endpoint → (fresh a b : ℕ) → Manager
after_syn m e fresh a b = record m {
  pending_sessions_ = insert e fresh m.pending_sessions_;
  heap = update m.heap fresh (record { is_alive_ = 0; endpoint_ = e });
  receives = m.receives - 1 + 1;
  read_buffers = m.read_buffers - 1 + 1;
  write_buffers = m.write_buffers + 1;
  events = sent e (some (2 ∷ 0 ∷ 0xfe ∷ 0xff ∷ a ∷ b ∷ [])) ∷ m.events;
}

abbrev after_ack : Manager → Endpoint → ℕ → Manager
after_ack m e s = record m {
  pending_sessions_ = erase e m.pending_sessions_;
  sessions_ = insert (m.heap s).endpoint_ s m.sessions_;
  receives = m.receives - 1 + 1;
  read_buffers = m.read_buffers - 1 + 1;
  events = accepted s ∷ m.events;
}

on_syn-sends :
    (m : Manager) (e : Endpoint) (buffer : List ℕ) (fresh : ℕ) (d : Data)
    → packet_with_body m.recycled 2 0xfffe (drop 4 buffer) ≡ some d
    → on_syn m e buffer fresh
      ≡ send
          (record m {
            heap = update m.heap fresh (record { is_alive_ = 0; endpoint_ = e });
            pending_sessions_ = insert e fresh m.pending_sessions_;
          })
          e
          d
unfolding on_syn
on_syn-sends m e buffer fresh d built = rw (built, on_syn)

finish-send :
    (m : Manager) (e : Endpoint) (d : Data)
    → m.is_with_iocp_ ≡ true
    → finish (send m e d) ≡ record m {
      write_buffers = m.write_buffers + 1;
      events = sent e (wire d) ∷ m.events;
      receives = m.receives + 1;
      read_buffers = m.read_buffers - 1 + 1;
    }
unfolding finish send
finish-send m e d w = ground arith

on_syn-eq :
    (m : Manager) (e : Endpoint) (fresh a b : ℕ) (rest : List ℕ)
    → m.is_with_iocp_ ≡ true
    → 2 ≤ length m.recycled.body
    → finish (on_syn (completed m) e (syn_datagram a b rest) fresh) ≡ after_syn m e fresh a b
on_syn-eq m e fresh a b rest w h =
    let (d, built, bytes) = syn_ack-wire m.recycled a b rest h in
    ap finish (on_syn-sends (completed m) e (syn_datagram a b rest) fresh d built)
    ∙ finish-send _ e d w
    ∙ rw bytes

syn_turn :
    (m : Manager) (e : Endpoint) (fresh a b : ℕ) (rest : List ℕ)
    → m.is_with_iocp_ ≡ true
    → 2 ≤ length m.recycled.body
    → iocp_task m (read 6 e (syn_datagram a b rest)) fresh ≡ after_syn m e fresh a b
unfolding iocp_task kind_of
syn_turn m e fresh a b rest w h = on_syn-eq m e fresh a b rest w h

ack_turn :
    (m : Manager) (e : Endpoint) (s fresh : ℕ) (rest : List ℕ)
    → m.is_with_iocp_ ≡ true
    → find e m.pending_sessions_ ≡ some s
    → iocp_task m (read 6 e (ack_datagram rest)) fresh ≡ after_ack m e s
unfolding iocp_task kind_of finish on_ack
ack_turn m e s fresh rest w p = rw (p, w)

-- A SYN datagram and then an ACK datagram of an endpoint that is in neither map, on a manager bound
-- to its port with a receive posted and packet memory of at least two bytes: the endpoint's session
-- is the one that the SYN made, with `is_alive_` 0, and it waits no more; every other endpoint is
-- found as before; the SYN was answered by a datagram of size 2, type -2 and the client's two
-- bytes, and one thread was started that calls the accept handler, with the session; as many
-- receives are posted as before.
pub handshake :
    (m : Manager) (e : Endpoint) (fresh fresh' a b : ℕ) (rest rest' : List ℕ)
    → m.is_with_iocp_ ≡ true
    → 0 < m.receives
    → 2 ≤ length m.recycled.body
    → find e m.pending_sessions_ ≡ none
    → find e m.sessions_ ≡ none
    → let t =
        iocp_task
          (iocp_task m (read 6 e (syn_datagram a b rest)) fresh)
          (read 6 e (ack_datagram rest'))
          fresh' in
      (find e t.sessions_ ≡ some fresh)
      × (find e t.pending_sessions_ ≡ none)
      × ((j : Endpoint)
          → j ≢ e
          → (find j t.sessions_ ≡ find j m.sessions_)
            × (find j t.pending_sessions_ ≡ find j m.pending_sessions_))
      × (t.heap fresh ≡ record { is_alive_ = 0; endpoint_ = e })
      × (t.events ≡ accepted fresh ∷ sent e (some (2 ∷ 0 ∷ 0xfe ∷ 0xff ∷ a ∷ b ∷ [])) ∷ m.events)
      × (t.receives ≡ m.receives)
handshake m e fresh fresh' a b rest rest' w r h p q =
    let m₁ = after_syn m e fresh a b in
    let waits : find e m₁.pending_sessions_ ≡ some fresh =
      find-insert e e fresh m.pending_sessions_ p ∙ ground (arith, same_key_refl e) in
    let made : m₁.heap fresh ≡ record { is_alive_ = 0; endpoint_ = e } = ground arith in
    rw (syn_turn m e fresh a b rest w h, ack_turn m₁ e fresh fresh' rest' w waits, made)
      (
        find-insert e e fresh m.sessions_ q ∙ ground (arith, same_key_refl e),
        find-erase e e m₁.pending_sessions_ ∙ ground (arith, same_key_refl e),
        λ j ne. (
          ground (arith, find-insert j e fresh m.sessions_ q, same_key_iff e j),
          ground (
            arith,
            find-erase j e m₁.pending_sessions_,
            find-insert j e fresh m.pending_sessions_ p,
            same_key_iff e j,
          ),
        ),
        refl,
        refl,
        omega arith,
      )

-- On a manager bound to its port, an ACK of an endpoint that has a session already and another one
-- waiting, which waits for that endpoint alone and is in the map of sessions for none: the
-- thread is started that calls the accept handler with the waiting session, and then no endpoint
-- leads to it in either map.
pub ack_of_known_endpoint :
    (m : Manager) (e : Endpoint) (old s fresh : ℕ) (rest : List ℕ)
    → m.is_with_iocp_ ≡ true
    → find e m.sessions_ ≡ some old
    → find e m.pending_sessions_ ≡ some s
    → (m.heap s).endpoint_ ≡ e
    → ((j : Endpoint) → find j m.sessions_ ≢ some s)
    → ((j : Endpoint) → find j m.pending_sessions_ ≡ some s → j ≡ e)
    → let t = iocp_task m (read 6 e (ack_datagram rest)) fresh in
      (t.events ≡ accepted s ∷ m.events)
      × ((j : Endpoint) → (find j t.sessions_ ≢ some s) × (find j t.pending_sessions_ ≢ some s))
ack_of_known_endpoint m e old s fresh rest w f p at new only =
    rw (ack_turn m e s fresh rest w p, at, insert-found e s old m.sessions_ f)
      (
        refl,
        λ j. (
          new j,
          λ z. ground (arith, find-erase j e m.pending_sessions_, same_key_iff e j, only j),
        ),
      )
