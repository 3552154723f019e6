-- ===== src/Udp/SessionManager/Examples.antt =====
-- A manager with two receives posted, and its sessions.
use server_core.Common.{
  count, ℕ, ◌+◌, ◌-◌, ◌^◌, ◌≡◌, ◌≢◌, refl, true, false, [], ◌∷◌, none, some, arith, if◌then◌else◌,
  ◌==◌, IsDistinct,
}
use server_core.Udp.Endpoint.{Endpoint}
use server_core.Udp.Packet.{Data}
use server_core.Udp.SessionMap.{SessionMap, find, same_key_iff}
use server_core.Udp.SessionManager.{
  Session, Manager, Completion, read, written, accepted, sent, new_manager, iocp_task, kind_of,
}
use server_core.Udp.SessionManager.Receives.{reaches_recv, turns, iocp_task-receives, deafened}
use server_core.Udp.SessionManager.Handshake.{syn_datagram, ack_datagram, handshake}
use server_core.Udp.SessionManager.Sweep.{Quiet, round}
use server_core.Udp.SessionManager.Heartbeat.{
  AfterRound, round_lem, rounds, outlasting, rounds-sessions,
}
use server_core.Udp.SessionManager.Late.{
  resume_all, deliveries, reaps, departures, late_packets_served,
}
use server_core.Udp.SessionManager.Overflow.{burst, burst_lost}

abbrev pub here : Endpoint
here = record { s_addr = 5; sin_port = 80 }

abbrev pub there : Endpoint
there = record { s_addr = 6; sin_port = 80 }

abbrev pub blank : Data
blank = record { size = 0; packet_type = 0; body = 0 ∷ 0 ∷ 0 ∷ 0 ∷ [] }

-- Every session has been heard `n` times more than counted down.
abbrev pub heard : ℕ → Endpoint → ℕ → Session
heard n e s = record { is_alive_ = n; endpoint_ = e }

abbrev manager : SessionMap → SessionMap → (ℕ → Session) → Manager
manager sessions pending heap = record {
  is_inited_all = 0x0111;
  have_to_stop_ = false;
  is_with_iocp_ = true;
  sessions_ = sessions;
  pending_sessions_ = pending;
  heap = heap;
  gone = [];
  receives = 2;
  read_buffers = 2;
  write_buffers = 0;
  recycled = blank;
  events = [];
}

abbrev idle : Manager
idle = manager [] [] (heard 0 here)

-- A heartbeat of nobody known.
abbrev stray : Completion
stray = read 4 there (0 ∷ 0 ∷ 0xff ∷ 0xff ∷ [])

iocp_task-receives_example :
    (iocp_task idle stray 1).receives + 1 ≡ 2 + (if reaches_recv idle stray then 1 else 0)
iocp_task-receives_example = iocp_task-receives idle stray 1 refl (λ _. omega arith)

-- One such datagram for each of the two receives: the SYN that follows cannot be received.
nobody : reaches_recv idle stray ≡ false
unfolding kind_of find
nobody = refl

deafened_example :
    ((turns (turns idle ((stray, 1) ∷ (stray, 2) ∷ [])) ((written 8, 3) ∷ [])).events ≡ [])
    × ((turns (turns idle ((stray, 1) ∷ (stray, 2) ∷ [])) ((written 8, 3) ∷ [])).receives ≡ 0)
    × ((turns idle ((stray, 1) ∷ (stray, 2) ∷ [])).read_buffers ≡ 2)
deafened_example =
    deafened idle ((stray, 1) ∷ (stray, 2) ∷ []) ((written 8, 3) ∷ [])
      (refl, nobody, (refl, nobody, tt)) refl (λ h. cc, tt)

empty_map : find there [] ≡ none
unfolding find
empty_map = refl

handshake_example :
    let t =
      iocp_task
        (iocp_task idle (read 6 there (syn_datagram 7 9 [])) 1)
        (read 6 there (ack_datagram []))
        2 in
    (find there t.sessions_ ≡ some 1)
    × (find there t.pending_sessions_ ≡ none)
    × ((j : Endpoint)
        → j ≢ there
        → (find j t.sessions_ ≡ find j idle.sessions_)
          × (find j t.pending_sessions_ ≡ find j idle.pending_sessions_))
    × (t.heap 1 ≡ record { is_alive_ = 0; endpoint_ = there })
    × (t.events ≡ accepted 1 ∷ sent there (some (2 ∷ 0 ∷ 0xfe ∷ 0xff ∷ 7 ∷ 9 ∷ [])) ∷ [])
    × (t.receives ≡ 2)
handshake_example =
    handshake idle there 1 2 7 9 [] [] refl (omega arith) (omega arith) empty_map empty_map

pub find_one :
    (e : Endpoint) (s : ℕ)
    → (find e ((e, s) ∷ []) ≡ some s)
      × ((j : Endpoint) (t : ℕ) → find j ((e, s) ∷ []) ≡ some t → (t ≡ s) × (j ≡ e))
unfolding find
find_one e s = (
  ground (arith, same_key_iff e e),
  λ j t h. (ground (arith, h), ground (arith, h, same_key_iff e j)),
)

-- Session 1 was heard from, session 2 was not.
abbrev heap_two : ℕ → Session
heap_two s = if s == 1 then heard 3 here s else heard 0xffff there s

abbrev two : Manager
two = manager ((here, 1) ∷ (there, 2) ∷ []) [] heap_two

two-IsDistinct : IsDistinct (1 ∷ 2 ∷ [])
two-IsDistinct a = ground arith

abbrev two-Quiet : Quiet two
two-Quiet = record {
  none_left = refl;
  distinct = two-IsDistinct;
  alive = (omega arith, refl, (omega arith, refl, tt));
}

round_lem_example : AfterRound two (round two)
round_lem_example = round_lem two two-Quiet

rounds-sessions_example :
    ((rounds 3 two).sessions_ ≡ outlasting 3 heap_two two.sessions_) × Quiet (rounds 3 two)
rounds-sessions_example = rounds-sessions 3 two two-Quiet

abbrev pub busy : ℕ → Manager
busy n = manager ((here, 1) ∷ []) [] (heard n here)

burst_lost_example :
    let t = round (burst 2 (busy (2 ^ 15 - 1)) (0 ∷ 0 ∷ 1 ∷ 0 ∷ []) 1) in
    (t.sessions_ ≡ []) × (t.gone ≡ 1 ∷ []) × (t.events ≡ [])
burst_lost_example =
    burst_lost 2 (busy (2 ^ 15 - 1)) (0 ∷ 0 ∷ 1 ∷ 0 ∷ []) here 1 refl refl refl (omega arith)
      (omega arith)

abbrev pub fresh_manager : Manager
fresh_manager = new_manager true true false (heard 0 here) blank

-- Session 1 has just been taken out of the map, while two threads hold a packet of it.
abbrev leaving : Manager
leaving = record (manager [] [] (heard 0xfffe here)) { gone = 1 ∷ [] }

late_packets_served_example :
    let late = resume_all leaving 1 ([] ∷ [] ∷ []) in
    (deliveries 1 late.events ≡ 2)
    × (count 1 (reaps 3 late).gone ≡ 0)
    × (departures 1 (reaps 3 late).events ≡ 1)
late_packets_served_example =
    late_packets_served leaving 1 3 ([] ∷ [] ∷ []) refl refl (omega arith) (omega arith)
