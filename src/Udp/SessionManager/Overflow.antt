-- ===== src/Udp/SessionManager/Overflow.antt =====
-- A client that sends faster than the heartbeat thread counts down: `is_alive_` runs over.
use server_core.Common.{
  ℕ, zero, suc, ◌+◌, ◌-◌, ◌^◌, ◌≤◌, ◌<◌, ◌≡◌, refl, ◌∙◌, true, false, List, [], ◌∷◌, length,
  if◌then◌else◌, arith,
}
use server_core.Udp.Endpoint.{Endpoint}
use server_core.Udp.SessionManager.{
  Session, Manager, Event, on_data, below_minus_1, is_minus_3, decrement16, above_minus_2,
  increment16, set_alive,
}
use server_core.Udp.SessionManager.Loops.{sweep, sweep_sessions, reap, reap_gone}
use server_core.Udp.SessionManager.Sweep.{round}

-- Packets of one session with no round of the heartbeat thread between them.
pub burst : ℕ → Manager → List ℕ → ℕ → Manager
burst zero m buffer s = m
burst (suc n) m buffer s = burst n (on_data m buffer s) buffer s

on_data-alive :
    (m : Manager) (buffer : List ℕ) (s : ℕ)
    → ((on_data m buffer s).heap s).is_alive_ ≡ increment16 (m.heap s).is_alive_
unfolding on_data
on_data-alive m buffer s = ground arith

on_data-events :
    (m : Manager) (buffer : List ℕ) (s : ℕ)
    → length (on_data m buffer s).events
      ≡ length m.events + (if above_minus_2 (increment16 (m.heap s).is_alive_) then 1 else 0)
unfolding on_data
on_data-events m buffer s = ground arith

on_data-silent :
    (m : Manager) (buffer : List ℕ) (s : ℕ)
    → above_minus_2 (increment16 (m.heap s).is_alive_) ≡ false
    → (on_data m buffer s).events ≡ m.events
unfolding on_data
on_data-silent m buffer s h = ground arith

-- As long as a session's `is_alive_` stays below 2 ^ 15, each of its data packets calls the packet
-- handler once and raises `is_alive_` by one.
pub burst_delivered :
    (n : ℕ) (m : Manager) (buffer : List ℕ) (s : ℕ)
    → (m.heap s).is_alive_ + n < 2 ^ 15
    → (length (burst n m buffer s).events ≡ length m.events + n)
      × (((burst n m buffer s).heap s).is_alive_ ≡ (m.heap s).is_alive_ + n)
unfolding burst
burst_delivered zero m buffer s h = (omega arith, omega arith)
burst_delivered (suc n) m buffer s h =
    let a = on_data-alive m buffer s in
    let (es, x) = burst_delivered n (on_data m buffer s) buffer s (omega (arith, a)) in
    (ground (arith, es, on_data-events m buffer s), omega (arith, x, a))

burst_dropped :
    (n : ℕ) (m : Manager) (buffer : List ℕ) (s : ℕ)
    → 2 ^ 15 - 1 ≤ (m.heap s).is_alive_
    → (m.heap s).is_alive_ + n < 2 ^ 16 - 1
    → ((burst n m buffer s).events ≡ m.events)
      × (((burst n m buffer s).heap s).is_alive_ ≡ (m.heap s).is_alive_ + n)
      × ((burst n m buffer s).sessions_ ≡ m.sessions_)
      × ((burst n m buffer s).gone ≡ m.gone)
unfolding burst on_data
burst_dropped zero m buffer s lo hi = (refl, omega arith, refl, refl)
burst_dropped (suc n) m buffer s lo hi =
    let a = on_data-alive m buffer s in
    let (es, x, ss, g) =
      burst_dropped n (on_data m buffer s) buffer s (omega (arith, a)) (omega (arith, a)) in
    (es ∙ on_data-silent m buffer s (ground arith), omega (arith, x, a), ss, g)

swept_out :
    (h : ℕ → Session) (e : Endpoint) (s : ℕ)
    → below_minus_1 (decrement16 (h s).is_alive_) ≡ true
    → sweep_sessions h ((e, s) ∷ []) ≡ (set_alive h s (decrement16 (h s).is_alive_), [], s ∷ [])
unfolding sweep_sessions
swept_out h e s low = rw low refl

left_behind :
    (h : ℕ → Session) (s : ℕ) (es : List Event)
    → is_minus_3 (decrement16 (h s).is_alive_) ≡ false
    → reap_gone h (s ∷ []) es ≡ (set_alive h s (decrement16 (h s).is_alive_), s ∷ [], es)
unfolding reap_gone
left_behind h s es other = rw other refl

-- A session that stands between -32767 and -2 goes without a word.
round-unheard :
    (m : Manager) (e : Endpoint) (s : ℕ)
    → m.sessions_ ≡ (e, s) ∷ []
    → m.gone ≡ []
    → 2 ^ 15 < (m.heap s).is_alive_
    → (m.heap s).is_alive_ < 2 ^ 16 - 1
    → ((round m).sessions_ ≡ []) × ((round m).gone ≡ s ∷ []) × ((round m).events ≡ m.events)
unfolding sweep reap
round-unheard m e s ss g lo hi =
    let x = decrement16 (m.heap s).is_alive_ in
    let h = set_alive m.heap s x in
    let first = swept_out m.heap e s (ground arith) in
    let second = left_behind h s m.events (ground arith) in
    rw (ss, g, first, second) (refl, refl, refl)

-- If the only session stands at 2 ^ 15 - 1, none is on its way out, and from 2 to 2 ^ 15 - 1 more
-- of its data packets come before the next round of the heartbeat thread, none of them starts a
-- thread that calls a handler, and that round takes the session out of the map without the
-- disconnect handler being called; it is left among those on their way out.
pub burst_lost :
    (n : ℕ) (m : Manager) (buffer : List ℕ) (e : Endpoint) (s : ℕ)
    → m.sessions_ ≡ (e, s) ∷ []
    → m.gone ≡ []
    → (m.heap s).is_alive_ ≡ 2 ^ 15 - 1
    → 2 ≤ n
    → n < 2 ^ 15
    → let t = round (burst n m buffer s) in
      (t.sessions_ ≡ []) × (t.gone ≡ s ∷ []) × (t.events ≡ m.events)
burst_lost n m buffer e s ss g x lo hi =
    let (es, x', ss', g') = burst_dropped n m buffer s (omega arith) (omega arith) in
    let (gone_from, left, es') =
      round-unheard (burst n m buffer s) e s (ss' ∙ ss) (g' ∙ g) (omega arith) (omega arith) in
    (gone_from, left, es' ∙ es)
