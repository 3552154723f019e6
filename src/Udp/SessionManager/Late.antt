-- ===== src/Udp/SessionManager/Late.antt =====
-- The data branch of core/udp_server/src/session_manager.cpp against the heartbeat thread: an I/O
-- thread has found a session under `ReadLock`, and before it counts its packet ("have to be safe")
-- the heartbeat thread takes the session out of the map. The second loop waits for -3.
use server_core.Common.{
  ℕ, zero, suc, ◌+◌, ◌-◌, ◌%◌, ◌^◌, ◌≤◌, ◌<◌, ◌≡◌, refl, subst, ap, ◌∙◌, true, false, List, [], ◌∷◌,
  length, ◌==◌, if◌then◌else◌, count, arith, Bool-cases, inl, inr,
}
use server_core.Udp.SessionManager.{
  Session, Manager, Event, sent, accepted, received, disconnected, decrement16, increment16,
  is_minus_3, above_minus_2, set_alive, on_data, finish, recv,
}
use server_core.Udp.SessionManager.Loops.{reap, reap_gone}

-- What is left to do of the data branch when the session has been found.
unfoldable pub resume_data : Manager → (session : ℕ) → (buffer : List ℕ) → Manager
unfolding on_data finish
resume_data m session buffer = finish (on_data m buffer session)

-- One after another, each with its datagram.
abbrev pub resume_all : Manager → (session : ℕ) → (buffers : List (List ℕ)) → Manager
resume_all m s [] = m
resume_all m s (b ∷ bs) = resume_all (resume_data m s b) s bs

abbrev pub reaps : ℕ → Manager → Manager
reaps zero m = m
reaps (suc n) m = reaps n (reap m)

-- How often the disconnect handler was called with a session, and how many threads were started that
-- call the packet handler with it.
abbrev pub departures : ℕ → List Event → ℕ
departures s [] = 0
departures s (disconnected t ∷ es) = (if t == s then 1 else 0) + departures s es
departures s (sent e d ∷ es) = departures s es
departures s (accepted t ∷ es) = departures s es
departures s (received t d ∷ es) = departures s es

abbrev pub deliveries : ℕ → List Event → ℕ
deliveries s [] = 0
deliveries s (received t d ∷ es) = (if t == s then 1 else 0) + deliveries s es
deliveries s (sent e d ∷ es) = deliveries s es
deliveries s (accepted t ∷ es) = deliveries s es
deliveries s (disconnected t ∷ es) = deliveries s es

-- What a turn of the second loop does to a session that is not in the vector, and to one that is.
reap_gone-absent :
    (h : ℕ → Session) (ss : List ℕ) (es : List Event) (s : ℕ)
    → count s ss ≡ 0
    → let (h', left, es') = reap_gone h ss es in
      (h' s ≡ h s) × (count s left ≡ 0) × (departures s es' ≡ departures s es)
unfolding reap_gone
reap_gone-absent h [] es s z = (refl, refl, refl)
reap_gone-absent h (t ∷ ss) es s z =
    let x = decrement16 (h t).is_alive_ in
    elim (Bool-cases (is_minus_3 x)) [
      | inl last ↦
          let (same, gone, silent) =
            reap_gone-absent (set_alive h t x) ss (disconnected t ∷ es) s (ground (arith, z)) in
          rw last (ground (arith, same, z), gone, ground (arith, silent, z))
      | inr other ↦
          let (same, gone, silent) =
            reap_gone-absent (set_alive h t x) ss es s (ground (arith, z)) in
          rw other (ground (arith, same, z), ground (arith, gone, z), silent)
    ]

-- What the turn leaves of the session, of its place in the vector, and of its events.
abbrev Reaped : ℕ → (ℕ → Session) → List Event → (ℕ → Session) × List ℕ × List Event → Type 0
Reaped s h es r =
    let x = decrement16 (h s).is_alive_ in
    ((r.0 s).is_alive_ ≡ x)
    × (count s r.1 ≡ (if is_minus_3 x then 0 else 1))
    × (departures s r.2 ≡ departures s es + (if is_minus_3 x then 1 else 0))

reap_gone-head :
    (h : ℕ → Session) (ss : List ℕ) (es : List Event) (s : ℕ)
    → count s ss ≡ 0
    → Reaped s h es (reap_gone h (s ∷ ss) es)
unfolding reap_gone
reap_gone-head h ss es s z =
    let x = decrement16 (h s).is_alive_ in
    elim (Bool-cases (is_minus_3 x)) [
      | inl last ↦
          let (same, gone, silent) =
            reap_gone-absent (set_alive h s x) ss (disconnected s ∷ es) s z in
          rw last
            (ap (λ (v : Session). v.is_alive_) same ∙ ground arith, gone, ground (arith, silent))
      | inr other ↦
          let (same, gone, silent) = reap_gone-absent (set_alive h s x) ss es s z in
          rw other (
            ap (λ (v : Session). v.is_alive_) same ∙ ground arith,
            ground (arith, gone),
            ground (arith, silent),
          )
    ]

reap_gone-once :
    (h : ℕ → Session) (ss : List ℕ) (es : List Event) (s : ℕ)
    → count s ss ≡ 1
    → Reaped s h es (reap_gone h ss es)
unfolding reap_gone
reap_gone-once h [] es s k = absurd (omega (arith, k))
reap_gone-once h (t ∷ ss) es s k = elim (Bool-cases (s == t)) [
  | inl here ↦
      let at : s ≡ t = ground (arith, here) in
      subst (λ (u : ℕ). Reaped s h es (reap_gone h (u ∷ ss) es)) at
        (reap_gone-head h ss es s (ground (arith, here, k)))
  | inr there ↦
      let y = decrement16 (h t).is_alive_ in
      let h₁ = set_alive h t y in
      let kept : h₁ s ≡ h s = ground (arith, there) in
      let rest : count s ss ≡ 1 = ground (arith, there, k) in
      let flipped : (t == s) ≡ false = ground (arith, there) in
      elim (Bool-cases (is_minus_3 y)) [
        | inl last ↦
            let (a, c, d) = reap_gone-once h₁ ss (disconnected t ∷ es) s rest in
            rw last (rw kept at a, rw kept at c, ground (arith, d, kept, flipped))
        | inr other ↦
            let (a, c, d) = reap_gone-once h₁ ss es s rest in
            rw other (rw kept at a, ground (arith, c, kept, there), rw kept at d)
      ]
]

reap-once :
    (m : Manager) (s : ℕ)
    → count s m.gone ≡ 1
    → Reaped s m.heap m.events ((reap m).heap, (reap m).gone, (reap m).events)
unfolding reap
reap-once m s k = reap_gone-once m.heap m.gone m.events s k

-- The counter of a session that was taken out of the map, `k` packets later.
abbrev pub late_by : ℕ → ℕ
late_by k = (2 ^ 16 - 2 + k) % 2 ^ 16

-- The turn whose number is that of the late packets, counted from 0, is the last for the session.
reaps-late :
    (n k : ℕ) (m : Manager) (s : ℕ)
    → n ≤ k + 1
    → k < 2 ^ 15
    → count s m.gone ≡ 1
    → (m.heap s).is_alive_ ≡ late_by k
    → (count s (reaps n m).gone ≡ (if n == k + 1 then 0 else 1))
      × (departures s (reaps n m).events ≡ departures s m.events + (if n == k + 1 then 1 else 0))
reaps-late zero k m s le few k1 a = (ground (arith, k1), ground arith)
reaps-late (suc n) zero m s le few k1 a =
    let (_, left, calls) = reap-once m s k1 in
    let at : n ≡ 0 = omega (arith, le) in rw at (ground (arith, left, a), ground (arith, calls, a))
reaps-late (suc n) (suc k) m s le few k1 a =
    let (after, left, calls) = reap-once m s k1 in
    let other : is_minus_3 (decrement16 (m.heap s).is_alive_) ≡ false = ground (arith, a, few) in
    let (l, c) =
      reaps-late n k (reap m) s (omega (arith, le)) (omega (arith, few)) (rw other at left)
        (ground (arith, after, a, few)) in
    (ground (arith, l), ground (arith, c, calls, other))

resume_data-late :
    (m : Manager) (s : ℕ) (b : List ℕ) (j : ℕ)
    → j + 1 < 2 ^ 15
    → (m.heap s).is_alive_ ≡ late_by j
    → let t = resume_data m s b in
      ((t.heap s).is_alive_ ≡ late_by (suc j))
      × (t.gone ≡ m.gone)
      × (departures s t.events ≡ departures s m.events)
      × (deliveries s t.events ≡ deliveries s m.events + 1)
unfolding resume_data on_data finish recv
resume_data-late m s b j few a =
    let x = increment16 (m.heap s).is_alive_ in
    let counted : x ≡ late_by (suc j) = ground (arith, a) in
    let above : above_minus_2 x ≡ true = ground (arith, a, few) in
    let self : (s == s) ≡ true = ground arith in
    elim (Bool-cases m.is_with_iocp_) [
      | inl on ↦ rw (on, above, self) (counted, refl, refl, omega arith)
      | inr off ↦ rw (off, above, self) (counted, refl, refl, omega arith)
    ]

resume_all-late :
    (bs : List (List ℕ)) (j : ℕ) (m : Manager) (s : ℕ)
    → j + length bs < 2 ^ 15
    → (m.heap s).is_alive_ ≡ late_by j
    → let t = resume_all m s bs in
      ((t.heap s).is_alive_ ≡ late_by (j + length bs))
      × (t.gone ≡ m.gone)
      × (departures s t.events ≡ departures s m.events)
      × (deliveries s t.events ≡ deliveries s m.events + length bs)
resume_all-late [] j m s few a = (ground (arith, a), refl, refl, omega arith)
resume_all-late (b ∷ bs) j m s few a =
    let m₁ = resume_data m s b in
    let one = resume_data-late m s b j (omega (arith, few)) a in
    let (a₂, g₂, d₂, r₂) = resume_all-late bs (suc j) m₁ s (omega (arith, few)) one.0 in
    (ground (arith, a₂), g₂ ∙ one.1, d₂ ∙ one.2, omega (arith, r₂, one.3))

-- A session that the heartbeat thread has just taken out of the map with its counter at -2 and that
-- stands once in the vector, while fewer than 2 ^ 15 I/O threads have found it and not yet counted
-- their packets: when they all go on before the second loop, a thread is started for each of them
-- that calls the packet handler; and of the turns of the second loop that follow, the one whose
-- number, from 0, is that of those packets takes the session out of the vector and calls the
-- disconnect handler, and none before does.
pub late_packets_served :
    (m : Manager) (s n : ℕ) (buffers : List (List ℕ))
    → count s m.gone ≡ 1
    → (m.heap s).is_alive_ ≡ 0xfffe
    → length buffers < 2 ^ 15
    → n ≤ length buffers + 1
    → let late = resume_all m s buffers in
      (deliveries s late.events ≡ deliveries s m.events + length buffers)
      × (count s (reaps n late).gone ≡ (if n == length buffers + 1 then 0 else 1))
      × (departures s (reaps n late).events
          ≡ departures s m.events + (if n == length buffers + 1 then 1 else 0))
late_packets_served m s n buffers k a few le =
    let late = resume_all m s buffers in
    let (counted, same, quiet, served) =
      resume_all-late buffers 0 m s (omega (arith, few)) (ground (arith, a)) in
    let (left, calls) =
      reaps-late n (length buffers) late s le few (rw same k) (ground (arith, counted)) in
    (served, left, ground (arith, calls, quiet))
