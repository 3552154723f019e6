-- ===== src/Udp/SessionManager/Heartbeat.antt =====
-- A round of the heartbeat thread, and how long a silent session lives.
use server_core.Common.{
  ℕ, zero, suc, ◌<◌, ◌≡◌, inl, inr, refl, ap, sym, ◌∙◌, List, [], ◌∷◌, ◌++◌, leb, if◌then◌else◌,
  count, arith, Bool-cases,
}
use server_core.Udp.SessionMap.{SessionMap}
use server_core.Udp.SessionManager.{Session, Manager, increment16, below_minus_1}
use server_core.Udp.SessionManager.Loops.{sweep_sessions, sweep, reap_gone, reap}
use server_core.Udp.SessionManager.Sweep.{
  ids, next_alive, survivors, leavers, Lowered, sweep_sessions_lem, AllAlive, farewell,
  reap_gone_lem, leavers-AllAt, count-leavers, Quiet, round, survivors-AllAlive, count-survivors,
}

-- The heap after a round: the survivors have been lowered once.
pub record AfterRound (m t : Manager) : Type 0 where
  pub sessions : t.sessions_ ≡ survivors m.heap m.sessions_
  pub events : t.events ≡ farewell (leavers m.heap m.sessions_) m.events
  pub heap :
      (a : ℕ)
      → 0 < count a (ids (survivors m.heap m.sessions_))
      → (t.heap a).is_alive_ ≡ next_alive m.heap a
  pub quiet : Quiet t

module _ (m : Manager) (q : Quiet m) where
  abbrev swept : (ℕ → Session) × SessionMap × List ℕ
  swept = sweep_sessions m.heap m.sessions_

  abbrev leaving : List ℕ
  leaving = leavers m.heap m.sessions_

  swept_facts :
      (swept.1 ≡ survivors m.heap m.sessions_)
      × (m.gone ++ swept.2 ≡ leaving)
      × Lowered m.heap (ids m.sessions_) swept.0
  swept_facts =
      let (k, g, l) = sweep_sessions_lem m.heap m.sessions_ q.distinct in
      (k, ap (λ (ss : List ℕ). ss ++ swept.2) q.none_left ∙ g, l)

  reaped_facts :
      let r = reap_gone swept.0 leaving m.events in
      (r.1 ≡ []) × (r.2 ≡ farewell leaving m.events) × Lowered swept.0 leaving r.0
  reaped_facts =
      reap_gone_lem swept.0 leaving m.events
        (λ a. omega (arith, count-leavers m.heap m.sessions_ a, q.distinct a))
        (leavers-AllAt m.heap swept.0 m.sessions_ leaving q.alive
          (λ a c. ground (arith, swept_facts.2 a)))

  survivor-heap :
      (a : ℕ)
      → 0 < count a (ids (survivors m.heap m.sessions_))
      → ((reap_gone swept.0 leaving m.events).0 a).is_alive_ ≡ next_alive m.heap a
  survivor-heap a c =
      ground
        (arith, swept_facts.2 a, reaped_facts.2 a, count-leavers m.heap m.sessions_ a, q.distinct a)

  -- A round of the heartbeat thread, from a state between rounds where the sessions in the map are
  -- distinct and stand at -1 or above: the map keeps exactly the sessions that stand at -1 or above
  -- after one decrement, lowered once; the disconnect handler is called once for each of the
  -- others, in their order, and none of them is left over.
  pub round_lem : AfterRound m (round m)
  unfolding sweep reap
  round_lem = rw swept_facts.1 (record {
    sessions = swept_facts.0;
    events = reaped_facts.1;
    heap = survivor-heap;
    quiet = record {
      none_left = reaped_facts.0;
      distinct =
          rw swept_facts.0 (λ a. omega (arith, count-survivors m.heap m.sessions_ a, q.distinct a));
      alive = rw swept_facts.0 (
          survivors-AllAlive m.heap (reap_gone swept.0 leaving m.events).0 m.sessions_ q.alive
            survivor-heap);
    };
  })

-- Rounds with no datagram between them.
pub rounds : ℕ → Manager → Manager
rounds zero m = m
rounds (suc n) m = rounds n (round m)

-- The sessions whose counter allows for `n` rounds.
pub outlasting : ℕ → (ℕ → Session) → SessionMap → SessionMap
outlasting n h [] = []
outlasting n h ((e, s) ∷ m) =
    if leb n (increment16 (h s).is_alive_) then (e, s) ∷ outlasting n h m else outlasting n h m

outlasting-zero : (h : ℕ → Session) (m : SessionMap) → outlasting 0 h m ≡ m
unfolding outlasting
outlasting-zero h [] = refl
outlasting-zero h ((e, s) ∷ m) = ground (arith, outlasting-zero h m)

outlasting-survivors :
    (n : ℕ) (h h' : ℕ → Session) (m : SessionMap)
    → AllAlive h m
    → ((a : ℕ) → 0 < count a (ids (survivors h m)) → (h' a).is_alive_ ≡ next_alive h a)
    → outlasting n h' (survivors h m) ≡ outlasting (suc n) h m
unfolding outlasting survivors
outlasting-survivors n h h' [] all l = refl
outlasting-survivors n h h' ((e, s) ∷ m) all l =
    elim (Bool-cases (below_minus_1 (next_alive h s))) [
      | inl low ↦
          let rest = outlasting-survivors n h h' m all.2 (λ a c. l a (rw (low, survivors) c)) in
          rw low (ground (arith, rest, all.0, all.1))
      | inr high ↦
          let here = l s (rw high (ground arith)) in
          let rest = outlasting-survivors n h h' m all.2 (λ a c. l a (rw high (omega arith))) in
          rw high (ground (arith, rest, here, all.0, all.1))
    ]

-- After `n` rounds of the heartbeat thread with no datagram between them, from a state between
-- rounds, exactly the sessions whose `is_alive_` was at least `n - 1` are still in the map, in
-- their order; and the state is again one between rounds.
pub rounds-sessions :
    (n : ℕ) (m : Manager)
    → Quiet m
    → ((rounds n m).sessions_ ≡ outlasting n m.heap m.sessions_) × Quiet (rounds n m)
unfolding rounds
rounds-sessions zero m q = (sym (outlasting-zero m.heap m.sessions_), q)
rounds-sessions (suc n) m q =
    let r = round_lem m q in
    let (e, q') = rounds-sessions n (round m) r.quiet in
    (
      e ∙ rw r.sessions (outlasting-survivors n m.heap (round m).heap m.sessions_ q.alive r.heap),
      q',
    )
