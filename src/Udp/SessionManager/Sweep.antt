-- ===== src/Udp/SessionManager/Sweep.antt =====
-- The two loops of the heartbeat thread against plain descriptions of what they do.
use server_core.Common.{
  ℕ, ◌+◌, ◌^◌, ◌≤◌, ◌<◌, ◌≡◌, inl, inr, refl, ap, ◌∙◌, true, false, List, [], ◌∷◌, ◌==◌,
  if◌then◌else◌, count, IsDistinct, arith, Bool-cases,
}
use server_core.Udp.SessionMap.{SessionMap}
use server_core.Udp.SessionManager.{
  Session, Manager, Event, disconnected, decrement16, below_minus_1, is_minus_3, set_alive,
}
use server_core.Udp.SessionManager.Loops.{sweep_sessions, sweep, reap_gone, reap}

abbrev pub ids : SessionMap → List ℕ
ids [] = []
ids ((e, s) ∷ m) = s ∷ ids m

abbrev pub next_alive : (ℕ → Session) → ℕ → ℕ
next_alive h s = decrement16 (h s).is_alive_

-- What a round keeps and drops, read off the heap before it.
unfoldable pub survivors : (ℕ → Session) → SessionMap → SessionMap
survivors h [] = []
survivors h ((e, s) ∷ m) =
    if below_minus_1 (next_alive h s) then survivors h m else (e, s) ∷ survivors h m

unfoldable pub leavers : (ℕ → Session) → SessionMap → List ℕ
leavers h [] = []
leavers h ((e, s) ∷ m) = if below_minus_1 (next_alive h s) then s ∷ leavers h m else leavers h m

survivors-agree :
    (h h' : ℕ → Session) (m : SessionMap)
    → ((a : ℕ) → 0 < count a (ids m) → h' a ≡ h a)
    → (survivors h' m ≡ survivors h m) × (leavers h' m ≡ leavers h m)
unfolding survivors leavers
survivors-agree h h' [] same = (refl, refl)
survivors-agree h h' ((e, s) ∷ m) same =
    let (k, g) = survivors-agree h h' m (λ a c. same a (omega arith)) in
    rw (same s (ground arith), k, g) (refl, refl)

-- The heap after a loop that lowers each of the given sessions once.
abbrev pub Lowered : (ℕ → Session) → List ℕ → (ℕ → Session) → Type 0
Lowered h ss h' =
    (a : ℕ) → (h' a).is_alive_ ≡ (if count a ss == 0 then (h a).is_alive_ else next_alive h a)

-- The loop in place does what `survivors` and `leavers` say.
pub sweep_sessions_lem :
    (h : ℕ → Session) (m : SessionMap)
    → IsDistinct (ids m)
    → let r = sweep_sessions h m in
      (r.1 ≡ survivors h m) × (r.2 ≡ leavers h m) × Lowered h (ids m) r.0
unfolding sweep_sessions survivors leavers
sweep_sessions_lem h [] d = (refl, refl, λ a. refl)
sweep_sessions_lem h ((e, s) ∷ m) d =
    let h₁ = set_alive h s (next_alive h s) in
    let (k, g, l) = sweep_sessions_lem h₁ m (λ a. omega (arith, d a)) in
    let (k', g') = survivors-agree h h₁ m (λ a c. ground (arith, d s)) in
    (ground (arith, k, k'), ground (arith, g, g'), λ a. ground (arith, l a, d s))

-- Between rounds every session in the map stands at -1 or above.
abbrev pub AllAlive : (ℕ → Session) → SessionMap → Type 0
AllAlive h [] = Unit {0}
AllAlive h ((e, s) ∷ m) =
    ((h s).is_alive_ < 2 ^ 16) × (below_minus_1 (h s).is_alive_ ≡ false) × AllAlive h m

-- The disconnect events of the given sessions, in order.
abbrev pub farewell : List ℕ → List Event → List Event
farewell [] es = es
farewell (s ∷ ss) es = farewell ss (disconnected s ∷ es)

abbrev pub AllAt : (ℕ → Session) → ℕ → List ℕ → Type 0
AllAt h x [] = Unit {0}
AllAt h x (s ∷ ss) = ((h s).is_alive_ ≡ x) × AllAt h x ss

AllAt-agree :
    (h h' : ℕ → Session) (x : ℕ) (ss : List ℕ)
    → ((a : ℕ) → 0 < count a ss → h' a ≡ h a)
    → AllAt h x ss
    → AllAt h' x ss
AllAt-agree h h' x [] same all = tt
AllAt-agree h h' x (s ∷ ss) same all = (
  ap (λ (y : Session). y.is_alive_) (same s (ground arith)) ∙ all.0,
  AllAt-agree h h' x ss (λ a c. same a (omega arith)) all.1,
)

-- Sessions that stand at -2 are all told good-bye in one pass.
pub reap_gone_lem :
    (h : ℕ → Session) (ss : List ℕ) (es : List Event)
    → IsDistinct ss
    → AllAt h 0xfffe ss
    → let r = reap_gone h ss es in (r.1 ≡ []) × (r.2 ≡ farewell ss es) × Lowered h ss r.0
unfolding reap_gone
reap_gone_lem h [] es d all = (refl, refl, λ a. refl)
reap_gone_lem h (s ∷ ss) es d all =
    let h₁ = set_alive h s (next_alive h s) in
    let rest = AllAt-agree h h₁ 0xfffe ss (λ a c. ground (arith, d s)) all.1 in
    let (left, es', l) = reap_gone_lem h₁ ss (disconnected s ∷ es) (λ a. omega (arith, d a)) rest in
    let last : is_minus_3 (next_alive h s) ≡ true = ground (arith, all.0) in
    rw last (left, es', λ a. ground (arith, l a, d s))

pub leavers-AllAt :
    (h h' : ℕ → Session) (m : SessionMap) (ss : List ℕ)
    → AllAlive h m
    → ((a : ℕ) → 0 < count a (ids m) → (h' a).is_alive_ ≡ next_alive h a)
    → AllAt h' 0xfffe (leavers h m)
unfolding leavers
leavers-AllAt h h' [] ss all l = tt
leavers-AllAt h h' ((e, s) ∷ m) ss all l =
    let rest = leavers-AllAt h h' m ss all.2 (λ a c. l a (omega arith)) in
    elim (Bool-cases (below_minus_1 (next_alive h s))) [
      | inl low ↦ rw low (ground (arith, l s, all.0, all.1), rest)
      | inr high ↦ rw high rest
    ]

pub count-leavers :
    (h : ℕ → Session) (m : SessionMap) (a : ℕ)
    → count a (leavers h m) + count a (ids (survivors h m)) ≡ count a (ids m)
unfolding leavers survivors
count-leavers h [] a = refl
count-leavers h ((e, s) ∷ m) a = ground (arith, count-leavers h m a)

-- What holds between rounds.
pub record Quiet (m : Manager) : Type 0 where
  pub none_left : m.gone ≡ []
  pub distinct : IsDistinct (ids m.sessions_)
  pub alive : AllAlive m.heap m.sessions_

abbrev pub round : Manager → Manager
round m = reap (sweep m)

pub survivors-AllAlive :
    (h h' : ℕ → Session) (m : SessionMap)
    → AllAlive h m
    → ((a : ℕ) → 0 < count a (ids (survivors h m)) → (h' a).is_alive_ ≡ next_alive h a)
    → AllAlive h' (survivors h m)
unfolding survivors
survivors-AllAlive h h' [] all l = tt
survivors-AllAlive h h' ((e, s) ∷ m) all l = elim (Bool-cases (below_minus_1 (next_alive h s))) [
  | inl low ↦ rw low (survivors-AllAlive h h' m all.2 (λ a c. l a (rw (low, survivors) c)))
  | inr high ↦
      let here = l s (rw high (ground arith)) in
      rw high (
        omega (arith, here),
        ground (arith, here),
        survivors-AllAlive h h' m all.2 (λ a c. l a (rw high (omega arith))),
      )
]

pub count-survivors :
    (h : ℕ → Session) (m : SessionMap) (a : ℕ) → count a (ids (survivors h m)) ≤ count a (ids m)
count-survivors h m a = omega (arith, count-leavers h m a)
