-- ===== src/Udp/SessionManager/Entries.antt =====
-- Entries of the maps: under the endpoint of their session, and how often an address stands there.
use server_core.Common.{
  ℕ, ◌+◌, ◌≤◌, ◌<◌, ◌≡◌, ◌∙◌, Bool, false, [], ◌∷◌, Option, none, some, ◌==◌, if◌then◌else◌, count,
  arith, Bool-cases, Option-cases, inl, inr,
}
use server_core.Udp.Endpoint.{Endpoint, endpoint_lt}
use server_core.Udp.SessionMap.{SessionMap, find, insert, erase, place, same_key}
use server_core.Udp.SessionManager.{Session}
use server_core.Udp.SessionManager.Sweep.{ids}

-- Every entry is kept under the endpoint of its session.
abbrev pub IsKeyed : (ℕ → Session) → SessionMap → Type 0
IsKeyed h [] = Unit {0}
IsKeyed h ((e, s) ∷ m) = ((h s).endpoint_ ≡ e) × IsKeyed h m

pub IsKeyed-agree :
    (h h' : ℕ → Session) (m : SessionMap)
    → ((a : ℕ) → 0 < count a (ids m) → (h' a).endpoint_ ≡ (h a).endpoint_)
    → IsKeyed h m
    → IsKeyed h' m
IsKeyed-agree h h' [] same k = tt
IsKeyed-agree h h' ((e, s) ∷ m) same (k, ks) =
    (same s (ground arith) ∙ k, IsKeyed-agree h h' m (λ a c. same a (omega arith)) ks)

pub count-place :
    (e : Endpoint) (s a : ℕ) (m : SessionMap)
    → count a (ids (place e s m)) ≡ (if a == s then 1 else 0) + count a (ids m)
unfolding place
count-place e s a [] = ground arith
count-place e s a ((j, t) ∷ m) = ground (arith, count-place e s a m)

pub IsKeyed-place :
    (h : ℕ → Session) (e : Endpoint) (s : ℕ) (m : SessionMap)
    → (h s).endpoint_ ≡ e
    → IsKeyed h m
    → IsKeyed h (place e s m)
unfolding place
IsKeyed-place h e s [] k ks = (k, tt)
IsKeyed-place h e s ((j, t) ∷ m) k (l, ks) = elim (Bool-cases (endpoint_lt e j)) [
  | inl before ↦ rw before (k, (l, ks))
  | inr after ↦ rw after (l, IsKeyed-place h e s m k ks)
]

pub IsKeyed-insert :
    (h : ℕ → Session) (e : Endpoint) (s : ℕ) (m : SessionMap)
    → (h s).endpoint_ ≡ e
    → IsKeyed h m
    → IsKeyed h (insert e s m)
unfolding insert
IsKeyed-insert h e s m k ks = elim (Option-cases (find e m)) [
  | inl new ↦ rw (insert, new) (IsKeyed-place h e s m k ks)
  | inr (t, old) ↦ rw (insert, old) ks
]

pub IsKeyed-erase :
    (h : ℕ → Session) (e : Endpoint) (m : SessionMap) → IsKeyed h m → IsKeyed h (erase e m)
unfolding erase
IsKeyed-erase h e [] ks = tt
IsKeyed-erase h e ((j, t) ∷ m) (l, ks) = elim (Bool-cases (same_key j e)) [
  | inl same ↦ rw same (IsKeyed-erase h e m ks)
  | inr other ↦ rw other (l, IsKeyed-erase h e m ks)
]

pub count-insert :
    (e : Endpoint) (s a : ℕ) (m : SessionMap)
    → count a (ids (insert e s m)) ≤ (if a == s then 1 else 0) + count a (ids m)
unfolding insert
count-insert e s a m = ground (arith, count-place e s a m)

abbrev pub same_id : Option ℕ → ℕ → Bool
same_id none a = false
same_id (some s) a = a == s

pub count-erase :
    (e : Endpoint) (a : ℕ) (m : SessionMap)
    → count a (ids (erase e m)) + (if same_id (find e m) a then 1 else 0) ≤ count a (ids m)
unfolding erase find
count-erase e a [] = ground arith
count-erase e a ((j, t) ∷ m) = ground (arith, count-erase e a m)
