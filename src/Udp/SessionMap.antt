-- ===== src/Udp/SessionMap.antt =====
-- `std::map<Endpoint, Session*>` as core/udp_server/src/session_manager.cpp uses it: entries in the
-- order of `operator<`, at most one for each key. Two keys are the same when neither is less.
pub mod Abstract
mod Examples
use server_core.Common.{
  ℕ, ◌≡◌, ◌↔◌, Bool, true, not, ◌||◌, List, [], ◌∷◌, Option, none, some, if◌then◌else◌, arith, refl,
}
use server_core.Udp.Endpoint.{Endpoint, endpoint_lt}

-- A session is known by its address.
abbrev pub SessionMap : Type 0
SessionMap = List (Endpoint × ℕ)

-- The keys are equivalent for the map.
unfoldable pub same_key : Endpoint → Endpoint → Bool
same_key a b = not (endpoint_lt a b || endpoint_lt b a)

unfoldable pub find : Endpoint → SessionMap → Option ℕ
find k [] = none
find k ((j, s) ∷ m) = if same_key j k then some s else find k m

-- Before the first greater key.
unfoldable pub place : Endpoint → ℕ → SessionMap → SessionMap
place k s [] = (k, s) ∷ []
place k s ((j, t) ∷ m) = if endpoint_lt k j then (k, s) ∷ (j, t) ∷ m else (j, t) ∷ place k s m

-- `insert` leaves an entry that is there as it is.
unfoldable pub insert : Endpoint → ℕ → SessionMap → SessionMap
unfolding place
insert k s m = elim (find k m) [ none ↦ place k s m | some t ↦ m ]

unfoldable pub erase : Endpoint → SessionMap → SessionMap
erase k [] = []
erase k ((j, s) ∷ m) = if same_key j k then erase k m else (j, s) ∷ erase k m

pub same_key_iff : (a b : Endpoint) → (same_key a b ≡ true) ↔ (a ≡ b)
unfolding same_key endpoint_lt
same_key_iff a b = ground arith

find-place :
    (j k : Endpoint) (s : ℕ) (m : SessionMap)
    → find k m ≡ none
    → find j (place k s m) ≡ (if same_key k j then some s else find j m)
unfolding find place
find-place j k s [] h = refl
find-place j k s ((i, t) ∷ m) h =
    ground (arith, find-place j k s m, same_key_iff i j, same_key_iff i k, same_key_iff k j)

pub find-insert :
    (j k : Endpoint) (s : ℕ) (m : SessionMap)
    → find k m ≡ none
    → find j (insert k s m) ≡ (if same_key k j then some s else find j m)
unfolding insert
find-insert j k s m h = rw (insert, h) (find-place j k s m h)

pub find-erase :
    (j k : Endpoint) (m : SessionMap)
    → find j (erase k m) ≡ (if same_key k j then none else find j m)
unfolding find erase
find-erase j k [] = ground arith
find-erase j k ((i, t) ∷ m) =
    ground (arith, find-erase j k m, same_key_iff i j, same_key_iff i k, same_key_iff k j)

pub insert-found : (k : Endpoint) (s t : ℕ) (m : SessionMap) → find k m ≡ some t → insert k s m ≡ m
unfolding insert
insert-found k s t m h = rw (h, insert)
