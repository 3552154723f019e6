-- ===== src/Udp/SessionMap/Abstract.antt =====
-- What `std::map` promises of the two maps of sessions: in any history of calls they answer as a
-- function from endpoints does, and their entries stand in the order of `operator<`.
use server_core.Common.{
  ℕ, ◌≡◌, refl, sym, subst, true, false, List, [], ◌∷◌, Option, none, some, if◌then◌else◌, arith,
  Bool-cases, Option-cases, inl, inr,
}
use server_core.Udp.Endpoint.{Endpoint, endpoint_lt, endpoint_eq}
use server_core.Udp.Endpoint.Order.{endpoint_lt-IsKeyOrder}
use server_core.Udp.SessionMap.{
  SessionMap, same_key, same_key_iff, find, place, insert, erase, find-insert, find-erase,
  insert-found, same_key_iff,
}

-- The calls that change a map.
pub data Edit : Type 0 where
  inserts : Endpoint → ℕ → Edit
  erases : Endpoint → Edit

abbrev pub edit : SessionMap → Edit → SessionMap
edit m (inserts k s) = insert k s m
edit m (erases k) = erase k m

abbrev pub edits : SessionMap → List Edit → SessionMap
edits m [] = m
edits m (e ∷ es) = edits (edit m e) es

-- A map as a function, where the same key is an equal one by `operator==`.
abbrev pub Lookup : Type 0
Lookup = Endpoint → Option ℕ

abbrev pub edit_lookup : Lookup → Edit → Lookup
edit_lookup f (inserts k s) j = elim (f k) [
  | some t ↦ f j
  | none ↦ if endpoint_eq k j then some s else f j
]
edit_lookup f (erases k) j = if endpoint_eq k j then none else f j

abbrev pub edits_lookup : Lookup → List Edit → Lookup
edits_lookup f [] = f
edits_lookup f (e ∷ es) = edits_lookup (edit_lookup f e) es

abbrev pub AllAbove : Endpoint → SessionMap → Type 0
AllAbove k [] = Unit {0}
AllAbove k ((j, s) ∷ m) = (endpoint_lt k j ≡ true) × AllAbove k m

-- Each key is less than all that follow it.
abbrev pub IsSorted : SessionMap → Type 0
IsSorted [] = Unit {0}
IsSorted ((j, s) ∷ m) = AllAbove j m × IsSorted m

lt_trans :
    (a b c : Endpoint) → endpoint_lt a b ≡ true → endpoint_lt b c ≡ true → endpoint_lt a c ≡ true
lt_trans = endpoint_lt-IsKeyOrder.transitive

lt_total :
    (a b : Endpoint) → same_key a b ≡ false → endpoint_lt b a ≡ false → endpoint_lt a b ≡ true
unfolding same_key
lt_total a b h k = ground arith

AllAbove-trans :
    (a b : Endpoint) (m : SessionMap) → endpoint_lt a b ≡ true → AllAbove b m → AllAbove a m
AllAbove-trans a b [] h above = tt
AllAbove-trans a b ((j, s) ∷ m) h above = (lt_trans a b j h above.0, AllAbove-trans a b m h above.1)

AllAbove-place :
    (a k : Endpoint) (s : ℕ) (m : SessionMap)
    → endpoint_lt a k ≡ true
    → AllAbove a m
    → AllAbove a (place k s m)
unfolding place
AllAbove-place a k s [] h above = (h, tt)
AllAbove-place a k s ((j, t) ∷ m) h above = elim (Bool-cases (endpoint_lt k j)) [
  | inl e ↦ rw e (h, above)
  | inr e ↦ rw e (above.0, AllAbove-place a k s m h above.1)
]

place-IsSorted :
    (k : Endpoint) (s : ℕ) (m : SessionMap) → find k m ≡ none → IsSorted m → IsSorted (place k s m)
unfolding place find
place-IsSorted k s [] h sorted = (tt, tt)
place-IsSorted k s ((j, t) ∷ m) h sorted = elim (Bool-cases (endpoint_lt k j)) [
  | inl e ↦ rw e ((e, AllAbove-trans k j m e sorted.0), sorted)
  | inr e ↦ elim (Bool-cases (same_key j k)) [
    | inl same ↦ absurd (ground (arith, h, same))
    | inr other ↦ rw e (
      AllAbove-place j k s m (lt_total j k other e) sorted.0,
      place-IsSorted k s m (rw other at h) sorted.1,
    )
  ]
]

AllAbove-erase : (a k : Endpoint) (m : SessionMap) → AllAbove a m → AllAbove a (erase k m)
unfolding erase
AllAbove-erase a k [] above = tt
AllAbove-erase a k ((j, t) ∷ m) above = elim (Bool-cases (same_key j k)) [
  | inl e ↦ rw e (AllAbove-erase a k m above.1)
  | inr e ↦ rw e (above.0, AllAbove-erase a k m above.1)
]

erase-IsSorted : (k : Endpoint) (m : SessionMap) → IsSorted m → IsSorted (erase k m)
unfolding erase
erase-IsSorted k [] sorted = tt
erase-IsSorted k ((j, t) ∷ m) sorted = elim (Bool-cases (same_key j k)) [
  | inl e ↦ rw e (erase-IsSorted k m sorted.1)
  | inr e ↦ rw e (AllAbove-erase j k m sorted.0, erase-IsSorted k m sorted.1)
]

same_key-eq : (a b : Endpoint) → same_key a b ≡ endpoint_eq a b
same_key-eq a b =
    let laws = endpoint_lt-IsKeyOrder in ground (arith, same_key_iff a b, laws.eq_iff a b)

abbrev Answers : SessionMap → Lookup → Type 0
Answers m f = (j : Endpoint) → find j m ≡ f j

edit-Answers :
    (m : SessionMap) (f : Lookup) (e : Edit) → Answers m f → Answers (edit m e) (edit_lookup f e)
edit-Answers m f (inserts k s) same j = elim (Option-cases (find k m)) [
  | inl absent ↦ ground (arith, find-insert j k s m absent, same k, same j, absent, same_key-eq k j)
  | inr (t, present) ↦ ground (arith, insert-found k s t m present, same k, same j, present)
]
edit-Answers m f (erases k) same j = ground (arith, find-erase j k m, same j, same_key-eq k j)

insert-absent :
    (k : Endpoint) (s : ℕ) (m : SessionMap) → find k m ≡ none → insert k s m ≡ place k s m
unfolding insert
insert-absent k s m h = rw (insert, h) refl

insert-IsSorted : (k : Endpoint) (s : ℕ) (m : SessionMap) → IsSorted m → IsSorted (insert k s m)
insert-IsSorted k s m sorted = elim (Option-cases (find k m)) [
  | inl absent ↦
      subst IsSorted (sym (insert-absent k s m absent)) (place-IsSorted k s m absent sorted)
  | inr (t, present) ↦ subst IsSorted (sym (insert-found k s t m present)) sorted
]

edit-IsSorted : (m : SessionMap) (e : Edit) → IsSorted m → IsSorted (edit m e)
edit-IsSorted m (inserts k s) sorted = insert-IsSorted k s m sorted
edit-IsSorted m (erases k) sorted = erase-IsSorted k m sorted

edits_from :
    (es : List Edit) (m : SessionMap) (f : Lookup)
    → Answers m f
    → IsSorted m
    → Answers (edits m es) (edits_lookup f es) × IsSorted (edits m es)
edits_from [] m f same sorted = (same, sorted)
edits_from (e ∷ es) m f same sorted =
    edits_from es (edit m e) (edit_lookup f e) (edit-Answers m f e same) (edit-IsSorted m e sorted)

-- After any calls of `insert` and `erase` on an empty map of sessions, `find` answers for each
-- endpoint as the function does that the same calls make of the empty one, with keys compared by
-- `operator==`; and the entries stand in ascending order by `operator<`.
pub edits_refine :
    (es : List Edit)
    → ((j : Endpoint) → find j (edits [] es) ≡ edits_lookup (λ j. none) es j)
      × IsSorted (edits [] es)
unfolding find
edits_refine es = edits_from es [] (λ j. none) (λ j. refl) tt
