-- ===== src/Tcp/ClientManager/Counter/Refused.antt =====
-- A lost increment of `current_`, and what comes of it.
use server_core.Common.{
  ℕ, suc, ◌+◌, ◌-◌, ◌%◌, ◌^◌, ◌<◌, ◌≡◌, refl, subst, ap, sym, ◌∙◌, true, false, List, [], ◌∷◌, ◌++◌,
  none, some, ltb, ◌==◌, count, length, length-append, arith,
}
use server_core.Tcp.ClientManager.{new_client, is_member, erase, remove_client}
use server_core.Tcp.ClientManager.Counter.{
  Counter, idle, tested, loaded, released, found, taken, Step, refuses, tests, loads, stores,
  accepts, misses, finds, loads_found, stores_less, Later, now, next,
}

chained : {c d e : Counter} → Later c d → Later d e → Later c e
chained h now = h
chained h (next g st) = next (chained h g) st

-- Nobody is in a call, and no client waits.
abbrev pub at_rest : (clients : List ℕ) → (current : ℕ) → Counter
at_rest clients current = record {
  manager = record { clients_ = clients; limit_ = 10000; current_ = current };
  waiting = [];
  creating = idle;
  removing = released;
}

-- The accesses of `RemoveClient` with nothing between them make up `remove_client`.
removes_alone :
    (clients : List ℕ) (current a : ℕ)
    → is_member a clients ≡ true
    → Later (at_rest clients current) (record (at_rest clients current) {
      manager = remove_client (at_rest clients current).manager a;
    })
unfolding remove_client
removes_alone clients current a h =
    rw (remove_client, h)
      (next (next (next now (finds a refl h)) (loads_found a refl)) (stores_less a current refl))

-- The accesses of `NewClient` with nothing between them make up `new_client`.
pub creates_alone :
    (clients : List ℕ) (current fresh : ℕ)
    → ltb current 10000 ≡ true
    → 0 + count fresh clients ≡ 0
    → let (made, m) = new_client (at_rest clients current).manager fresh in
      (made ≡ some fresh)
      × Later
          (at_rest clients current)
          (record (at_rest clients current) { manager = m; waiting = fresh ∷ [] })
unfolding new_client
creates_alone clients current fresh room new = rw room (
  refl,
  next (next (next now (tests fresh refl room new)) (loads fresh refl)) (stores fresh current refl),
)

left :
    (x : ℕ) (xs : List ℕ) (current : ℕ)
    → is_member x (x ∷ xs) ≡ true
    → record (at_rest (x ∷ xs) current) {
      manager = remove_client (at_rest (x ∷ xs) current).manager x;
    }
      ≡ at_rest xs ((current + 2 ^ 32 - 1) % 2 ^ 32)
unfolding remove_client
left x xs current here = let same : x == x ≡ true = ground arith in rw (here, same) refl

-- All clients leave, one fewer having been counted.
all_leave :
    (clients : List ℕ) (current : ℕ)
    → length clients ≡ suc current
    → suc current < 10000
    → Later (at_rest clients current) (at_rest [] (2 ^ 32 - 1))
all_leave [] current e room = absurd (ground (arith, e))
all_leave (x ∷ []) current e room =
    let here : is_member x (x ∷ []) ≡ true = ground arith in
    let none_left : current ≡ 0 = ground (arith, e) in
    subst (λ (n : ℕ). Later (at_rest (x ∷ []) n) (at_rest [] (2 ^ 32 - 1))) (sym none_left)
      (subst (Later (at_rest (x ∷ []) 0)) (left x [] 0 here) (removes_alone (x ∷ []) 0 x here))
all_leave (x ∷ y ∷ ys) current e room =
    let here : is_member x (x ∷ y ∷ ys) ≡ true = ground arith in
    let less : (current + 2 ^ 32 - 1) % 2 ^ 32 ≡ length ys = ground (arith, e, room) in
    chained
      (subst (Later (at_rest (x ∷ y ∷ ys) current))
        (left x (y ∷ ys) current here ∙ ap (at_rest (y ∷ ys)) less)
        (removes_alone (x ∷ y ∷ ys) current x here))
      (all_leave (y ∷ ys) (length ys) refl (ground (arith, e, room)))

-- While the client `x` is removed, `NewClient` makes the client `fresh`; its accept completes.
loses_increment :
    (x fresh : ℕ) (xs : List ℕ)
    → suc (length xs) < 10000
    → count fresh (x ∷ xs) ≡ 0
    → Later (at_rest (x ∷ xs) (suc (length xs))) (at_rest (xs ++ fresh ∷ []) (length xs))
loses_increment x fresh xs room new =
    let n = suc (length xs) in
    let here : is_member x (x ∷ xs) ≡ true = ground arith in
    let waits : is_member fresh (fresh ∷ []) ≡ true = ground arith in
    let same : x == x ≡ true = ground arith in
    let same_fresh : fresh == fresh ≡ true = ground arith in
    let less : (suc (length xs) + 2 ^ 32 - 1) % 2 ^ 32 ≡ length xs = ground (arith, room) in
    let new_here : 0 + count fresh (x ∷ xs) ≡ 0 = ground (arith, new) in
    let reading : Later (at_rest (x ∷ xs) n) _ =
      next (next now (finds x refl here)) (loads_found x refl) in
    let creating : Later (at_rest (x ∷ xs) n) _ =
      next
        (next (next reading (tests fresh refl (ground (arith, room)) new_here)) (loads fresh refl))
        (stores fresh n refl) in
    let ended : Counter =
      record (at_rest (erase x (x ∷ xs) ++ fresh ∷ []) ((n + 2 ^ 32 - 1) % 2 ^ 32)) {
        waiting = erase fresh (fresh ∷ []);
      } in
    let ends : ended ≡ at_rest (xs ++ fresh ∷ []) (length xs) =
      rw (same, same_fresh) (ap (at_rest (xs ++ fresh ∷ [])) less) in
    subst (Later (at_rest (x ∷ xs) n)) ends
      (next (next creating (stores_less x n refl)) (accepts fresh refl waits))

idle-tested : {fresh : ℕ} → ¬ (idle ≡ tested fresh)
idle-tested e = cc

idle-loaded : {fresh current : ℕ} → ¬ (idle ≡ loaded fresh current)
idle-loaded e = cc

released-found : {a : ℕ} → ¬ (released ≡ found a)
released-found e = cc

released-taken : {a current : ℕ} → ¬ (released ≡ taken a current)
released-taken e = cc

nobody : ¬ (false ≡ true)
nobody e = cc

record IsStuck (c : Counter) : Type 0 where
  clients : c.manager.clients_ ≡ []
  waiting : c.waiting ≡ []
  limit : c.manager.limit_ ≡ 10000
  current : c.manager.current_ ≡ 2 ^ 32 - 1
  creating : c.creating ≡ idle
  removing : c.removing ≡ released

Step-IsStuck : {c d : Counter} → Step c d → IsStuck c → IsStuck d
Step-IsStuck (refuses i f) stuck = stuck
Step-IsStuck {c} (tests fresh i t new) stuck =
    absurd (ground (arith, t, stuck.limit, stuck.current))
Step-IsStuck (loads fresh i) stuck = absurd (idle-tested (sym stuck.creating ∙ i))
Step-IsStuck (stores fresh v i) stuck = absurd (idle-loaded (sym stuck.creating ∙ i))
Step-IsStuck {c} (accepts a f h) stuck = absurd (nobody (sym (ap (is_member a) stuck.waiting) ∙ h))
Step-IsStuck (misses a f h) stuck = stuck
Step-IsStuck {c} (finds a f h) stuck = absurd (nobody (sym (ap (is_member a) stuck.clients) ∙ h))
Step-IsStuck (loads_found a f) stuck = absurd (released-found (sym stuck.removing ∙ f))
Step-IsStuck (stores_less a v f) stuck = absurd (released-taken (sym stuck.removing ∙ f))

Later-IsStuck : {c d : Counter} → Later c d → IsStuck c → IsStuck d
Later-IsStuck now stuck = stuck
Later-IsStuck (next h st) stuck = Step-IsStuck st (Later-IsStuck h stuck)

-- From a state of fewer than 10000 clients, at least one, all of them in the table and exactly
-- counted, nobody in a call, with the address of no client at hand for the next: accesses of the
-- threads can follow after which all clients have left, such that from then on, whatever accesses
-- follow, no client is in the table, none waits, and `NewClient` refuses.
pub refused_forever :
    (x fresh : ℕ) (xs : List ℕ)
    → suc (length xs) < 10000
    → count fresh (x ∷ xs) ≡ 0
    → (d : Counter) × Later (at_rest (x ∷ xs) (suc (length xs))) d
      × ((e : Counter)
          → Later d e
          → (e.manager.clients_ ≡ [])
            × (e.waiting ≡ [])
            × ((a : ℕ) → (new_client e.manager a).0 ≡ none))
unfolding new_client
refused_forever x fresh xs room new = (
  at_rest [] (2 ^ 32 - 1),
  chained (loses_increment x fresh xs room new) (
      all_leave (xs ++ fresh ∷ []) (length xs) (ground (arith, length-append xs (fresh ∷ [])))
        room),
  λ e h.
      let stuck = Later-IsStuck h (record {
        clients = refl;
        waiting = refl;
        limit = refl;
        current = refl;
        creating = refl;
        removing = refl;
      }) in
      (stuck.clients, stuck.waiting, λ a. ground (arith, stuck.limit, stuck.current)),
)
