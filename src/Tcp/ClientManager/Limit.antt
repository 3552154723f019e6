-- ===== src/Tcp/ClientManager/Limit.antt =====
-- As long as `NewClient` and `RemoveClient` are not interleaved: the counter of the clients counts
-- them, and their limit holds.
use server_core.Common.{
  ℕ, suc, ◌+◌, ◌≤◌, ◌≡◌, refl, true, false, List, [], ◌∷◌, if◌then◌else◌, ltb, ◌==◌, count,
  count-append, length, length-append, arith, Bool-cases, inl, inr,
}
use server_core.Tcp.ClientManager.{
  ClientManager, new_client, add_client, is_member, erase, remove_client, System, asked, Step, asks,
  accepts, disconnects, Reach, start, later,
}

pub is_member-count : (a : ℕ) (xs : List ℕ) → is_member a xs ≡ ltb 0 (count a xs)
is_member-count a [] = refl
is_member-count a (x ∷ xs) = ground (arith, is_member-count a xs)

length-erase : (a : ℕ) (xs : List ℕ) → is_member a xs ≡ true → suc (length (erase a xs)) ≡ length xs
length-erase a [] h = absurd (ground arith)
length-erase a (x ∷ xs) h = ground (arith, length-erase a xs)

pub count-erase :
    (a b : ℕ) (xs : List ℕ)
    → count b (erase a xs) + (if is_member a xs then (if b == a then 1 else 0) else 0) ≡ count b xs
count-erase a b [] = refl
count-erase a b (x ∷ xs) = ground (arith, count-erase a b xs)

-- No address is used twice, and the counter is exact.
pub record Inv (s : System) : Type 0 where
  pub limit : s.manager.limit_ ≡ 10000
  pub counted : s.manager.current_ ≡ length s.waiting + length s.manager.clients_
  pub bounded : s.manager.current_ ≤ 10000
  pub distinct : (a : ℕ) → count a s.waiting + count a s.manager.clients_ ≤ 1

asked-Inv :
    {s : System} (fresh : ℕ)
    → count fresh s.waiting + count fresh s.manager.clients_ ≡ 0
    → Inv s
    → Inv (asked s fresh)
unfolding new_client
asked-Inv {s} fresh new inv = record {
  limit = ground (arith, inv.limit);
  counted = ground (arith, inv.limit, inv.counted, inv.bounded);
  bounded = ground (arith, inv.limit, inv.bounded);
  distinct = λ a. ground (arith, inv.distinct a, new);
}

accepts-Inv :
    {s : System} (a : ℕ)
    → is_member a s.waiting ≡ true
    → Inv s
    → Inv (record { manager = add_client s.manager a; waiting = erase a s.waiting })
accepts-Inv {s} a h inv = record {
  limit = inv.limit;
  counted =
      omega
        (arith, inv.counted, length-erase a s.waiting h, length-append s.manager.clients_ (a ∷ []));
  bounded = inv.bounded;
  distinct = λ b. ground (
    arith,
    inv.distinct b,
    h,
    count-erase a b s.waiting,
    count-append b s.manager.clients_ (a ∷ []),
  );
}

disconnects-Inv :
    {s : System} (a : ℕ) → Inv s → Inv (record s { manager = remove_client s.manager a })
unfolding remove_client
disconnects-Inv {s} a inv = elim (Bool-cases (is_member a s.manager.clients_)) [
  | inl here ↦
      let less = length-erase a s.manager.clients_ here in
      rw (remove_client, here)
        (record {
          limit = inv.limit;
          counted = omega (arith, inv.counted, inv.bounded, less);
          bounded = omega (arith, inv.counted, inv.bounded, less);
          distinct = λ b. omega (arith, inv.distinct b, count-erase a b s.manager.clients_);
        })
  | inr gone ↦ rw (remove_client, gone) inv
]

Step-Inv : {s t : System} → Step s t → Inv s → Inv t
Step-Inv (asks fresh new) inv = asked-Inv fresh new inv
Step-Inv (accepts a h) inv = accepts-Inv a h inv
Step-Inv (disconnects a) inv = disconnects-Inv a inv

pub Reach-Inv : {s : System} → Reach s → Inv s
Reach-Inv start = record {
  limit = refl;
  counted = refl;
  bounded = omega arith;
  distinct = λ a. omega arith;
}
Reach-Inv (later r st) = Step-Inv st (Reach-Inv r)

pub removed-gone :
    {s : System} (a : ℕ) → Inv s → is_member a (remove_client s.manager a).clients_ ≡ false
unfolding remove_client
removed-gone {s} a inv = ground (
  arith,
  inv.distinct a,
  is_member-count a s.manager.clients_,
  is_member-count a (erase a s.manager.clients_),
  count-erase a a s.manager.clients_,
)

pub removed-current :
    {s : System} (a : ℕ)
    → Inv s
    → (remove_client s.manager a).current_ + (if is_member a s.manager.clients_ then 1 else 0)
      ≡ s.manager.current_
unfolding remove_client
removed-current {s} a inv =
    ground (arith, inv.counted, inv.bounded, length-erase a s.manager.clients_)

pub remove_absent :
    (m : ClientManager) (a : ℕ) → is_member a m.clients_ ≡ false → remove_client m a ≡ m
unfolding remove_client
remove_absent m a h = rw h refl

-- In every reachable state, `RemoveClient` lowers the counter by one exactly if the client is in
-- the table, and doing it again changes nothing.
pub remove_client-twice :
    {s : System} (a : ℕ)
    → Reach s
    → let m = remove_client s.manager a in
      (remove_client m a ≡ m)
      × (m.current_ + (if is_member a s.manager.clients_ then 1 else 0) ≡ s.manager.current_)
remove_client-twice {s} a r =
    let inv = Reach-Inv r in
    (remove_absent (remove_client s.manager a) a (removed-gone a inv), removed-current a inv)

-- What `RemoveClient` and `NewClient` do to the table.
pub remove_client-count :
    (m : ClientManager) (a b : ℕ)
    → count b (remove_client m a).clients_
        + (if is_member a m.clients_ then (if b == a then 1 else 0) else 0)
      ≡ count b m.clients_
unfolding remove_client
remove_client-count m a b = ground (arith, count-erase a b m.clients_)
