-- ===== src/Tcp/ClientManager/Successor.antt =====
-- A client that is given the address of one that has gone.
use server_core.Common.{ℕ, ◌<◌, ◌≡◌, ap, ◌∙◌, true, false, List, [], ◌∷◌, ◌++◌, some, arith}
use server_core.Tcp.ClientManager.{
  ClientManager, new_client, add_client, is_member, erase, remove_client, System, Reach,
}
use server_core.Tcp.ClientManager.Limit.{Reach-Inv, removed-gone, removed-current}

is_member-append_self : (a : ℕ) (xs : List ℕ) → is_member a (xs ++ (a ∷ [])) ≡ true
is_member-append_self a [] = ground arith
is_member-append_self a (x ∷ xs) = ground (arith, is_member-append_self a xs)

erase-append_self : (a : ℕ) (xs : List ℕ) → is_member a xs ≡ false → erase a (xs ++ (a ∷ [])) ≡ xs
erase-append_self a [] h = ground arith
erase-append_self a (x ∷ xs) h = ground (arith, erase-append_self a xs)

new_client-clients :
    (m : ClientManager) (fresh : ℕ)
    → ((new_client m fresh).1.clients_ ≡ m.clients_)
      × (m.current_ < m.limit_ → (new_client m fresh).0 ≡ some fresh)
unfolding new_client
new_client-clients m fresh = (ground arith, λ h. ground (arith, h))

-- The last of the clients is removed.
remove_client-last :
    (m : ClientManager) (a : ℕ)
    → is_member a m.clients_ ≡ false
    → (remove_client (add_client m a) a).clients_ ≡ m.clients_
unfolding remove_client
remove_client-last m a gone =
    rw (remove_client, is_member-append_self a m.clients_) (erase-append_self a m.clients_ gone)

removed-limit : (m : ClientManager) (a : ℕ) → (remove_client m a).limit_ ≡ m.limit_
unfolding remove_client
removed-limit m a = ground arith

-- In every reachable state with a client in the table: when it is removed, its address is handed
-- out again by `NewClient` and the new client is added, a second disconnect completion of the old
-- one takes the new client out of the table.
pub disconnect_of_successor :
    {s : System} (a : ℕ)
    → Reach s
    → is_member a s.manager.clients_ ≡ true
    → let freed = remove_client s.manager a in
      let again = new_client freed a in
      let joined = add_client again.1 a in
      (again.0 ≡ some a)
      × (is_member a joined.clients_ ≡ true)
      × ((remove_client joined a).clients_ ≡ freed.clients_)
      × (is_member a (remove_client joined a).clients_ ≡ false)
disconnect_of_successor {s} a r here =
    let inv = Reach-Inv r in
    let freed = remove_client s.manager a in
    let gone = removed-gone a inv in
    let (same, made) = new_client-clients freed a in
    let absent = ap (is_member a) same ∙ gone in
    let back = remove_client-last (new_client freed a).1 a absent ∙ same in
    let room : freed.current_ < freed.limit_ =
      ground
        (arith, removed-current a inv, here, inv.bounded, inv.limit, removed-limit s.manager a) in
    (
      made room,
      is_member-append_self a (new_client freed a).1.clients_,
      back,
      ap (is_member a) back ∙ gone,
    )
