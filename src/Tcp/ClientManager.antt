-- ===== src/Tcp/ClientManager.antt =====
-- core/server/ClientManager.h and ClientManager.cpp. A client is known by its address; the address
-- that `client_pool_.Malloc()` gives is an argument. Each operation below is run as a whole;
-- `NewClient` is called by the thread of `Server::Run` alone, without a lock, and Counter cuts it and
-- `RemoveClient` at their accesses of `current_`.
pub mod Limit
pub mod Successor
pub mod Counter
pub mod Pooled
use server_core.Common.{
  ℕ, ◌+◌, ◌-◌, ◌%◌, ◌^◌, ◌≡◌, Bool, true, false, ◌||◌, List, [], ◌∷◌, ◌++◌, Option, none, some,
  if◌then◌else◌, ltb, ◌==◌, count,
}

pub record ClientManager : Type 0 where
  pub clients_ : List ℕ
  pub limit_ : ℕ
  pub current_ : ℕ

-- The constructor.
abbrev pub new_manager : ClientManager
new_manager = record { clients_ = []; limit_ = 10000; current_ = 0 }

-- `NewClient`
unfoldable pub new_client : ClientManager → (fresh : ℕ) → Option ℕ × ClientManager
new_client m fresh =
    if ltb m.current_ m.limit_
    then (some fresh, record m { current_ = (m.current_ + 1) % 2 ^ 32 })
    else (none, m)

-- `DeleteClient`, of a client that the pool takes back.
abbrev pub delete_client : ClientManager → ClientManager
delete_client m = record m { current_ = (m.current_ + 2 ^ 32 - 1) % 2 ^ 32 }

-- `AddClient`
abbrev pub add_client : ClientManager → ℕ → ClientManager
add_client m client = record m { clients_ = m.clients_ ++ (client ∷ []) }

-- `std::find`, and `erase` of the first place that it finds.
abbrev pub is_member : ℕ → List ℕ → Bool
is_member a [] = false
is_member a (x ∷ xs) = x == a || is_member a xs

abbrev pub erase : ℕ → List ℕ → List ℕ
erase a [] = []
erase a (x ∷ xs) = if x == a then xs else x ∷ erase a xs

-- `RemoveClient`
unfoldable pub remove_client : ClientManager → ℕ → ClientManager
remove_client m client =
    if is_member client m.clients_
    then record (delete_client m) { clients_ = erase client m.clients_ }
    else m

-- The manager in its server: `waiting` are the clients made by `NewClient` whose `AcceptEx` has not
-- completed.
pub record System : Type 0 where
  pub manager : ClientManager
  pub waiting : List ℕ

abbrev pub init : System
init = record { manager = new_manager; waiting = [] }

-- `Run` asks for a client.
abbrev pub asked : System → ℕ → System
asked s fresh =
    let (made, m) = new_client s.manager fresh in
    record { manager = m; waiting = elim made [ none ↦ s.waiting | some a ↦ a ∷ s.waiting ] }

-- `Run` asks; an accept completes; a disconnect completes, also one of a client that has gone. The
-- counter is right only as long as these are not interleaved; the table is under `lock_`.
pub data Step (s : System) : System → Type 0 where
  asks :
      (fresh : ℕ)
      → count fresh s.waiting + count fresh s.manager.clients_ ≡ 0
      → Step s (asked s fresh)
  accepts :
      (a : ℕ)
      → is_member a s.waiting ≡ true
      → Step s (record { manager = add_client s.manager a; waiting = erase a s.waiting })
  disconnects : (a : ℕ) → Step s (record s { manager = remove_client s.manager a })

pub data Reach : System → Type 0 where
  start : Reach init
  later : {s t : System} → Reach s → Step s t → Reach t
