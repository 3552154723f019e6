-- ===== src/Tcp/ClientManager/Counter.antt =====
-- core/server/ClientManager.cpp, cut at the accesses of `current_`: the thread of `Server::Run` tests
-- it and increments it without a lock, while an I/O thread decrements it in `RemoveClient` under
-- `lock_`. The table is read and changed under `lock_` alone.
pub mod Refused
mod Examples
use server_core.Common.{ℕ, ◌+◌, ◌-◌, ◌%◌, ◌^◌, ◌≡◌, true, false, List, [], ◌∷◌, ltb, count}
use server_core.Tcp.ClientManager.{ClientManager, add_client, is_member, erase}

-- Where `Run` stands in `NewClient`: outside, behind the test with the new client, or with what
-- `++current_` has loaded.
pub data Creating : Type 0 where
  idle : Creating
  tested : (fresh : ℕ) → Creating
  loaded : (fresh current : ℕ) → Creating

-- Where the I/O thread that holds `lock_` stands in `RemoveClient`: behind `std::find`, or with what
-- `--current_` has loaded.
pub data Removing : Type 0 where
  released : Removing
  found : (client : ℕ) → Removing
  taken : (client current : ℕ) → Removing

-- `waiting` are the clients made by `NewClient` whose `AcceptEx` has not completed.
pub record Counter : Type 0 where
  pub manager : ClientManager
  pub waiting : List ℕ
  pub creating : Creating
  pub removing : Removing

-- `++current_` and `--current_` store what follows the value that they have loaded.
abbrev pub store_more : Counter → (fresh current : ℕ) → Counter
store_more c fresh current = record c {
  manager = record (c.manager) { current_ = (current + 1) % 2 ^ 32 };
  waiting = fresh ∷ c.waiting;
  creating = idle;
}

abbrev pub store_less : Counter → (client current : ℕ) → Counter
store_less c client current = record c {
  manager = record (c.manager) {
    clients_ = erase client c.manager.clients_;
    current_ = (current + 2 ^ 32 - 1) % 2 ^ 32;
  };
  removing = released;
}

-- `Run` tests and refuses, or tests and takes a client, loads, stores; an accept completes
-- (`AddClient`); an I/O thread takes `lock_` and does not find its client, or finds it, loads, and
-- stores, erases and releases.
pub data Step (c : Counter) : Counter → Type 0 where
  refuses : c.creating ≡ idle → ltb c.manager.current_ c.manager.limit_ ≡ false → Step c c
  tests :
      (fresh : ℕ)
      → c.creating ≡ idle
      → ltb c.manager.current_ c.manager.limit_ ≡ true
      → count fresh c.waiting + count fresh c.manager.clients_ ≡ 0
      → Step c (record c { creating = tested fresh })
  loads :
      (fresh : ℕ)
      → c.creating ≡ tested fresh
      → Step c (record c { creating = loaded fresh c.manager.current_ })
  stores :
      (fresh current : ℕ) → c.creating ≡ loaded fresh current → Step c (store_more c fresh current)
  accepts :
      (a : ℕ)
      → c.removing ≡ released
      → is_member a c.waiting ≡ true
      → Step c (record c { manager = add_client c.manager a; waiting = erase a c.waiting })
  misses : (a : ℕ) → c.removing ≡ released → is_member a c.manager.clients_ ≡ false → Step c c
  finds :
      (a : ℕ)
      → c.removing ≡ released
      → is_member a c.manager.clients_ ≡ true
      → Step c (record c { removing = found a })
  loads_found :
      (a : ℕ) → c.removing ≡ found a → Step c (record c { removing = taken a c.manager.current_ })
  stores_less : (a current : ℕ) → c.removing ≡ taken a current → Step c (store_less c a current)

pub data Later (c : Counter) : Counter → Type 0 where
  now : Later c c
  next : {d e : Counter} → Later c d → Step d e → Later c e
