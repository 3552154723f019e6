-- ===== src/Tcp/Server/System.antt =====
-- The server with the completion port: which requests can complete, and what may happen next.
use server_core.Common.{
  ℕ, zero, suc, ◌+◌, ◌≡◌, Bool, true, false, ◌&&◌, List, [], ◌∷◌, none, some, if◌then◌else◌, ◌==◌,
  get_elem?, count,
}
use server_core.Tcp.Client.{Client, new_client}
use server_core.Tcp.ClientManager.{new_manager}
use server_core.Tcp.Server.{
  IoType, io_accept, io_recv_ready, io_recv, io_send, io_disconnect, IoContext, Hook, Server,
  Completion, went, request, iocp_work, run_round,
}

-- The requests whose completion the server answers by another, or by taking the client out.
abbrev pub is_watch : IoType → Bool
is_watch io_recv_ready = true
is_watch io_recv = true
is_watch io_disconnect = true
is_watch _ = false

abbrev pub is_accept : IoType → Bool
is_accept io_accept = true
is_accept _ = false

-- How many requests of client `a`, of the types of a test, are in a list.
abbrev pub pending : (IoType → Bool) → ℕ → List IoContext → ℕ
pending f a [] = 0
pending f a (x ∷ xs) = (if f x.io_type_ && x.client_ == a then 1 else 0) + pending f a xs

abbrev pub remove_at : List IoContext → ℕ → List IoContext
remove_at [] i = []
remove_at (x ∷ xs) zero = xs
remove_at (x ∷ xs) (suc i) = x ∷ remove_at xs i

abbrev pub clients_of : Server → List ℕ
clients_of s = s.manager.clients_

-- The server without the request that has completed.
abbrev pub without : Server → ℕ → Server
without s i = record s { outstanding = remove_at s.outstanding i }

-- A server before its first round, with the handlers that a user has set.
abbrev pub new_server : (Hook → Bool) → (header : ℕ) → Server
new_server is_set header = record {
  manager = new_manager;
  clients = λ a. new_client;
  is_set = is_set;
  packet_header_size_ = header;
  contexts = 0;
  outstanding = [];
  called = [];
}

-- A round of an I/O thread without a context, or with one that was outstanding, where `DisconnectEx`
-- takes its request; a round of `Run`, where the pool gives memory that no client uses; a `Send` of
-- a user, whose effect on the client is any.
pub data Step (s : Server) : Server → Type 0 where
  waits : (c : Completion) (t : Server) → c.io_context ≡ none → iocp_work s c ≡ went t → Step s t
  completes :
      (i : ℕ) (x : IoContext) (c : Completion) (t : Server)
      → get_elem? s.outstanding i ≡ some x
      → c.io_context ≡ some x
      → c.disconnects ≡ true
      → iocp_work (without s i) c ≡ went t
      → Step s t
  runs :
      (fresh : ℕ)
      → pending is_accept fresh s.outstanding + count fresh (clients_of s) ≡ 0
      → Step s (run_round s fresh)
  sends : (a : ℕ) (p : Bool × Client) → Step s (request s a io_send p).1

pub data Reach (is_set : Hook → Bool) (header : ℕ) : Server → Type 0 where
  start : Reach is_set header (new_server is_set header)
  later : {s t : Server} → Reach is_set header s → Step s t → Reach is_set header t
