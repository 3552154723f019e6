-- ===== src/Tcp/Server/Watch.antt =====
-- Every client in the table has a request outstanding that tells the server of its fate.
use server_core.Common.{
  ℕ, ◌+◌, ◌<◌, ◌≡◌, refl, ap, subst, Bool, true, not, ◌&&◌, ◌||◌, none, some, ◌==◌, get_elem?,
  count, arith, Bool-cases, inl, inr,
}
use server_core.Tcp.Client.{disconnected}
use server_core.Tcp.ClientManager.{new_client}
use server_core.Tcp.Server.System.{
  is_watch, is_accept, pending, clients_of, without, Step, waits, completes, runs, sends, Reach,
  start, later,
}
use server_core.Tcp.Server.Switch.{
  Inv, nobody, Owes, request-Inv, call-Inv, end-Inv, without-Inv, weaken, switch-Owes,
}
use server_core.Tcp.Server.{
  io_disconnect, IoContext, Hook, Server, Completion, Outcome, went, disconnect, Switched, result,
  fault, unknown, switch, destroy, finish, is_transfer, iocp_work, run_round,
}

pub went_injective : (s t : Server) → went s ≡ went t → s ≡ t
went_injective s t e = ap (server_or s) e
  where
    server_or : Server → Outcome → Server
    server_or u (went v) = v
    server_or u _ = u

finish-Inv :
    (a : ℕ) (sw : Switched) (t : Server) → Owes a sw → finish a true sw ≡ went t → Inv nobody t
finish-Inv a (result (ok, s)) t o e = subst (Inv nobody) (went_injective _ t e) (end-Inv s a ok o)
finish-Inv a fault t o e = absurd (ground (arith, e))
finish-Inv a unknown t o e = absurd (ground (arith, e))

-- A receive or a send that has failed.
failed-Inv :
    (s : Server) (x : IoContext)
    → Inv (λ b. is_watch x.io_type_ && (x.client_ == b)) s
    → Inv nobody (destroy (disconnect s x.client_ true))
failed-Inv s x inv = end-Inv (disconnect s x.client_ true) x.client_ true (
    request-Inv s x.client_ io_disconnect (true, disconnected (s.clients x.client_)) refl refl
      (weaken (λ b h. ground (arith, h)) inv))

-- A round of `IocpWork` on a request that was outstanding.
completes-Inv :
    (s t : Server) (i : ℕ) (x : IoContext) (c : Completion)
    → get_elem? s.outstanding i ≡ some x
    → c.io_context ≡ some x
    → c.disconnects ≡ true
    → iocp_work (without s i) c ≡ went t
    → Inv nobody s
    → Inv nobody t
unfolding iocp_work
completes-Inv s t i x c at here taken e inv =
    let (but, room) = without-Inv s i x at inv in
    elim (Bool-cases ((not c.gqcs_result || c.received_bytes == 0) && is_transfer x.io_type_)) [
      | inl failed ↦
          subst (Inv nobody) (went_injective _ t (rw (here, failed, taken) at e))
            (failed-Inv (without s i) x but)
      | inr other ↦
          finish-Inv x.client_ (switch (without s i) x c.received_bytes c.posts) t
            (switch-Owes (without s i) x.client_ x.io_type_ c.received_bytes c.posts but room)
            (rw (here, other, taken) at e)
    ]

waits-Inv :
    (s t : Server) (c : Completion)
    → c.io_context ≡ none
    → iocp_work s c ≡ went t
    → Inv nobody s
    → Inv nobody t
unfolding iocp_work
waits-Inv s t c here e inv =
    elim (Bool-cases ((not c.gqcs_result || c.received_bytes == 0) && c.is_timeout)) [
      | inl late ↦
          subst (Inv nobody) (went_injective _ t (rw (here, late) at e))
            (call-Inv Hook.timeout_handler inv)
      | inr nothing ↦ absurd (ground (arith, e, here, nothing))
    ]

runs-Inv :
    (s : Server) (fresh : ℕ)
    → pending is_accept fresh s.outstanding + count fresh (clients_of s) ≡ 0
    → Inv nobody s
    → Inv nobody (run_round s fresh)
unfolding run_round new_client
runs-Inv s fresh room inv = record {
  unique = λ b. ground (arith, inv.unique b, room);
  watched = λ b h k. ground (arith, inv.watched b, k);
}

Step-Inv : {s t : Server} → Step s t → Inv nobody s → Inv nobody t
Step-Inv {s} (waits c t here e) inv = waits-Inv s t c here e inv
Step-Inv {s} (completes i x c t at here taken e) inv = completes-Inv s t i x c at here taken e inv
Step-Inv {s} (runs fresh room) inv = runs-Inv s fresh room inv
Step-Inv {s} (sends a p) inv = record {
  unique = λ b. ground (arith, inv.unique b);
  watched = λ b h k. ground (arith, inv.watched b, k);
}

Reach-Inv : {is_set : Hook → Bool} {header : ℕ} {s : Server} → Reach is_set header s → Inv nobody s
Reach-Inv start = record { unique = λ b. omega arith; watched = λ b h k. absurd (omega arith) }
Reach-Inv (later r st) = Step-Inv st (Reach-Inv r)

-- In every state that the server reaches, whatever completions come in whatever order, as long as
-- `DisconnectEx` takes its requests and the pool gives memory that no client uses: a client in the
-- table is there once, no accept of it is outstanding, and a receive of it, with or without bytes,
-- or a disconnect is outstanding.
pub client_never_deaf :
    {is_set : Hook → Bool} {header : ℕ} {s : Server} (a : ℕ)
    → Reach is_set header s
    → 0 < count a (clients_of s)
    → (0 < pending is_watch a s.outstanding)
      × (count a (clients_of s) ≡ 1)
      × (pending is_accept a s.outstanding ≡ 0)
client_never_deaf a r k =
    let inv = Reach-Inv r in
    (inv.watched a refl k, omega (arith, inv.unique a), omega (arith, inv.unique a))
