-- ===== src/Tcp/Server/Switch.antt =====
-- The `switch` of a round keeps every client but its own watched, and watches its own again or owes
-- it a disconnect.
use server_core.Common.{
  ℕ, zero, suc, ◌+◌, ◌≤◌, ◌<◌, ◌≡◌, refl, ap, Bool, true, false, not, ◌&&◌, List, [], ◌∷◌, some,
  if◌then◌else◌, ◌==◌, ltb, length, get_elem?, count, count-append, arith, Bool-cases, Option-cases,
  inl, inr,
}
use mathlib.Core.Option.{some-injective}
use server_core.Tcp.Client.{Client, post_receive, post_send, prepare_receive, receive}
use server_core.Tcp.ClientManager.{add_client, remove_client}
use server_core.Tcp.ClientManager.Limit.{remove_client-count, is_member-count}
use server_core.Tcp.Server.System.{is_watch, is_accept, pending, remove_at, clients_of, without}
use server_core.Tcp.Server.{
  IoType, io_none, io_accept, io_recv_ready, io_recv, io_send, io_connect, io_disconnect, IoContext,
  Hook, Server, call, update, request, prepare, disconnect, Switched, result, with_handler, switch,
  destroy,
}

pending-remove_at :
    (f : IoType → Bool) (a : ℕ) (xs : List IoContext) (i : ℕ) (x : IoContext)
    → get_elem? xs i ≡ some x
    → pending f a xs
      ≡ (if f x.io_type_ && x.client_ == a then 1 else 0) + pending f a (remove_at xs i)
pending-remove_at f a [] i x e = ground arith
pending-remove_at f a (y ∷ xs) zero x e =
    ap (λ (z : IoContext). (if f z.io_type_ && z.client_ == a then 1 else 0) + pending f a xs)
      (some-injective _ _ e)
pending-remove_at f a (y ∷ xs) (suc i) x e = omega (arith, pending-remove_at f a xs i x e)

-- No client is in the table twice, or there and waiting for its accept; and all but `a` are
-- watched.
pub record Inv (unwatched : ℕ → Bool) (s : Server) : Type 0 where
  pub unique : (a : ℕ) → pending is_accept a s.outstanding + count a (clients_of s) ≤ 1
  pub watched :
      (a : ℕ)
      → unwatched a ≡ false
      → 0 < count a (clients_of s)
      → 0 < pending is_watch a s.outstanding

abbrev pub nobody : ℕ → Bool
nobody a = false

-- A request of a type that watches is added, or its call fails.
pub request-Inv :
    (s : Server) (a : ℕ) (t : IoType) (p : Bool × Client)
    → is_watch t ≡ true
    → is_accept t ≡ false
    → Inv (◌==◌ a) s
    → Inv (λ b. not p.0 && (a == b)) (request s a t p).1
request-Inv s a t p w n inv = record {
  unique = λ b. ground (arith, inv.unique b, n);
  watched = λ b h k. ground (arith, inv.watched b, w, h, k);
}

pub call-Inv : {f : ℕ → Bool} {s : Server} (h : Hook) → Inv f s → Inv f (call h s)
call-Inv h inv = record { unique = inv.unique; watched = inv.watched }

clients-Inv :
    {f : ℕ → Bool} {s : Server} (clients : ℕ → Client)
    → Inv f s
    → Inv f (record s { clients = clients })
clients-Inv clients inv = record { unique = inv.unique; watched = inv.watched }

-- The end of a round.
pub end-Inv :
    (s : Server) (a : ℕ) (ok : Bool)
    → Inv (λ b. not ok && (a == b)) s
    → Inv nobody (destroy (if ok then s else disconnect s a true))
end-Inv s a true inv = record { unique = inv.unique; watched = λ b h k. inv.watched b refl k }
end-Inv s a false inv = record {
  unique = λ b. ground (arith, inv.unique b);
  watched = λ b h k. ground (arith, inv.watched b, k);
}

pub without-Inv :
    (s : Server) (i : ℕ) (x : IoContext)
    → get_elem? s.outstanding i ≡ some x
    → Inv nobody s
    → Inv (λ b. is_watch x.io_type_ && (x.client_ == b)) (without s i)
      × (is_accept x.io_type_ ≡ true
          → pending is_accept x.client_ (without s i).outstanding + count x.client_ (clients_of s)
            ≡ 0)
without-Inv s i x e inv = (
  record {
    unique = λ b. omega (arith, inv.unique b, pending-remove_at is_accept b s.outstanding i x e);
    watched = λ b h k.
        ground (arith, inv.watched b refl k, pending-remove_at is_watch b s.outstanding i x e, h);
  },
  λ h.
      ground
        (arith, inv.unique x.client_, pending-remove_at is_accept x.client_ s.outstanding i x e, h),
)

-- What the `switch` owes to the end of the round.
abbrev pub Owes : ℕ → Switched → Type 0
Owes a (result (ok, s)) = Inv (λ b. not ok && (a == b)) s
Owes a _ = Unit {0}

pub weaken :
    {f g : ℕ → Bool} {s : Server} → ((b : ℕ) → g b ≡ false → f b ≡ false) → Inv f s → Inv g s
weaken h inv = record { unique = inv.unique; watched = λ b k. inv.watched b (h b k) }

with_handler-Owes :
    (a : ℕ) (s : Server) (before after : Client) (next : Switched)
    → Owes a next
    → Owes a (with_handler s before after next)
with_handler-Owes a s before after next o =
    elim (Bool-cases (
      ltb (length before.events) (length after.events)
      && not (s.is_set Hook.post_receive_handler))) [
        | inl throws ↦ rw throws tt
        | inr calls ↦ rw calls o
      ]

accept-Inv :
    (s : Server) (a : ℕ)
    → pending is_accept a s.outstanding + count a (clients_of s) ≡ 0
    → Inv nobody s
    → Inv (◌==◌ a) (record s { manager = add_client s.manager a })
accept-Inv s a room inv = record {
  unique = λ b. ground (arith, inv.unique b, room, count-append b (clients_of s) (a ∷ []));
  watched =
      λ b h k. ground (arith, inv.watched b refl, h, k, count-append b (clients_of s) (a ∷ []));
}

gone-Inv :
    (s : Server) (a : ℕ)
    → Inv (◌==◌ a) s
    → Inv nobody (record s { manager = remove_client s.manager a })
gone-Inv s a inv = record {
  unique = λ b. omega (arith, inv.unique b, remove_client-count s.manager a b);
  watched = λ b h k. ground (
    arith,
    inv.watched b,
    inv.unique b,
    k,
    remove_client-count s.manager a b,
    is_member-count a (clients_of s),
  );
}

received-Owes :
    (s : Server) (a n : ℕ) (posts : Bool)
    → Inv (◌==◌ a) s
    → Owes a (switch s (record { client_ = a; io_type_ = io_recv }) n posts)
unfolding switch
received-Owes s a n posts inv =
    elim (Option-cases (post_receive s.packet_header_size_ (s.clients a) n)) [
      | inl e ↦ rw (switch, e) tt
      | inr (c, e) ↦
          let s' = record s { clients = update s.clients a c } in
          rw (switch, e)
            (with_handler-Owes a s (s.clients a) c (result (prepare s' a posts)) (
              request-Inv s' a io_recv_ready (prepare_receive (s'.clients a) posts) refl refl
                (clients-Inv (update s.clients a c) inv)))
    ]

sent-Owes :
    (s : Server) (a n : ℕ) (posts : Bool)
    → Inv nobody s
    → Owes a (switch s (record { client_ = a; io_type_ = io_send }) n posts)
unfolding switch
sent-Owes s a n posts inv = elim (Option-cases (post_send (s.clients a) n)) [
  | inl e ↦ rw (switch, e) tt
  | inr (c, e) ↦
      rw (switch, e)
        (call-Inv Hook.post_send_handler
          (clients-Inv (update s.clients a c) (call-Inv Hook.pre_send_handler inv)))
]

pub switch-Owes :
    (s : Server) (a : ℕ) (t : IoType) (n : ℕ) (posts : Bool)
    → Inv (λ b. is_watch t && (a == b)) s
    → (is_accept t ≡ true → pending is_accept a s.outstanding + count a (clients_of s) ≡ 0)
    → Owes a (switch s (record { client_ = a; io_type_ = t }) n posts)
unfolding switch prepare_receive receive
switch-Owes s a io_accept n posts inv room = call-Inv Hook.post_accept_handler (
    request-Inv (record (call Hook.pre_accept_handler s) { manager = add_client s.manager a }) a
      io_recv_ready (prepare_receive (s.clients a) posts) refl refl
      (call-Inv Hook.pre_accept_handler (accept-Inv s a (room refl) inv)))
switch-Owes s a io_recv_ready n posts inv room =
    request-Inv s a io_recv (receive (s.clients a) posts) refl refl inv
switch-Owes s a io_recv n posts inv room = received-Owes s a n posts inv
switch-Owes s a io_send n posts inv room = sent-Owes s a n posts inv
switch-Owes s a io_disconnect n posts inv room =
    call-Inv Hook.post_disconnect_handler (call-Inv Hook.pre_disconnect_handler (gone-Inv s a inv))
switch-Owes s a io_none n posts inv room = tt
switch-Owes s a io_connect n posts inv room = tt
