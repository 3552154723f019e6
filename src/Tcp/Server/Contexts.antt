-- ===== src/Tcp/Server/Contexts.antt =====
-- The io contexts: what is made for a request is destroyed when that completes, unless the request
-- was never taken.
use server_core.Common.{
  ℕ, zero, suc, ◌+◌, ◌≤◌, ◌<◌, ◌≡◌, refl, ap, sym, subst, Bool, true, false, not, ◌&&◌, ◌||◌, List,
  [], ◌∷◌, Option, none, some, if◌then◌else◌, ◌==◌, ltb, length, get_elem?, arith, Bool-cases, inl,
  inr,
}
use server_core.Tcp.Client.{Client, post_receive, post_send, prepare_receive, receive}
use server_core.Tcp.ClientManager.{add_client}
use server_core.Tcp.Server.{
  IoType, io_none, io_accept, io_recv_ready, io_recv, io_send, io_connect, io_disconnect, IoContext,
  Hook, Server, Completion, went, call, update, request, prepare, Switched, result, fault, unknown,
  with_handler, switch, finish, is_transfer, iocp_work,
}
use server_core.Tcp.Server.System.{remove_at, without}
use server_core.Tcp.Server.Watch.{went_injective}

length-remove_at :
    (xs : List IoContext) (i : ℕ) (x : IoContext)
    → get_elem? xs i ≡ some x
    → length xs ≡ suc (length (remove_at xs i))
length-remove_at [] i x e = absurd (ground arith)
length-remove_at (y ∷ xs) zero x e = refl
length-remove_at (y ∷ xs) (suc i) x e = ap suc (length-remove_at xs i x e)

-- The types whose branch calls `WSARecv`.
abbrev pub receives : IoType → Bool
receives io_accept = true
receives io_recv_ready = true
receives io_recv = true
receives _ = false

-- A round that goes wrong before the `switch`.
abbrev pub has_failed : Completion → IoType → Bool
has_failed c t = (not c.gqcs_result || c.received_bytes == 0) && is_transfer t

-- The context that a round makes for a request that is not taken.
abbrev pub lost : Completion → IoType → ℕ
lost c t = if not c.posts && (receives t && not (has_failed c t)) then 1 else 0

-- `t` has as many more contexts than `s` as it has requests, and `n` more.
abbrev Balance : ℕ → Server → Server → Type 0
Balance n s t =
    (t.contexts + length s.outstanding ≡ s.contexts + length t.outstanding + n)
    × (s.contexts ≤ t.contexts)

abbrev Balanced : ℕ → Server → Switched → Type 0
Balanced n s (result (ok, t)) = Balance n s t
Balanced n s _ = Unit {0}

abbrev untaken : Bool → ℕ
untaken posts = if posts then 0 else 1

request-Balance :
    (s : Server) (a : ℕ) (t : IoType) (p : Bool × Client)
    → Balance (untaken p.0) s (request s a t p).1
request-Balance s a t p = (ground arith, omega arith)

prepare-taken : (c : Client) (posts : Bool) → (prepare_receive c posts).0 ≡ posts
unfolding prepare_receive
prepare-taken c true = refl
prepare-taken c false = refl

receive-taken : (c : Client) (posts : Bool) → (receive c posts).0 ≡ posts
unfolding receive
receive-taken c true = refl
receive-taken c false = refl

prepare-Balance :
    (s : Server) (a : ℕ) (posts : Bool) → Balance (untaken posts) s (prepare s a posts).1
prepare-Balance s a posts =
    subst (λ b. Balance (untaken b) s (prepare s a posts).1) (prepare-taken (s.clients a) posts)
      (request-Balance s a io_recv_ready (prepare_receive (s.clients a) posts))

fault_or-Balanced :
    (n : ℕ) (s : Server) (o : Option Client) (f : Client → Switched)
    → ((c : Client) → Balanced n s (f c))
    → Balanced n s (elim o [ none ↦ fault | some c ↦ f c ])
fault_or-Balanced n s none f h = tt
fault_or-Balanced n s (some c) f h = h c

with_handler-Balanced :
    (n : ℕ) (s : Server) (before after : Client) (next : Switched)
    → Balanced n s next
    → Balanced n s (with_handler s before after next)
with_handler-Balanced n s before after next b =
    elim (Bool-cases (
      ltb (length before.events) (length after.events)
      && not (s.is_set Hook.post_receive_handler))) [
        | inl throws ↦ rw throws tt
        | inr calls ↦ rw calls b
      ]

switch-Balanced :
    (s : Server) (a : ℕ) (t : IoType) (n : ℕ) (posts : Bool)
    → Balanced
        (if receives t then untaken posts else 0)
        s
        (switch s (record { client_ = a; io_type_ = t }) n posts)
unfolding switch
switch-Balanced s a io_accept n posts =
    prepare-Balance (record (call Hook.pre_accept_handler s) { manager = add_client s.manager a }) a
      posts
switch-Balanced s a io_recv_ready n posts =
    subst (λ b. Balance (untaken b) s (request s a io_recv (receive (s.clients a) posts)).1)
      (receive-taken (s.clients a) posts)
      (request-Balance s a io_recv (receive (s.clients a) posts))
switch-Balanced s a io_recv n posts =
    fault_or-Balanced (untaken posts) s (post_receive s.packet_header_size_ (s.clients a) n)
      (λ c.
        with_handler s (s.clients a) c
          (result (prepare (record s { clients = update s.clients a c }) a posts)))
      (λ c.
        with_handler-Balanced (untaken posts) s (s.clients a) c
          (result (prepare (record s { clients = update s.clients a c }) a posts))
          (prepare-Balance (record s { clients = update s.clients a c }) a posts))
switch-Balanced s a io_send n posts =
    fault_or-Balanced 0 s (post_send (s.clients a) n)
      (λ c. result (
        true,
        call Hook.post_send_handler
            (record (call Hook.pre_send_handler s) { clients = update s.clients a c }),
      ))
      (λ c. (omega arith, omega arith))
switch-Balanced s a io_disconnect n posts = (omega arith, omega arith)
switch-Balanced s a io_none n posts = tt
switch-Balanced s a io_connect n posts = tt

finish-contexts :
    (n : ℕ) (s : Server) (a : ℕ) (sw : Switched) (t : Server)
    → Balanced n s sw
    → 0 < s.contexts
    → finish a true sw ≡ went t
    → t.contexts + 1 + length s.outstanding ≡ s.contexts + length t.outstanding + n
finish-contexts n s a (result (true, u)) t b k e =
    rw (sym (went_injective _ t e)) (omega (arith, b.0, b.1, k))
finish-contexts n s a (result (false, u)) t b k e =
    rw (sym (went_injective _ t e)) (omega (arith, b.0, b.1, k))
finish-contexts n s a fault t b k e = absurd (ground (arith, e))
finish-contexts n s a unknown t b k e = absurd (ground (arith, e))

-- A round of `IocpWork` on a request that was outstanding, with a context in use and `DisconnectEx`
-- taking its requests, keeps the difference of the contexts in use and the requests outstanding:
-- its own context is destroyed and each made for a new request stands for that request. One context
-- more is left over exactly when the round's `WSARecv` is called and fails.
pub iocp_work-contexts :
    (s t : Server) (i : ℕ) (x : IoContext) (c : Completion)
    → get_elem? s.outstanding i ≡ some x
    → c.io_context ≡ some x
    → c.disconnects ≡ true
    → 0 < s.contexts
    → iocp_work (without s i) c ≡ went t
    → t.contexts + length s.outstanding ≡ s.contexts + length t.outstanding + lost c x.io_type_
unfolding iocp_work
iocp_work-contexts s t i x c at here taken k e =
    let less = length-remove_at s.outstanding i x at in
    let u = without s i in
    elim (Bool-cases (has_failed c x.io_type_)) [
      | inl failed ↦
          rw (sym (went_injective _ t (rw (here, failed, taken) at e)), failed)
            (ground (arith, less, k))
      | inr other ↦
          let n = if receives x.io_type_ then untaken c.posts else 0 in
          let balanced = switch-Balanced u x.client_ x.io_type_ c.received_bytes c.posts in
          let all =
            finish-contexts n u x.client_ (switch u x c.received_bytes c.posts) t balanced k
              (rw (here, other, taken) at e) in
          ground (arith, all, less, other)
    ]
