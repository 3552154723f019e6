-- ===== src/Udp/Server/Start.antt =====
-- A server starts exactly when its port was made and each of the three handlers has been set.
use server_core.Common.{
  ℕ, zero, suc, ◌+◌, ◌≡◌, ◌↔◌, refl, sym, ◌∙◌, Bool, true, ◌&&◌, ◌||◌, List, [], ◌∷◌, none,
  if◌then◌else◌, ◌==◌, arith, Bool-cases, inl, inr,
}
use server_core.Udp.Packet.{Data}
use server_core.Udp.SessionManager.{
  Manager, Session, Handler, accept, disconnect, packet, new_manager, recv, recv_times,
}
use server_core.Udp.SessionManager
use server_core.Udp.SessionManager.Setup.{set_handlers, has, run-set_handlers}
use server_core.Udp.Server.{Server, new_server, set_handler, run, run_non_block}

-- The handlers set one after another on a server.
abbrev pub set_all : Server → List Handler → Server
set_all s [] = s
set_all s (h ∷ hs) = set_all (set_handler s h) hs

set_all-manager :
    (hs : List Handler) (s : Server)
    → set_all s hs ≡ record s { session_manager_ = set_handlers s.session_manager_ hs }
unfolding set_handler
set_all-manager [] s = refl
set_all-manager (h ∷ hs) s = set_all-manager hs (set_handler s h)

set_handlers-idle :
    (hs : List Handler) (m : Manager)
    → ((set_handlers m hs).receives ≡ m.receives)
      × ((set_handlers m hs).is_with_iocp_ ≡ m.is_with_iocp_)
unfolding SessionManager.set_handler
set_handlers-idle [] m = (refl, refl)
set_handlers-idle (h ∷ hs) m = set_handlers-idle hs (SessionManager.set_handler m h)

recv_times-receives :
    (n : ℕ) (m : Manager)
    → (recv_times n m).receives ≡ m.receives + (if m.is_with_iocp_ then n else 0)
unfolding recv_times recv
recv_times-receives zero m = ground arith
recv_times-receives (suc n) m = elim (Bool-cases m.is_with_iocp_) [
  | inl on ↦ ground (arith, recv_times-receives n (recv m), on)
  | inr off ↦ ground (arith, recv_times-receives n (recv m), off)
]

run-receives :
    (n : ℕ) (m : Manager)
    → (SessionManager.run n m).1.receives
      ≡ m.receives + (if (SessionManager.run n m).0 && m.is_with_iocp_ then n else 0)
unfolding SessionManager.run
run-receives n m = elim (Bool-cases (m.is_inited_all == 0x0111)) [
  | inl ready ↦ rw ready (recv_times-receives n m)
  | inr not_ready ↦ rw not_ready (ground arith)
]

-- A server of which one run of its manager says what its own calls do.
run-manager :
    (s : Server) (m : Manager)
    → s.session_manager_ ≡ m
    → ((run_non_block s).0 ≡ (SessionManager.run s.num_thread m).0)
      × ((run_non_block s).1.session_manager_.receives
          ≡ (SessionManager.run s.num_thread m).1.receives)
      × ((run s ≡ none) ↔ ((SessionManager.run s.num_thread m).0 ≡ true))
unfolding run_non_block run
run-manager s m e = rw (sym e) (
  refl,
  refl,
  elim (Bool-cases (SessionManager.run s.num_thread s.session_manager_).0) [
    | inl yes_it ↦ rw yes_it (λ _. refl, λ _. refl)
    | inr no_it ↦ rw no_it (λ h. absurd (ground (arith, h)), λ h. absurd (ground (arith, h)))
  ],
)

-- A UDP server whose handlers have been set in any order, any number of times, starts exactly if
-- its port was made and each of the three handlers has been set; then one receive is posted for
-- each of its threads if its socket is taken to be on the port, and otherwise none; and `Run` never
-- returns exactly if the server starts.
pub run_non_block_lem :
    (iocp associated junk : Bool) (heap : ℕ → Session) (recycled : Data) (hs : List Handler)
    (port num_thread : ℕ)
    → let ready = iocp && has accept hs && has disconnect hs && has packet hs in
      let s = set_all (new_server iocp associated junk heap recycled port num_thread) hs in
      ((run_non_block s).0 ≡ ready)
      × ((run_non_block s).1.session_manager_.receives
          ≡ (if ready && (associated || junk) then num_thread else 0))
      × ((run s ≡ none) ↔ (ready ≡ true))
unfolding new_server new_manager
run_non_block_lem iocp associated junk heap recycled hs port num_thread =
    let s = new_server iocp associated junk heap recycled port num_thread in
    let m = set_handlers s.session_manager_ hs in
    let starts = run-set_handlers iocp associated junk heap recycled hs num_thread in
    let (none_posted, port_kept) = set_handlers-idle hs s.session_manager_ in
    let (same, posted, never) = run-manager (record s { session_manager_ = m }) m refl in
    let posts = run-receives num_thread m in
    rw (set_all-manager hs s) (
      same ∙ starts,
      posted ∙ posts ∙ rw (starts, none_posted, port_kept) (ground arith),
      rw (sym starts) never,
    )
