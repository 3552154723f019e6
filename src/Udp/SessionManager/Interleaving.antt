-- ===== src/Udp/SessionManager/Interleaving.antt =====
-- The ACK branch of core/udp_server/src/session_manager.cpp cut at its three locks: the look-up
-- under `ReadLock`, the erasure of the iterator that it found, and the insertion. Between them
-- another thread may run. An iterator is known by its key.
use server_core.Common.{ℕ, ◌≡◌, refl, true, Option, none, some, ◌∷◌, arith}
use server_core.Udp.Endpoint.{Endpoint}
use server_core.Udp.SessionMap.{find, insert, erase, find-erase, same_key, same_key_iff}
use server_core.Udp.SessionManager.{Manager, accepted, on_ack}

unfoldable pub ack_find : Manager → Endpoint → Option ℕ
ack_find m e = find e m.pending_sessions_

-- `pending_sessions_.erase(it)`; `none` is an iterator whose entry has gone.
unfoldable pub ack_erase : Manager → Endpoint → Option Manager
ack_erase m e = elim (find e m.pending_sessions_) [
  | none ↦ none
  | some s ↦ some (record m { pending_sessions_ = erase e m.pending_sessions_ })
]

unfoldable pub ack_insert : Manager → ℕ → Manager
ack_insert m s = record m {
  sessions_ = insert (m.heap s).endpoint_ s m.sessions_;
  events = accepted s ∷ m.events;
}

erased-none :
    (m : Manager) (e : Endpoint) → find e m.pending_sessions_ ≡ none → ack_erase m e ≡ none
unfolding ack_erase
erased-none m e h = rw (ack_erase, h) refl

-- When two threads have both found a waiting session for an ACK of the same endpoint, the first to
-- erase it and insert it does what the ACK branch does undisturbed; the other then erases an
-- iterator whose entry has gone, before the insertion and after it.
pub ack_race :
    (m : Manager) (e : Endpoint) (s : ℕ)
    → ack_find m e ≡ some s
    → (m' : Manager) × (ack_erase m e ≡ some m')
      × (ack_insert m' s ≡ on_ack m e s)
      × (ack_erase m' e ≡ none)
      × (ack_erase (ack_insert m' s) e ≡ none)
unfolding ack_find ack_erase ack_insert on_ack
ack_race m e s h =
    let m' = record m { pending_sessions_ = erase e m.pending_sessions_ } in
    let self : same_key e e ≡ true = (same_key_iff e e).1 refl in
    let gone : find e (erase e m.pending_sessions_) ≡ none =
      ground (arith, find-erase e e m.pending_sessions_, self) in
    (m', rw (ack_erase, h) refl, refl, erased-none m' e gone, erased-none (ack_insert m' s) e gone)
