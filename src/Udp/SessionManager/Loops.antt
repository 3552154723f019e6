-- ===== src/Udp/SessionManager/Loops.antt =====
-- The two loops of the heartbeat thread in core/udp_server/src/session_manager.cpp, each as one turn.
use server_core.Common.{ℕ, List, [], ◌∷◌, ◌++◌, if◌then◌else◌}
use server_core.Udp.SessionMap.{SessionMap}
use server_core.Udp.SessionManager.{
  Session, Manager, Event, disconnected, decrement16, below_minus_1, is_minus_3, set_alive,
}

-- The first loop of the heartbeat thread, under the lock of the sessions: the heap after it, the
-- sessions that stay and those that go.
unfoldable pub sweep_sessions : (ℕ → Session) → SessionMap → (ℕ → Session) × SessionMap × List ℕ
sweep_sessions h [] = (h, [], [])
sweep_sessions h ((e, s) ∷ m) =
    let x = decrement16 (h s).is_alive_ in
    let (h', kept, gone) = sweep_sessions (set_alive h s x) m in
    if below_minus_1 x then (h', kept, s ∷ gone) else (h', (e, s) ∷ kept, gone)

unfoldable pub sweep : Manager → Manager
unfolding sweep_sessions
sweep m =
    let (h, kept, gone) = sweep_sessions m.heap m.sessions_ in
    record m { heap = h; sessions_ = kept; gone = m.gone ++ gone }

-- The second loop: those that stay in the vector, and the events.
unfoldable pub reap_gone : (ℕ → Session) → List ℕ → List Event → (ℕ → Session) × List ℕ × List Event
reap_gone h [] es = (h, [], es)
reap_gone h (s ∷ ss) es =
    let x = decrement16 (h s).is_alive_ in
    let (h', left, es') =
      reap_gone (set_alive h s x) ss (if is_minus_3 x then disconnected s ∷ es else es) in
    if is_minus_3 x then (h', left, es') else (h', s ∷ left, es')

unfoldable pub reap : Manager → Manager
unfolding reap_gone
reap m =
    let (h, left, es) = reap_gone m.heap m.gone m.events in
    record m { heap = h; gone = left; events = es }
