-- ===== src/Tcp/ClientManager/Counter/Examples.antt =====
-- One client, which comes from the constructor's table, and the increment lost while it leaves.
use server_core.Common.{ℕ, ◌≡◌, refl, [], ◌∷◌, none, arith}
use server_core.Tcp.ClientManager.{new_client}
use server_core.Tcp.ClientManager.Counter.{Counter, accepts, Later, next}
use server_core.Tcp.ClientManager.Counter.Refused.{at_rest, creates_alone, refused_forever}

one_joined : Later (at_rest [] 0) (at_rest (7 ∷ []) 1)
unfolding new_client
one_joined = next (creates_alone [] 0 7 refl refl).1 (accepts 7 refl refl)

refused_forever_example :
    (d : Counter) × Later (at_rest (7 ∷ []) 1) d
    × ((e : Counter)
        → Later d e
        → (e.manager.clients_ ≡ [])
          × (e.waiting ≡ [])
          × ((a : ℕ) → (new_client e.manager a).0 ≡ none))
refused_forever_example = refused_forever 7 8 [] (omega arith) refl
