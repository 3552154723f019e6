-- ===== src/Udp/SessionMap/Examples.antt =====
-- The theorem on a map of sessions, after a few calls.
use server_core.Common.{◌≡◌, List, [], ◌∷◌, none}
use server_core.Udp.Endpoint.{Endpoint}
use server_core.Udp.SessionMap.{find}
use server_core.Udp.SessionMap.Abstract.{
  Edit, inserts, erases, edits, edits_lookup, IsSorted, edits_refine,
}

abbrev calls : List Edit
calls =
    inserts (record { s_addr = 2; sin_port = 7 }) 16
    ∷ inserts (record { s_addr = 1; sin_port = 9 }) 32
    ∷ inserts (record { s_addr = 2; sin_port = 7 }) 48
    ∷ erases (record { s_addr = 1; sin_port = 9 })
    ∷ []

edits_refine_example :
    ((j : Endpoint) → find j (edits [] calls) ≡ edits_lookup (λ j. none) calls j)
    × IsSorted (edits [] calls)
edits_refine_example = edits_refine calls
