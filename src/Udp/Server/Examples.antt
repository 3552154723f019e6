-- ===== src/Udp/Server/Examples.antt =====
-- The theorem on the start of a server, and a server without a handler.
use server_core.Common.{ℕ, ◌≡◌, ◌↔◌, refl, true, false, List, [], ◌∷◌, none}
use server_core.Udp.Packet.{Data}
use server_core.Udp.SessionManager.{Session, Handler, accept, disconnect, packet, new_manager}
use server_core.Udp.SessionManager
use server_core.Udp.Server.{Server, new_server, set_handler, run, run_non_block}
use server_core.Udp.Server.Start.{set_all, run_non_block_lem}

abbrev heap : ℕ → Session
heap = λ s. record { is_alive_ = 0; endpoint_ = record { s_addr = 0; sin_port = 0 } }

abbrev recycled : Data
recycled = record { size = 0; packet_type = 0; body = [] }

abbrev all_handlers : List Handler
all_handlers = packet ∷ accept ∷ packet ∷ disconnect ∷ []

abbrev started : Server
started = set_all (new_server true true false heap recycled 9000 4) all_handlers

run_non_block_lem_example :
    ((run_non_block started).0 ≡ true)
    × ((run_non_block started).1.session_manager_.receives ≡ 4)
    × ((run started ≡ none) ↔ (true ≡ true))
run_non_block_lem_example = run_non_block_lem true true false heap recycled all_handlers 9000 4

without_packet_handler :
    (run_non_block (set_all (new_server true true false heap recycled 9000 4) (accept ∷ []))).0
    ≡ false
unfolding run_non_block set_handler new_server SessionManager.run SessionManager.set_handler
    new_manager
without_packet_handler = refl
