-- ===== src/Tcp/Server/Examples.antt =====
-- One connection, from its accept to its first receive.
use server_core.Common.{
  ◌+◌, ◌<◌, ◌≡◌, refl, Bool, true, false, some, count, arith, length, get_elem?,
}
use server_core.Tcp.Client.{prepare_receive}
use server_core.Tcp.ClientManager.{new_client}
use server_core.Tcp.Server.{
  io_accept, IoContext, Hook, Server, Completion, went, switch, iocp_work, run_round,
}
use server_core.Tcp.Server.System.{
  is_watch, is_accept, pending, clients_of, without, new_server, completes, runs, Reach, start,
  later,
}
use server_core.Tcp.Server.Watch.{client_never_deaf}
use server_core.Tcp.Server.Contexts.{lost, iocp_work-contexts}

abbrev all_set : Hook → Bool
all_set h = true

abbrev listening : Server
listening = run_round (new_server all_set 2) 7

abbrev accepted : Completion
accepted = record {
  gqcs_result = true;
  received_bytes = 0;
  io_context = some (record { client_ = 7; io_type_ = io_accept });
  is_timeout = false;
  posts = true;
  disconnects = true;
}

abbrev first_request : IoContext
first_request = record { client_ = 7; io_type_ = io_accept }

-- The server when the accept of client 7 has completed.
abbrev joined : Server
joined = elim (iocp_work (without listening 0) accepted) [ went s ↦ s | _ ↦ listening ]

listening_first : get_elem? listening.outstanding 0 ≡ some first_request
unfolding run_round new_client
listening_first = refl

listening_used : 0 < listening.contexts
unfolding run_round new_client
listening_used = omega arith

accepted_turn : iocp_work (without listening 0) accepted ≡ went joined
unfolding run_round new_client iocp_work switch prepare_receive
accepted_turn = refl

joined-Reach : Reach all_set 2 joined
unfolding run_round new_client iocp_work switch prepare_receive
joined-Reach =
    later (later start (runs 7 refl)) (
      completes 0 (record { client_ = 7; io_type_ = io_accept }) accepted joined refl refl refl
        refl)

here : 0 < count 7 (clients_of joined)
unfolding run_round new_client iocp_work switch prepare_receive
here = omega arith

client_never_deaf_example :
    (0 < pending is_watch 7 joined.outstanding)
    × (count 7 (clients_of joined) ≡ 1)
    × (pending is_accept 7 joined.outstanding ≡ 0)
client_never_deaf_example = client_never_deaf 7 joined-Reach here

iocp_work-contexts_example :
    joined.contexts + length listening.outstanding
    ≡ listening.contexts + length joined.outstanding + lost accepted io_accept
iocp_work-contexts_example =
    iocp_work-contexts listening joined 0 first_request accepted listening_first refl refl
      listening_used accepted_turn
