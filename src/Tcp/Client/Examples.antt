-- ===== src/Tcp/Client/Examples.antt =====
-- A new client that receives a packet of three bytes and sends two messages.
use server_core.Common.{
  ℕ, ◌+◌, ◌<◌, ◌≡◌, ◌↔◌, refl, true, List, [], ◌∷◌, none, some, length-replicate, replicate, arith,
}
use server_core.Tcp.Buffer.{init}
use server_core.Tcp.Client.{Client, new_client, post_receive, send}
use server_core.Tcp.Client.Receive.{IsIdle, after_receive, post_receive_lem}
use server_core.Tcp.Client.Delivery.{
  ArePackets, receive_all, sent_bytes, handled_bytes, in_order, packets_delivered,
}
use server_core.Tcp.Client.Send.{send_all, send-overrun_iff}

-- The receive buffer after `WSARecv` has written five bytes.
abbrev packet : List ℕ
packet = 3 ∷ 0 ∷ 7 ∷ 8 ∷ 9 ∷ replicate 507 0

abbrev fed : Client
fed = record new_client { recv_buffer_ = record (init 512) { buffer_ = packet } }

abbrev fed-IsIdle : IsIdle fed.recv_buffer_
fed-IsIdle = record {
  memory = refl;
  small = omega arith;
  at_start = refl;
  head = refl;
  unlocked = refl;
}

post_receive_lem_example :
    (post_receive 2 fed 5 ≡ some (after_receive 2 3 5 fed))
    × IsIdle (after_receive 2 3 5 fed).recv_buffer_
post_receive_lem_example =
    post_receive_lem 2 3 5 (0 ∷ 7 ∷ 8 ∷ 9 ∷ replicate 507 0) fed fed-IsIdle refl (omega arith)
      (omega arith) (omega arith)

abbrev new_client-IsIdle : IsIdle new_client.send_buffer_
new_client-IsIdle = record {
  memory = length-replicate {A = ℕ} 512 0;
  small = omega arith;
  at_start = refl;
  head = refl;
  unlocked = refl;
}

send-overrun_iff_example : (send new_client (1 ∷ 2 ∷ []) true ≡ none) ↔ (512 < 0 + 2)
send-overrun_iff_example =
    send-overrun_iff new_client (1 ∷ 2 ∷ []) true (length-replicate {A = ℕ} 512 0) refl

-- A packet of three bytes and one of none, each behind a header of two bytes.
abbrev two_packets : List (List ℕ)
two_packets = (3 ∷ 0 ∷ 7 ∷ 8 ∷ 9 ∷ []) ∷ (0 ∷ 0 ∷ []) ∷ []

two_packets-ArePackets : ArePackets 2 two_packets
two_packets-ArePackets = (
  record { some_byte = omega arith; small = omega arith; whole = refl },
  (record { some_byte = omega arith; small = omega arith; whole = refl }, tt),
)

abbrev new_client-IsIdle_recv : IsIdle new_client.recv_buffer_
new_client-IsIdle_recv = new_client-IsIdle

packets_delivered_example :
    (sender receiver : Client) × (send_all new_client two_packets ≡ some sender)
    × (sent_bytes sender.events ≡ in_order two_packets [])
    × IsIdle sender.send_buffer_
    × (receive_all 2 new_client two_packets ≡ some receiver)
    × (handled_bytes receiver.events ≡ in_order two_packets [])
    × IsIdle receiver.recv_buffer_
packets_delivered_example =
    packets_delivered 2 two_packets new_client new_client new_client-IsIdle new_client-IsIdle_recv
      (omega arith) (omega arith) (omega arith) two_packets-ArePackets
