-- ===== src/Udp/Packet/Owners/Examples.antt =====
-- The theorems on shared data, at a packet that is sent and destroyed.
use server_core.Common.{◌≡◌, refl, [], none, some, count, arith}
use server_core.Udp.Packet.Owners.{
  Owners, no_owners, make_packet, copy_packet, end_packet, begin_write, end_write, release,
}
use server_core.Udp.Packet.Owners.Histories.{
  makes, ends, sends, sent, Later, now, then_step, sent_data_kept,
}

abbrev made : Owners
made = make_packet no_owners 16

abbrev written : Owners
written = elim (begin_write made 16) [ none ↦ made | some s ↦ s ]

made-Later : Later no_owners made
made-Later = then_step now (makes 16 (λ e. omega (arith, e)) refl)

written-Later : Later no_owners written
unfolding make_packet begin_write
written-Later = then_step made-Later (sends 16 written (omega arith) refl)

-- Sent, and the packet destroyed.
abbrev after : Owners
after = end_packet (end_write written 16) 16

after-Later : Later written after
unfolding make_packet begin_write end_write
after-Later = then_step (then_step now (sent 16 (omega arith))) (ends 16 (omega arith))

sent_data_kept_example : count 16 after.held ≡ 1
unfolding make_packet begin_write
sent_data_kept_example =
    sent_data_kept written after 16 written-Later (λ e. omega (arith, e)) (omega arith) after-Later

-- A packet that is not sent: its last copy gives the data back.
given_back : (end_packet (end_packet (copy_packet made 16) 16) 16).held ≡ []
unfolding make_packet copy_packet end_packet release
given_back = refl
