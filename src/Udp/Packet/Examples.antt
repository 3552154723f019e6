-- ===== src/Udp/Packet/Examples.antt =====
-- Packets of a few bytes.
use server_core.Common.{
  ℕ, ◌+◌, ◌*◌, ◌<◌, ◌≡◌, ◌↔◌, refl, [], ◌∷◌, none, some, arith, replicate, length-replicate,
}
use server_core.Udp.Packet.{
  Data, max_packet_size, packet_with_body, packet_without_body, packet_of_bytes, wire,
}
use server_core.Udp.Packet.Bounds.{packet_of_bytes-none_iff}

abbrev blank : ℕ → Data
blank n = record { size = 0; packet_type = 0; body = replicate n 0 }

-- The answer to a SYN: size 2, type -2, and two bytes of the client's.
syn_ack :
    wire (record { size = 2; packet_type = 0xfffe; body = 7 ∷ 9 ∷ 0 ∷ [] })
    ≡ some (2 ∷ 0 ∷ 0xfe ∷ 0xff ∷ 7 ∷ 9 ∷ [])
unfolding wire
syn_ack = refl

-- A size above the limit leaves the recycled data as it was.
too_large : packet_with_body (blank 3) 65001 1 [] ≡ some (blank 3)
unfolding packet_with_body
too_large = refl

-- The other constructor accepts the same size: its test reads it as a negative number.
too_large_accepted : (packet_without_body (blank 3) 65001 1).size ≡ 65001
unfolding packet_without_body
too_large_accepted = refl

packet_of_bytes-none_iff_example :
    (packet_of_bytes (blank max_packet_size) (3 ∷ 0 ∷ 1 ∷ 0 ∷ 7 ∷ 9 ∷ []) ≡ none)
    ↔ (2 < 3 + 256 * 0)
packet_of_bytes-none_iff_example =
    packet_of_bytes-none_iff (blank max_packet_size) 3 0 1 0 (7 ∷ 9 ∷ []) (omega arith)
      (omega arith) (length-replicate {A = ℕ} max_packet_size 0) (omega arith)
