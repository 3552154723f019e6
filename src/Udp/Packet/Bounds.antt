-- ===== src/Udp/Packet/Bounds.antt =====
-- When `Packet(const char* data)` stays within its source: exactly when the size field, read as an
-- unsigned number, is covered by the bytes that follow the header.
use server_core.Common.{ℕ, ◌+◌, ◌*◌, ◌^◌, ◌<◌, ◌≡◌, ◌↔◌, List, ◌∷◌, none, length, arith, drop}
use server_core.Udp.Packet.{Data, max_packet_size, packet_of_bytes, packet_body}
use server_core.Udp.Packet.Wire.{packet_of_bytes-header}

packet_body-none_iff :
    (d : Data) (bytes : List ℕ)
    → d.size < 2 ^ 16
    → length d.body ≡ max_packet_size
    → length (drop 4 bytes) < 2 ^ 15
    → (packet_body d bytes ≡ none) ↔ (length (drop 4 bytes) < d.size)
unfolding packet_body
packet_body-none_iff d bytes hs hb hl = (λ e. ground arith, λ h. ground arith)

-- For a datagram of four header bytes, the first two below 256, and fewer than 2 ^ 15 bytes after
-- them, and with packet memory of full size, the packet's constructor reads or writes outside its
-- arrays exactly when the size field, read without sign, exceeds the bytes that follow: its test
-- against the maximum never helps.
pub packet_of_bytes-none_iff :
    (old : Data) (a b c d : ℕ) (rest : List ℕ)
    → a < 256
    → b < 256
    → length old.body ≡ max_packet_size
    → length rest < 2 ^ 15
    → (packet_of_bytes old (a ∷ b ∷ c ∷ d ∷ rest) ≡ none) ↔ (length rest < a + 256 * b)
packet_of_bytes-none_iff old a b c d rest ha hb ho hr =
    rw (packet_of_bytes-header old a b c d rest) (
      packet_body-none_iff (record old { size = a + 256 * b; packet_type = c + 256 * d })
        (a ∷ b ∷ c ∷ d ∷ rest) (omega arith) ho hr)
