-- ===== src/Udp/Packet/Wire.antt =====
-- What one side sends is what the other reads.
use server_core.Common.{
  ℕ, ◌+◌, ◌*◌, ◌/◌, ◌%◌, ◌^◌, ◌≤◌, ◌<◌, ◌≡◌, refl, ap, ◌∙◌, false, List, [], ◌∷◌, ◌++◌, some, ltb,
  length, take, drop, length-take, arith, zero, suc, length-append,
}
use server_core.Udp.Packet.{
  Data, max_packet_size, memcpy, packet_with_body, packet_of_bytes, packet_body, write_short, wire,
}

pub take-take : (n : ℕ) (xs ys : List ℕ) → n ≤ length xs → take n (take n xs ++ ys) ≡ take n xs
take-take zero xs ys h = refl
take-take (suc n) [] ys h = absurd (omega arith)
take-take (suc n) (x ∷ xs) ys h = ap (◌∷◌ x) (take-take n xs ys (omega arith))

pub take-all : (n : ℕ) (xs : List ℕ) → length xs ≡ n → take n xs ≡ xs
take-all zero [] h = refl
take-all zero (x ∷ xs) h = absurd (omega arith)
take-all (suc n) [] h = absurd (omega arith)
take-all (suc n) (x ∷ xs) h = ap (◌∷◌ x) (take-all n xs (omega arith))

pub length-take_self : (n : ℕ) (xs : List ℕ) → n ≤ length xs → length (take n xs) ≡ n
length-take_self n xs h = omega (arith, length-take n xs)

pub read-write_short : (x : ℕ) → x % 256 + 256 * (x / 256) ≡ x
read-write_short x = omega arith

memcpy-some :
    (dst src : List ℕ) (n : ℕ)
    → n ≤ length dst
    → n ≤ length src
    → memcpy dst src n ≡ some (take n src ++ drop n dst)
memcpy-some dst src n h k = ground arith

-- The packet that the sender builds.
abbrev pub built : Data → ℕ → ℕ → List ℕ → Data
built old size packet_type bytes = record {
  size = size;
  packet_type = packet_type;
  body = take size bytes ++ drop size old.body;
}

pub packet_with_body-built :
    (old : Data) (size packet_type : ℕ) (bytes : List ℕ)
    → size ≤ max_packet_size
    → size ≤ length old.body
    → size ≤ length bytes
    → packet_with_body old size packet_type bytes ≡ some (built old size packet_type bytes)
unfolding packet_with_body
packet_with_body-built old size packet_type bytes hm ho hb =
    let small : ltb max_packet_size size ≡ false = ground arith in
    rw (small, memcpy-some old.body bytes size ho hb)

pub wire-some :
    (d : Data)
    → d.size ≤ length d.body
    → wire d ≡ some (write_short d.size ++ write_short d.packet_type ++ take d.size d.body)
unfolding wire
wire-some d h = ground arith

pub packet_body-some :
    (d : Data) (bytes : List ℕ)
    → d.size < 2 ^ 15
    → d.size ≤ length d.body
    → d.size ≤ length (drop 4 bytes)
    → packet_body d bytes
      ≡ some (record d { body = take d.size (drop 4 bytes) ++ drop d.size d.body })
unfolding packet_body
packet_body-some d bytes hs ho hb = ground arith

pub packet_of_bytes-header :
    (old : Data) (a b c d : ℕ) (rest : List ℕ)
    → packet_of_bytes old (a ∷ b ∷ c ∷ d ∷ rest)
      ≡ packet_body
          (record old { size = a + 256 * b; packet_type = c + 256 * d })
          (a ∷ b ∷ c ∷ d ∷ rest)
unfolding packet_of_bytes
packet_of_bytes-header old a b c d rest = refl

pub packet_of_bytes-some :
    (old : Data) (size packet_type : ℕ) (payload : List ℕ)
    → size < 2 ^ 15
    → size ≤ length old.body
    → size ≤ length payload
    → packet_of_bytes old (write_short size ++ write_short packet_type ++ payload)
      ≡ some (built old size packet_type payload)
packet_of_bytes-some old size packet_type payload hs ho hp =
    packet_of_bytes-header old (size % 256) (size / 256) (packet_type % 256) (packet_type / 256)
      payload
    ∙ rw (read-write_short size, read-write_short packet_type)
        (packet_body-some (record old { size = size; packet_type = packet_type })
          (write_short size ++ write_short packet_type ++ payload) hs ho hp)

-- A packet built with a size below 2 ^ 15 from at least so many bytes is sent as a datagram of its
-- size and four bytes, and the packet that the receiver builds from that datagram has the same
-- size, the same type and the same bytes, whatever the packet memory, of full size, held on either
-- side.
pub wire_lem :
    (size packet_type : ℕ) (bytes : List ℕ) (old old' : Data)
    → size < 2 ^ 15
    → packet_type < 2 ^ 16
    → size ≤ length bytes
    → length old.body ≡ max_packet_size
    → length old'.body ≡ max_packet_size
    → (sent received : Data) × (datagram : List ℕ) × (packet_with_body old size packet_type bytes
        ≡ some sent)
      × (wire sent ≡ some datagram)
      × (length datagram ≡ size + 4)
      × (packet_of_bytes old' datagram ≡ some received)
      × (received.size ≡ size)
      × (received.packet_type ≡ packet_type)
      × (take size received.body ≡ take size bytes)
wire_lem size packet_type bytes old old' hs ht hb ho ho' =
    let sent = built old size packet_type bytes in
    let payload = take size bytes in
    let kept : take size sent.body ≡ payload = take-take size bytes (drop size old.body) hb in
    let sized : length payload ≡ size = length-take_self size bytes hb in
    (
      sent,
      built old' size packet_type payload,
      write_short size ++ write_short packet_type ++ payload,
      packet_with_body-built old size packet_type bytes (omega arith) (omega arith) hb,
      wire-some sent (omega (arith, length-append payload (drop size old.body)))
          ∙ ap (λ (xs : List ℕ). some (write_short size ++ write_short packet_type ++ xs)) kept,
      omega (arith, sized),
      packet_of_bytes-some old' size packet_type payload hs (omega arith) (omega arith),
      refl,
      refl,
      take-take size payload (drop size old'.body) (omega arith) ∙ take-all size payload sized,
    )
