-- ===== src/Udp/Packet.antt =====
-- core/udp_server/src/packet.hpp and packet.cpp. A `short` is its bit pattern, below 2 ^ 16; an
-- array of `char` is a list of bytes. What `data_pool_.Malloc()` returns holds what its last user
-- left: the constructors take that as `old`. `none` is a read or a write out of bounds.
pub mod Owners
pub mod Pooled
pub mod Wire
pub mod Bounds
mod Examples
use server_core.Common.{
  ℕ, ◌+◌, ◌-◌, ◌*◌, ◌/◌, ◌%◌, ◌^◌, ◌≤◌, Bool, true, false, not, ◌&&◌, List, [], ◌∷◌, ◌++◌, Option,
  none, some, ltb, leb, if◌then◌else◌, length, take, drop,
}

-- `MAX_PACKET_SIZE`
abbrev pub max_packet_size : ℕ
max_packet_size = 65000

-- The sign of a short, and what its conversion to `size_t` makes of it.
abbrev pub is_negative : ℕ → Bool
is_negative x = leb (2 ^ 15) x

abbrev pub to_size_t : ℕ → ℕ
to_size_t x = if is_negative x then x + 2 ^ 64 - 2 ^ 16 else x

-- `x > n` for a short `x` and a positive `int`
abbrev pub short_gt : ℕ → ℕ → Bool
short_gt x n = not (is_negative x) && ltb n x

-- `struct data`; `body` has `max_packet_size` bytes.
pub record Data : Type 0 where
  pub size : ℕ
  pub packet_type : ℕ
  pub body : List ℕ

-- `memcpy(dst, src, n)` between arrays of known lengths.
abbrev pub memcpy : List ℕ → List ℕ → ℕ → Option (List ℕ)
memcpy dst src n =
    if leb n (length dst) && leb n (length src) then some (take n src ++ drop n dst) else none

-- `Packet(short size, short packet_type, const char* data)`
unfoldable pub packet_with_body : (old : Data) → (size packet_type : ℕ) → List ℕ → Option Data
packet_with_body old size packet_type bytes =
    if ltb max_packet_size size then some old else elim (memcpy old.body bytes size) [
      | none ↦ none
      | some body ↦ some (record { size = size; packet_type = packet_type; body = body })
    ]

-- `Packet(short size, short packet_type)`, whose test compares the signed value
unfoldable pub packet_without_body : (old : Data) → (size packet_type : ℕ) → Data
packet_without_body old size packet_type =
    if short_gt size max_packet_size
    then old
    else record old { size = size; packet_type = packet_type }

-- `*reinterpret_cast<const short*>(p)`, little-endian
abbrev pub read_short : List ℕ → Option ℕ
read_short (lo ∷ hi ∷ rest) = some (lo + 256 * hi)
read_short _ = none

abbrev pub write_short : ℕ → List ℕ
write_short x = x % 256 ∷ x / 256 ∷ []

-- The body of `Packet(const char* data)`, after the two header fields have been read.
pub packet_body : Data → List ℕ → Option Data
packet_body d bytes =
    if short_gt d.size max_packet_size
    then some d
    else elim (memcpy d.body (drop 4 bytes) (to_size_t d.size)) [
      | none ↦ none
      | some body ↦ some (record d { body = body })
    ]

-- `Packet(const char* data)`
unfoldable pub packet_of_bytes : (old : Data) → List ℕ → Option Data
unfolding packet_body
packet_of_bytes old bytes = elim (read_short bytes) [
  | none ↦ none
  | some size ↦ elim (read_short (drop 2 bytes)) [
    | none ↦ none
    | some packet_type ↦ packet_body (record old { size = size; packet_type = packet_type }) bytes
  ]
]

-- `SetSize` and `SetType`
abbrev pub set_size : Data → ℕ → Data
set_size d size = record d { size = size }

abbrev pub set_type : Data → ℕ → Data
set_type d packet_type = record d { packet_type = packet_type }

-- What `write_io_data` of socket.hpp hands to `WSASendTo`: the first `(unsigned short)size + 4`
-- bytes of the packed structure.
unfoldable pub wire : Data → Option (List ℕ)
wire d =
    if leb d.size (length d.body)
    then some (write_short d.size ++ write_short d.packet_type ++ take d.size d.body)
    else none
