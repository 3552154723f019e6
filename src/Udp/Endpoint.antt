-- ===== src/Udp/Endpoint.antt =====
-- core/udp_server/src/endpoint.hpp. The fields are those that the comparisons read: the address and
-- the port in network byte order, 32 and 16 bits wide. `htons` and `InetPtonA` belong to Windows
-- and are arguments; the parsed address of a bad literal is whatever `InetPtonA` leaves.
pub mod Order
use server_core.Common.{ℕ, Bool, ◌&&◌, ◌||◌, ltb, ◌==◌}

pub record Endpoint : Type 0 where
  pub s_addr : ℕ
  pub sin_port : ℕ

-- The constructor, for a port and an address literal.
unfoldable pub make_endpoint :
    {Text : Type 0} → (htons : ℕ → ℕ) → (inet_pton : Text → ℕ) → ℕ → Text → Endpoint
make_endpoint htons inet_pton port ip = record { s_addr = inet_pton ip; sin_port = htons port }

-- `operator<`
unfoldable pub endpoint_lt : Endpoint → Endpoint → Bool
endpoint_lt a b = ltb a.s_addr b.s_addr || (a.s_addr == b.s_addr && ltb a.sin_port b.sin_port)

-- `operator==`
unfoldable pub endpoint_eq : Endpoint → Endpoint → Bool
endpoint_eq a b = a.s_addr == b.s_addr && a.sin_port == b.sin_port
