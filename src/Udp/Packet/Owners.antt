-- ===== src/Udp/Packet/Owners.antt =====
-- core/udp_server/src/packet.hpp and packet.cpp: packets share their data. `data_` is a
-- `std::shared_ptr`, whose count is `use_count`; the last owner gives the memory back to
-- `data_pool_`. Another owner is a `write_io_data` of socket.hpp, which the port has until the
-- datagram is sent. Packets are known by their data; what stands in it is the parent's.
pub mod Histories
mod Examples
use server_core.Common.{ℕ, ◌+◌, ◌-◌, List, [], ◌∷◌, Option, none, some, ◌==◌, if◌then◌else◌}
use server_core.MemoryPool.Memory.{Ptr, null, erase}

-- `packets` has the data of each packet, null after a move from it, and `writes` that of each
-- `write_io_data` that is alive; `lost` that of those whose memory was given back without a call of
-- their destructor. `held` are the chunks that are taken from `data_pool_`.
pub record Owners : Type 0 where
  pub use_count : Ptr → ℕ
  pub packets : List Ptr
  pub writes : List Ptr
  pub lost : List Ptr
  pub held : List Ptr

abbrev pub no_owners : Owners
no_owners = record { use_count = λ p. 0; packets = []; writes = []; lost = []; held = [] }

abbrev pub set_count : Owners → Ptr → ℕ → Owners
set_count s p n = record s { use_count = λ q. if q == p then n else s.use_count q }

-- `shared_ptr` is copied, and destroyed with `delete_data` as its deleter.
abbrev pub share : Owners → Ptr → Owners
share s p = if p == null then s else set_count s p (s.use_count p + 1)

unfoldable pub release : Owners → Ptr → Owners
release s p =
    if p == null
    then s
    else let left = set_count s p (s.use_count p - 1) in
      if s.use_count p == 1 then record left { held = erase p s.held } else left

-- The constructors that take new data: `p` is what `data_pool_.Malloc()` answers.
unfoldable pub make_packet : Owners → (p : Ptr) → Owners
make_packet s p = record (set_count s p 1) { packets = p ∷ s.packets; held = p ∷ s.held }

-- `Packet(Packet&)` and `Packet(Packet&&)`, which swaps with an empty pointer
unfoldable pub copy_packet : Owners → (p : Ptr) → Owners
copy_packet s p = record (share s p) { packets = p ∷ s.packets }

unfoldable pub move_packet : Owners → (p : Ptr) → Owners
move_packet s p = record s { packets = p ∷ null ∷ erase p s.packets }

-- A packet is destroyed.
unfoldable pub end_packet : Owners → (p : Ptr) → Owners
unfolding release
end_packet s p = release (record s { packets = erase p s.packets }) p

-- `write_io_data(Packet&)`: none is the read of `size` through null.
unfoldable pub begin_write : Owners → (p : Ptr) → Option Owners
begin_write s p = if p == null then none else some (record (share s p) { writes = p ∷ s.writes })

-- `w_io_data_pool_.Free(ptr)` of a completion
unfoldable pub end_write : Owners → (p : Ptr) → Owners
end_write s p = record s { writes = erase p s.writes; lost = p ∷ s.lost }
