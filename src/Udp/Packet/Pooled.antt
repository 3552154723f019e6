-- ===== src/Udp/Packet/Pooled.antt =====
-- core/udp_server/src/packet.hpp and packet.cpp: packets and `data_pool_` together. The pool is any
-- that keeps the laws of `MemoryPool.ChunkPool`.
pub mod Histories
pub mod Lent
pub mod Calls
pub mod Contents
mod Examples
use server_core.Common.{
  ℕ, Bool, true, false, not, ◌&&◌, ◌==◌, Option, none, some, if◌then◌else◌, ◌>>=◌,
}
use server_core.MemoryPool.Memory.{Ptr, null}
use server_core.MemoryPool.ChunkPool.{ChunkPool}
use server_core.Udp.Packet.Owners.{Owners, make_packet, end_packet}

module _ (chunks : ChunkPool) where
  -- `data_pool_`, and the packets with the data that they share
  pub record Packets : Type 0 where
    pub data_pool : chunks.State
    pub owners : Owners

  -- The constructors that take new data. Null is taken for a fault: no pool with the laws answers it.
  unfoldable pub construct : Packets → chunks.Call → Option Packets
  construct s call = do
    given ← chunks.malloc s.data_pool call
    if given.0 == null
        then none
        else some (record { data_pool = given.1; owners = make_packet s.owners given.0 })

  -- `~Packet`: the last owner of the data calls `delete_data`.
  abbrev pub is_last : Owners → Ptr → Bool
  is_last s p = not (p == null) && s.use_count p == 1

  unfoldable pub destruct : Packets → chunks.Call → (p : Ptr) → Option Packets
  destruct s call p =
      let left = end_packet s.owners p in
      elim (is_last s.owners p) [
        | false ↦ some (record s { owners = left })
        | true ↦ do
          given ← chunks.free s.data_pool call p
          some (record { data_pool = given; owners = left })
      ]
