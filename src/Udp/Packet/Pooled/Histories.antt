-- ===== src/Udp/Packet/Pooled/Histories.antt =====
-- Histories of packets over a pool: each call is one step, by any thread, and packets write into
-- their data between them.
use server_core.Common.{◌<◌, ◌≡◌, some, count}
use server_core.MemoryPool.Memory.{Ptr}
use server_core.MemoryPool.ChunkPool.{ChunkPool}
use server_core.Udp.Packet.Owners.{
  Owners, no_owners, copy_packet, move_packet, begin_write, end_write,
}
use server_core.Udp.Packet.Pooled.{Packets, construct, destruct}

module _ (chunks : ChunkPool) where
  pub data Step (s : Packets chunks) : Packets chunks → Type 0 where
    constructs :
        (call : chunks.Call) (t : Packets chunks)
        → chunks.Answers s.data_pool s.owners.held call
        → construct chunks s call ≡ some t
        → Step s t
    copied :
        (p : Ptr)
        → 0 < count p s.owners.packets
        → Step s (record s { owners = copy_packet s.owners p })
    moved :
        (p : Ptr)
        → 0 < count p s.owners.packets
        → Step s (record s { owners = move_packet s.owners p })
    destructs :
        (call : chunks.Call) (p : Ptr) (t : Packets chunks)
        → 0 < count p s.owners.packets
        → destruct chunks s call p ≡ some t
        → Step s t
    handed :
        (p : Ptr) (owners : Owners)
        → 0 < count p s.owners.packets
        → begin_write s.owners p ≡ some owners
        → Step s (record s { owners = owners })
    completed :
        (p : Ptr)
        → 0 < count p s.owners.writes
        → Step s (record s { owners = end_write s.owners p })
    writes :
        (data_pool : chunks.State)
        → chunks.Writes s.data_pool s.owners.held data_pool
        → Step s (record s { data_pool = data_pool })

  pub data Reach : Packets chunks → Type 0 where
    start :
        (s : chunks.State) → chunks.initial s → Reach (record { data_pool = s; owners = no_owners })
    later : {s t : Packets chunks} → Reach s → Step s t → Reach t
