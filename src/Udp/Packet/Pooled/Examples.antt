-- ===== src/Udp/Packet/Pooled/Examples.antt =====
-- The theorems on packets and their pool, at the pools of the threads: thread 1 makes a packet, and
-- thread 2 ends it.
use server_core.Common.{◌≡◌, ◌≢◌, ◌⊎◌, refl, inr, true, [], ◌∷◌, some, count, arith}
use server_core.MemoryPool.Memory.{Ptr, null}
use server_core.MemoryPool.Storage.{empty, add_block, storage_malloc}
use server_core.MemoryPool.Pool.{new_pool}
use server_core.MemoryPool.Pool
use server_core.MemoryPool.ChunkPool.{ChunkPool}
use server_core.MemoryPool.ObjectPool.{malloc, object_pool, malloc_from}
use server_core.MemoryPool.ObjectPool.Contract.{object_chunks}
use server_core.MemoryPool.ObjectPool.Examples.{blank, made, made-Answers, rest}
use server_core.Udp.Packet.Owners.{no_owners, make_packet, end_packet}
use server_core.Udp.Packet.Owners.Histories.{owners_of}
use server_core.Udp.Packet.Pooled.{Packets, construct, destruct, is_last}
use server_core.Udp.Packet.Pooled.Histories.{Step, Reach, start, later, constructs}
use server_core.Udp.Packet.Pooled.Contents.{packet_data_kept}
use server_core.Udp.Packet.Pooled.Calls.{new_data_unowned, destruct-some}

abbrev chunks : ChunkPool
chunks = object_chunks 14

abbrev no_packets : Packets chunks
no_packets = record { data_pool = made.objects; owners = no_owners }

abbrev one_packet : Packets chunks
one_packet = record {
  data_pool = rest (malloc made.objects 1 1000);
  owners = make_packet no_owners 1008;
}

no_packets-Reach : Reach chunks no_packets
no_packets-Reach = start made.objects (blank, λ c. 0, refl)

one_constructed : construct chunks no_packets (1, 1000) ≡ some one_packet
unfolding construct malloc object_pool malloc_from Pool.malloc new_pool empty add_block
    storage_malloc
one_constructed = refl

one_packet-Reach : Reach chunks one_packet
one_packet-Reach =
    later no_packets-Reach (constructs (1, 1000) one_packet made-Answers one_constructed)

new_data_unowned_example :
    (p : Ptr) × (one_packet.owners.packets ≡ p ∷ [])
    × (p ≢ null)
    × (owners_of no_owners p ≡ 0)
    × (owners_of one_packet.owners p ≡ 1)
    × chunks.Lends one_packet.data_pool (p ∷ [])
new_data_unowned_example =
    new_data_unowned chunks no_packets one_packet (1, 1000) no_packets-Reach made-Answers
      one_constructed

destruct-some_example :
    (t : Packets chunks) × (destruct chunks one_packet (2, 0) 1008 ≡ some t)
    × (t.owners ≡ end_packet one_packet.owners 1008)
    × chunks.Lends t.data_pool t.owners.held
    × (is_last chunks one_packet.owners 1008 ≡ true → count 1008 t.owners.held ≡ 0)
unfolding make_packet malloc Pool.malloc empty new_pool add_block storage_malloc
destruct-some_example =
    destruct-some chunks one_packet (2, 0) 1008 one_packet-Reach (omega arith) (inr (omega arith))

-- Thread 1 makes a second packet.
abbrev two_packets : Packets chunks
two_packets = record {
  data_pool = rest (malloc one_packet.data_pool 1 0);
  owners = make_packet (one_packet.owners) 1024;
}

second_constructed : Step chunks one_packet two_packets
unfolding construct malloc object_pool malloc_from Pool.malloc new_pool empty add_block
    storage_malloc
second_constructed =
    constructs (1, 0) two_packets (λ id found e z pos. absurd (omega (arith, pos))) refl

packet_data_kept_example :
    (chunks.content two_packets.data_pool 1008 ≡ chunks.content one_packet.data_pool 1008)
    ⊎ chunks.Writes one_packet.data_pool one_packet.owners.held two_packets.data_pool
unfolding make_packet
packet_data_kept_example =
    packet_data_kept chunks one_packet two_packets 1008 one_packet-Reach second_constructed
      (λ e. omega (arith, e)) (omega arith) (omega arith)
