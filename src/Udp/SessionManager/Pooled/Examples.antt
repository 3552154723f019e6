-- ===== src/Udp/SessionManager/Pooled/Examples.antt =====
-- The theorem on the manager with its pool, at a handshake over the pools of the threads.
use server_core.Common.{◌≡◌, ◌≢◌, refl, true, false, [], ◌∷◌, some, count, arith}
use server_core.MemoryPool.Memory.{null}
use server_core.MemoryPool.Storage.{empty, add_block, storage_malloc}
use server_core.MemoryPool.Pool.{new_pool}
use server_core.MemoryPool.Pool
use server_core.MemoryPool.ChunkPool.{ChunkPool}
use server_core.MemoryPool.ObjectPool.{malloc, object_pool, malloc_from}
use server_core.MemoryPool.ObjectPool.Contract.{object_chunks}
use server_core.MemoryPool.ObjectPool.Examples
use server_core.MemoryPool.ObjectPool.Examples.{made, made-Answers, rest}
use server_core.Udp.Endpoint.{Endpoint, endpoint_lt}
use server_core.Udp.Packet.{packet_with_body}
use server_core.Udp.SessionMap.{find, insert, place, same_key}
use server_core.Udp.SessionManager.{
  Completion, read, new_manager, iocp_task, kind_of, on_ack, on_syn, on_datagram, finish, send,
  recv,
}
use server_core.Udp.SessionManager.Handshake.{syn_datagram, ack_datagram}
use server_core.Udp.SessionManager.Examples.{here, there, heard, blank, fresh_manager}
use server_core.Udp.SessionManager.Pooled.{Sessions, pooled_task, tasks, Reach, start, later}
use server_core.Udp.SessionManager.Pooled.Lent.{pooled_session}

abbrev chunks : ChunkPool
chunks = object_chunks 14

abbrev syn_read : Completion
syn_read = read 6 there (syn_datagram 7 9 [])

abbrev ack_read : Completion
ack_read = read 6 there (ack_datagram [])

abbrev nobody : Sessions chunks
nobody = record { session_pool = made.objects; held = []; manager = fresh_manager }

abbrev waiting : Sessions chunks
waiting = record {
  session_pool = rest (malloc made.objects 1 1000);
  held = 1008 ∷ [];
  manager = iocp_task fresh_manager syn_read 1008;
}

abbrev greeted : Sessions chunks
greeted = record waiting { manager = iocp_task (waiting.manager) ack_read null }

syn_taken : pooled_task chunks nobody syn_read (1, 1000) ≡ some waiting
unfolding pooled_task malloc object_pool malloc_from Pool.malloc new_pool empty add_block
    storage_malloc kind_of
syn_taken = refl

ack_taken : pooled_task chunks waiting ack_read (1, 1000) ≡ some greeted
unfolding pooled_task kind_of
ack_taken = refl

greeted-Reach : Reach chunks greeted
unfolding kind_of
greeted-Reach =
    later
      (later
        (start made.objects true true false (heard 0 here) blank (Examples.blank, λ c. 0, refl))
        (tasks syn_read (1, 1000) waiting (λ _. made-Answers) syn_taken))
      (tasks ack_read (1, 1000) greeted (λ e. absurd (ground (arith, e))) ack_taken)

greeted-find : find there greeted.manager.sessions_ ≡ some 1008
unfolding new_manager iocp_task kind_of on_datagram on_syn on_ack finish packet_with_body send recv
    insert place find same_key endpoint_lt
greeted-find = refl

pooled_session_example :
    (1008 ≢ null)
    × (count 1008 greeted.held ≡ 1)
    × ((greeted.manager.heap 1008).endpoint_ ≡ there)
    × ((j : Endpoint) → find j greeted.manager.sessions_ ≡ some 1008 → j ≡ there)
    × ((j : Endpoint) → find j greeted.manager.pending_sessions_ ≢ some 1008)
    × (count 1008 greeted.manager.gone ≡ 0)
pooled_session_example = pooled_session chunks greeted there 1008 greeted-Reach greeted-find
