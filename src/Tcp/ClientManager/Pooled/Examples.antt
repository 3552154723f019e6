-- ===== src/Tcp/ClientManager/Pooled/Examples.antt =====
-- The theorem on clients and their pool, at a client that thread 2 disconnects.
use server_core.Common.{◌+◌, ◌≤◌, ◌≡◌, refl, inr, [], ◌∷◌, some, count, arith}
use server_core.MemoryPool.Memory.{Ptr}
use server_core.MemoryPool.Storage.{empty, add_block, storage_malloc}
use server_core.MemoryPool.Pool.{new_pool}
use server_core.MemoryPool.Pool
use server_core.MemoryPool.ChunkPool.{ChunkPool}
use server_core.MemoryPool.ObjectPool.{malloc, object_pool, malloc_from}
use server_core.MemoryPool.ObjectPool.Contract.{object_chunks}
use server_core.MemoryPool.ObjectPool.Examples.{blank, made, made-Answers, rest}
use server_core.Tcp.ClientManager.{new_client, add_client, remove_client, init, asked}
use server_core.Tcp.ClientManager.Pooled.{
  Clients, pooled_new, pooled_remove, asking, accepting, Reach, start, later,
}
use server_core.Tcp.ClientManager.Pooled.Lent.{pooled_remove-some}

abbrev chunks : ChunkPool
chunks = object_chunks 14

abbrev nobody : Clients chunks
nobody = record { client_pool = made.objects; held = []; system = init }

abbrev waiting_one : Clients chunks
waiting_one = record {
  client_pool = rest (malloc made.objects 1 1000);
  held = 1008 ∷ [];
  system = asked init 1008;
}

abbrev joined_one : Clients chunks
joined_one = record waiting_one {
  system = record { manager = add_client waiting_one.system.manager 1008; waiting = [] };
}

taken : pooled_new chunks nobody (1, 1000) ≡ some waiting_one
unfolding pooled_new malloc object_pool malloc_from Pool.malloc new_pool empty add_block
    storage_malloc
taken = refl

joined_one-Reach : Reach chunks joined_one
unfolding new_client
joined_one-Reach =
    later
      (later (start made.objects (blank, λ c. 0, refl))
        (asking (1, 1000) waiting_one made-Answers taken))
      (accepting 1008 refl)

pooled_remove-some_example :
    (t : Clients chunks) × (pooled_remove chunks joined_one (2, 0) 1008 ≡ some t)
    × (t.system.manager ≡ remove_client joined_one.system.manager 1008)
    × chunks.Lends t.client_pool t.held
    × ((a : Ptr)
        → (count a t.held ≡ count a t.system.waiting + count a t.system.manager.clients_)
          × (count a t.held ≤ 1))
unfolding malloc Pool.malloc empty new_pool add_block storage_malloc
pooled_remove-some_example =
    pooled_remove-some chunks joined_one (2, 0) 1008 joined_one-Reach (inr (omega arith))
