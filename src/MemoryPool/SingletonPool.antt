-- ===== src/MemoryPool/SingletonPool.antt =====
-- core/memory_pool/include/singleton_pool.hpp: a pool for each thread, the thread-local `pool_`, of
-- which each call is that of its thread. `mutex_` is never locked. `none` is a fault of the pool.
mod Examples
use server_core.Common.{ℕ, ◌==◌, if◌then◌else◌, List, Option, none, some, ◌>>=◌}
use server_core.MemoryPool.Memory.{Ptr, Memory}
use server_core.MemoryPool.Pool.{Pool, new_pool}
use server_core.MemoryPool.Pool

pub record SingletonPool : Type 0 where
  pub mem : Memory
  pub pools : ℕ → Pool

abbrev pub new_singleton_pool : (requested_size : ℕ) → Memory → SingletonPool
new_singleton_pool requested_size mem = record { mem = mem; pools = λ t. new_pool requested_size }

abbrev pub set_pool : SingletonPool → (t : ℕ) → Memory → Pool → SingletonPool
set_pool s t mem p = record { mem = mem; pools = λ u. if u == t then p else s.pools u }

-- `Malloc`, `Free` and `PurgeMemory`, called by thread `t`.
unfoldable pub malloc : SingletonPool → (t : ℕ) → (ptr : Ptr) → Option (Ptr × SingletonPool)
malloc s t ptr = do
  given ← Pool.malloc s.mem (s.pools t) ptr
  some (given.0, set_pool s t given.1 given.2)

unfoldable pub free : SingletonPool → (t : ℕ) → (chunk : Ptr) → Option SingletonPool
free s t chunk = do taken ← Pool.free s.mem (s.pools t) chunk; some (set_pool s t taken.0 taken.1)

unfoldable pub purge_memory :
    (fuel : ℕ) → SingletonPool → (t : ℕ) → Option (List Ptr × SingletonPool)
purge_memory fuel s t = do
  purged ← Pool.purge_memory fuel s.mem (s.pools t)
  some (purged.0, set_pool s t s.mem purged.1)
