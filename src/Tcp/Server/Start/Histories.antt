-- ===== src/Tcp/Server/Start/Histories.antt =====
-- What the workers of the pool do after `Init`, when no `IocpWork` ends: it loops on `TRUE`.
use server_core.Common.{ℕ, ◌≡◌, ◌≢◌, some, get_elem?, ◌==◌, if◌then◌else◌}
use server_core.ThreadPool.{Worker, looping, running, returned, stop_pool, System, worked}
use server_core.ThreadPool.Order.{at_task}
use server_core.Tcp.Server.Start.{loop_task, enqueue_on}

-- A step of the pool in which no `IocpWork` ends; other tasks have other numbers.
pub data Step (s : System) : System → Type 0 where
  works :
      (i : ℕ) (w : Worker)
      → get_elem? s.workers i ≡ some w
      → w ≢ returned
      → w ≢ running loop_task
      → Step s (worked s i w)
  adds : (t : ℕ) (u : System) → t ≢ loop_task → enqueue_on s t ≡ some u → Step s u
  stops : Step s (record s { pool = stop_pool s.pool })

pub data Serves (s : System) : System → Type 0 where
  begun : Serves s s
  later : {t u : System} → Serves s t → Step t u → Serves s u

abbrev pub at_iocp : Worker → ℕ
at_iocp w = at_task loop_task w

abbrev pub at_loop : Worker → ℕ
at_loop looping = 1
at_loop _ = 0

-- At another task, or returned.
abbrev pub elsewhere : Worker → ℕ
elsewhere looping = 0
elsewhere (running t) = if t == loop_task then 0 else 1
elsewhere returned = 1
