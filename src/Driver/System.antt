-- ===== src/Driver/System.antt =====
-- The module of multi_thread/Module/fiber_ioctl.c over time: any tasks make any requests and exit,
-- one handler at a time.
use linux_fibers.Prelude.{ℕ, zero, suc, ◌≡◌, []}
use linux_fibers.Driver.State.{Kernel}
use linux_fibers.Driver.Task.{Task, Reply, done}
use linux_fibers.Driver.Exit.{pre_handler}
use linux_fibers.Driver.Ioctl.{Request, my_ioctl}

-- The globals after `fiber_ioctl_init`.
abbrev pub fresh_kernel : Kernel
fresh_kernel = record { list_process = []; count_threads = 0 }

-- A handler that returns.
pub data Step (k k' : Kernel) : Type 0 where
  request : (c : Task) (r : Request) (reply : Reply) → my_ioctl c r k ≡ done reply k' → Step k k'
  exit : (c : Task) (reply : Reply) → pre_handler c k ≡ done reply k' → Step k k'

-- The state after `n` handlers.
pub data Reach : ℕ → Kernel → Type 0 where
  start : Reach zero fresh_kernel
  next : {n : ℕ} {k k' : Kernel} → Reach n k → Step k k' → Reach (suc n) k'
