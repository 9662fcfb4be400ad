-- ===== src/Driver/Invariant.antt =====
-- What the tables of multi_thread/Module/fiber_ioctl.h keep at all times: who runs which fiber.
pub mod Views
pub mod Processes
pub mod Turnover
pub mod Kernels
pub mod Searches
pub mod Outcomes
pub mod Creation
pub mod Switching
pub mod Slots
pub mod Exiting
pub mod Reachable
use mathlib.Core.Option
use linux_fibers.Prelude.{
  ℕ, ◌+◌, ◌≤◌, ◌<◌, ◌≡◌, Bool, true, List, [], ◌∷◌, Option, none, some, length,
}
use linux_fibers.Prelude.Table.{find, Distinct}
use linux_fibers.Driver.State.{Fiber, Thread, Process, Kernel, fiber_key, thread_key, process_key}

-- Whether the fiber `i` runs; `none` if there is no such fiber.
unfoldable pub runs : Process → ℕ → Option Bool
runs p i = Option.map (λ (f : Fiber). f.running) (find fiber_key i p.fibers)

-- The active fiber of the thread `q`.
unfoldable pub active : Process → ℕ → Option ℕ
active p q = Option.map (λ (t : Thread). t.active_fiber) (find thread_key q p.threads)

-- Threads and running fibers correspond one to one, and no index from `fiber_id` on is in use.
pub record IsValidProcess (p : Process) : Type 0 where
  pub fibers_distinct : Distinct fiber_key p.fibers
  pub threads_distinct : Distinct thread_key p.threads
  pub issued : (i : ℕ) (b : Bool) → runs p i ≡ some b → i < p.fiber_id
  pub active_runs : (q i : ℕ) → active p q ≡ some i → runs p i ≡ some true
  pub one_owner : (q r i : ℕ) → active p q ≡ some i → active p r ≡ some i → q ≡ r
  pub owned : (i : ℕ) → runs p i ≡ some true → (q : ℕ) × (active p q ≡ some i)

-- The number of threads in all processes.
unfoldable pub total_threads : List Process → ℕ
total_threads [] = 0
total_threads (p ∷ ps) = length p.threads + total_threads ps

-- The module's state after at most `n` system calls.
pub record IsValidKernel (n : ℕ) (k : Kernel) : Type 0 where
  pub distinct : Distinct process_key k.list_process
  pub counted : k.count_threads ≡ total_threads k.list_process
  pub few_threads : total_threads k.list_process ≤ n
  pub few_fibers :
      (q : ℕ) (p : Process) → find process_key q k.list_process ≡ some p → p.fiber_id ≤ n
  pub valid : (q : ℕ) (p : Process) → find process_key q k.list_process ≡ some p → IsValidProcess p
