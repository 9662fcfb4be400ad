-- ===== src/Proc/Files.antt =====
-- The file of a fiber: `open_file` and `show_file` of multi_thread/Module/proc.c.
use linux_fibers.Prelude.{
  ℕ, ◌≡◌, ◌<◌, ◌^◌, ap, ◌∙◌, true, List, [], ◌∷◌, Option, none, some, arith, if◌then◌else◌,
}
use linux_fibers.Prelude.Table.{find}
use linux_fibers.Driver.State.{
  Fiber, Process, Kernel, fiber_key, search_process, Hashing, same_bucket, search_fiber,
}
use linux_fibers.Driver.Task.{fiber_name}
use linux_fibers.Driver.Behaviour.Resume.{search_fiber_small}
use linux_fibers.Proc.Names.{parse_decimal, parse-fiber_name}

-- One `seq_printf`: the line without the value in it, and the value.
pub data Line : Type 0 where
  is_running : Line
  not_running : Line
  entry_point : ℕ → Line
  thread_id : ℕ → Line
  activations : ℕ → Line
  failed_activations : ℕ → Line
  execution_time : ℕ → Line

unfoldable pub show_file : Fiber → List Line
show_file f =
    (if f.running then is_running else not_running)
    ∷ entry_point f.starting_point
    ∷ thread_id f.thread_id
    ∷ activations f.activations
    ∷ failed_activations f.failed_activations
    ∷ execution_time f.total_time
    ∷ []

-- `single_open(filp, show_file, fiber)`, with the fiber found or NULL. `no_process`: the null process
-- is handed to `search_fiber`, which follows it.
pub data Opened : Type 0 where
  shows : Option Fiber → Opened
  no_process : Opened

-- The file `name` of the process of the directory's task, which is not checked for NULL.
unfoldable pub open_file : Hashing → ℕ → List ℕ → Kernel → Opened
open_file h tgid name k = elim (search_process tgid k) [
  | none ↦ no_process
  | some p ↦ shows (search_fiber h (parse_decimal 0 name) p)
]

-- The file that bears the name of a fiber of a process, with an index of at most seven digits and
-- with the same bucket as an `int` and as an `unsigned long`, opens onto that fiber.
pub open_file-fiber_name :
    (h : Hashing) (tgid : ℕ) (k : Kernel) (p : Process) (f : Fiber) (i : ℕ)
    → search_process tgid k ≡ some p
    → find fiber_key i p.fibers ≡ some f
    → i < 10 ^ 7
    → same_bucket h i ≡ true
    → open_file h tgid (fiber_name i) k ≡ shows (some f)
unfolding open_file
open_file-fiber_name h tgid k p f i there here short same =
    let parsed : search_fiber h (parse_decimal 0 (fiber_name i)) p ≡ some f =
      ap (λ j. search_fiber h j p) (parse-fiber_name i short)
      ∙ search_fiber_small h i p (omega arith) same
      ∙ here in
    ground (arith, parsed)
