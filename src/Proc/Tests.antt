-- ===== src/Proc/Tests.antt =====
-- The files under /proc of multi_thread/Module/proc.c for a process with two fibers.
use linux_fibers.Prelude.{ℕ, ◌%◌, false, ◌≡◌, refl, true, none, some, [], ◌∷◌, arith}
use linux_fibers.Prelude.Table.{find}
use linux_fibers.Driver.State.{
  Fiber, Process, Kernel, fiber_key, new_fiber, Hashing, same_bucket, int_argument, search_process,
  search_thread,
}
use linux_fibers.Driver.Task.{nanoseconds, fiber_name}
use linux_fibers.Driver.Invariant.{runs, active, IsValidProcess}
use linux_fibers.Proc.Entries.{
  Entry, no_entry, fibers_entry, table, crash, fill_null, fibers_readdir, fibers_lookup, fh_readdir,
  starts_with,
}
use linux_fibers.Proc.Listed.{entry_or, listed}
use linux_fibers.Proc.Files.{
  is_running, entry_point, thread_id, activations, failed_activations, execution_time, show_file,
  shows, open_file, open_file-fiber_name,
}
use linux_fibers.Proc.Accounting.{Cpu, charge_old, switch_handler, fiber_of, accounted}

abbrev first : Fiber
first = record new_fiber { running = true; name = b'0' ∷ []; total_time = 100; thread_id = 8 }

abbrev second : Fiber
second = record new_fiber { index = 1; name = b'1' ∷ []; starting_point = 0x4000 }

abbrev process : Process
process = record {
  pid = 7;
  fiber_id = 2;
  fibers = second ∷ first ∷ [];
  threads = record { pid = 8; active_fiber = 0 } ∷ [];
}

abbrev kernel : Kernel
kernel = record { list_process = process ∷ []; count_threads = 1 }

shown :
    show_file first
    ≡ is_running
      ∷ entry_point 0
      ∷ thread_id 8
      ∷ activations 0
      ∷ failed_activations 0
      ∷ execution_time 100
      ∷ []
unfolding show_file
shown = refl

-- The directory `fibers` is not listed again in itself.
not_nested : fh_readdir (some 7) (b'f' ∷ b'i' ∷ b'b' ∷ b'e' ∷ b'r' ∷ b's' ∷ []) kernel [] ≡ some []
unfolding fh_readdir starts_with search_process find
not_nested = refl

added : fh_readdir (some 7) (b'7' ∷ []) kernel [] ≡ some (fibers_entry ∷ [])
unfolding fh_readdir starts_with search_process find
added = refl

process-IsValidProcess : IsValidProcess process
unfolding runs active find
process-IsValidProcess = record {
  fibers_distinct = (refl, (refl, tt));
  threads_distinct = (refl, tt);
  issued = λ i b h. ground arith;
  active_runs = λ q i h. ground arith;
  one_owner = λ q r i h e. ground arith;
  owned = λ i h. (8, ground arith);
}

listed_example :
    (u : ℕ → Entry) × (fibers_readdir true (some 7) kernel ≡ table u 2)
    × (fibers_lookup true (some 7) kernel ≡ table u 2)
    × ((i : ℕ) → u i ≡ entry_or no_entry (find fiber_key i process.fibers))
    × (fibers_readdir false (some 7) kernel ≡ crash)
    × (fibers_lookup false (some 7) kernel ≡ crash)
unfolding search_process find fill_null
listed_example = listed 7 kernel process process-IsValidProcess refl

-- Both kinds of keys in the buckets of their last bits.
abbrev hashing : Hashing
hashing = record { of_int = λ i. i % 1024; of_long = λ i. i % 1024 }

open_file-fiber_name_example : open_file hashing 7 (fiber_name 1) kernel ≡ shows (some second)
unfolding search_process find same_bucket int_argument
open_file-fiber_name_example =
    open_file-fiber_name hashing 7 kernel process second 1 refl refl (omega arith) refl

abbrev cpu : Cpu
cpu = record { scheduled = none; kernel = kernel }

accounted_example :
    (c' : Cpu) × (k : Kernel) × (f' : Fiber) × (switch_handler
        (record { tgid = 7; pid = 8 })
        (record { tv_sec = 0; tv_nsec = 0 })
        (record { tv_sec = 2; tv_nsec = 5000 })
        cpu
      ≡ some c')
    × (c'.scheduled ≡ some (record { tgid = 7; pid = 8 }))
    × (charge_old (record { tv_sec = 2; tv_nsec = 12000 }) c' ≡ some k)
    × (fiber_of (record { tgid = 7; pid = 8 }) k ≡ some f')
    × (f'.total_time ≡ 107)
unfolding fiber_of search_process search_thread find nanoseconds
accounted_example =
    accounted (record { tgid = 7; pid = 8 }) (record { tv_sec = 0; tv_nsec = 0 })
      (record { tv_sec = 2; tv_nsec = 5000 }) (record { tv_sec = 2; tv_nsec = 12000 }) cpu first
      refl refl (omega arith)
