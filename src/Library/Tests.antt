-- ===== src/Library/Tests.antt =====
-- The library of multi_thread/src/function_calls.c on the states of a process with one thread.
use linux_fibers.Prelude.{◌≡◌, refl, true, false, none, some, [], ◌∷◌, arith}
use linux_fibers.Prelude.Table.{find}
use linux_fibers.Driver.State.{Fiber, Process, Kernel, new_fiber, search_process, search_thread}
use linux_fibers.Driver.Task.{Task}
use linux_fibers.Driver.Behaviour.Slots.{Located}
use linux_fibers.Library.Session.{Session, Client, finished, init_file, ensure_open}
use linux_fibers.Library.Calls.{fls_set_value_call, fls_get_value_call}
use linux_fibers.Library.Storage.{fls_get_value_call-fls_set_value_call}

abbrev task : Task
task = record {
  tgid = 7;
  pid = 8;
  user_regs = record { sp = 1; ip = 2; di = 3; bp = 4; others = [] };
  fxregs = [];
  switch_out_time = record { tv_sec = 0; tv_nsec = 0 };
  switch_in_time = record { tv_sec = 0; tv_nsec = 0 };
  fiber_allocated = true;
  process_allocated = true;
  thread_allocated = true;
  args_allocated = true;
  create_arg = none;
  fls_arg = none;
  copied_to_user = true;
  stray_bit = λ _. true;
  hashing = record { of_int = λ i. i; of_long = λ i. i };
}

abbrev client : Client
client = record {
  open_result = some 3;
  malloc_result = true;
  memalign_result = some 0x10000;
  task = task;
}

abbrev session : Session
session = record { fd = some 3; opened = true }

abbrev fiber : Fiber
fiber = record new_fiber { fls_bitmap = λ _. true }

abbrev process : Process
process = record {
  pid = 7;
  fiber_id = 1;
  fibers = fiber ∷ [];
  threads = record { pid = 8; active_fiber = 0 } ∷ [];
}

abbrev kernel : Kernel
kernel = record { list_process = process ∷ []; count_threads = 1 }

abbrev empty_kernel : Kernel
empty_kernel = record { list_process = []; count_threads = 0 }

opens : ensure_open client (record { fd = none; opened = false }) ≡ session
unfolding ensure_open init_file
opens = refl

located : Located task kernel process (record { pid = 8; active_fiber = 0 }) fiber
unfolding search_process search_thread find
located = record { process = refl; thread = refl; fiber = refl }

fls_get_value_call-fls_set_value_call_example :
    (k' : Kernel) × (fls_set_value_call client 3 99 session kernel ≡ finished tt session k')
    × (fls_get_value_call client 0 3 session k' ≡ finished 99 session k')
fls_get_value_call-fls_set_value_call_example =
    fls_get_value_call-fls_set_value_call client client session kernel process
      (record { pid = 8; active_fiber = 0 }) fiber 3 3 99 0 refl refl located (omega arith) refl
      refl refl refl refl refl refl refl
