-- ===== src/Single/Tests.antt =====
-- The single-threaded version on a process with one fiber.
use linux_fibers.Prelude.{
  ℕ, ◌≡◌, ◌≢◌, ◌==◌, if◌then◌else◌, refl, pos, false, true, some, [], ◌∷◌, arith,
}
use linux_fibers.Prelude.Table.{find}
use linux_fibers.Driver.Convert.{to_long}
use linux_fibers.Library.Session.{Session, ioctl_result, to_unsigned_long}
use linux_fibers.Single.Types.{
  done, Regs, Fiber, Thread, Process, Kernel, Task, return, search_process, search_thread,
  search_fiber, find_idle, int_argument,
}
use linux_fibers.Single.Fibers.{load_regs, switch_to}
use linux_fibers.Single.Switches.{fpu_state_lost}
use linux_fibers.Single.Local.{test_bit, with_fiber, fls_get_in, fls_get_value}
use linux_fibers.Single.Module.{my_ioctl}
use linux_fibers.Single.Client.{Client, ensure_open, ioctl, fls_get_value_call}
use linux_fibers.Single.Values.{Located, fls_get_value_loses}

program : Unit {0}
unfolding find to_long ioctl_result to_unsigned_long return search_process search_thread test_bit
    with_fiber fls_get_in fls_get_value my_ioctl ensure_open ioctl fls_get_value_call
program = tt

abbrev regs : Regs
regs = record { sp = 1; ip = 2; di = 3; bp = 4; others = 5 ∷ []; uncopied = 6 ∷ [] }

-- Slot 1 holds 99, all others an address above 2 ^ 31.
abbrev fiber : Fiber
fiber = record {
  running = true;
  index = 0;
  regs = regs;
  fls_bitmap = λ _. true;
  fls_array = λ i. if i == 1 then 99 else 0x7f0000001000;
  fpu_reg = 7 ∷ [];
}

abbrev thread : Thread
thread = record { pid = 8; active_fiber = 0 }

abbrev process : Process
process = record { pid = 7; fibers = fiber ∷ []; threads = thread ∷ []; fiber_id = 1 }

abbrev kernel : Kernel
kernel = record { list_process = process ∷ [] }

abbrev task : Task
task = record {
  tgid = 7;
  pid = 8;
  user_regs = regs;
  fxregs = 9 ∷ [];
  args_allocated = true;
  allocated = true;
  fiber_block = fiber;
  fpu_block = 0 ∷ [];
  create_arg = record { stack_pointer = 0x7000; start_address = 0x4000; parameter = 42 };
  fls_arg = record { fls_index = 1; fls_data = 5 };
  stray_bit = λ _. true;
  hashing = record { of_int = λ i. i; of_long = λ i. i };
}

abbrev client : Client
client = record { open_result = some 3; malloc_result = true; stack = 0x7000; task = task }

abbrev session : Session
session = record { fd = some 3; opened = true }

located : Located task kernel process thread fiber
unfolding program
located = record { process = refl; thread = refl; fiber = refl }

-- The low 32 bits of the address are all that comes back.
fls_get_value_loses_example : ◌≢◌ {A = ℕ} 0x1000 0x7f0000001000
unfolding program
fls_get_value_loses_example =
    fls_get_value_loses client session session kernel kernel process thread fiber 3 2 0x1000 refl
      refl located (omega arith) refl (omega arith) (omega arith) refl

-- The thread runs the fiber 0 and goes to the fiber 1, whose saved FPU state is 7.
abbrev idle : Fiber
idle = record fiber { running = false; index = 1 }

abbrev two_fibers : Process
two_fibers = record process { fibers = idle ∷ fiber ∷ [] }

abbrev ready : Kernel
ready = record { list_process = two_fibers ∷ [] }

fpu_state_lost_example :
    (k' : Kernel) × (switch_to task 1 ready
      ≡ done (record { ret = pos 0; regs = load_regs task idle; fxregs = 0 ∷ [] }) k')
unfolding search_process search_thread search_fiber find_idle int_argument find
fpu_state_lost_example =
    fpu_state_lost task 1 ready two_fibers thread idle fiber refl refl refl refl refl refl refl
