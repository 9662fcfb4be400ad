-- ===== src/Driver/Tests.antt =====
-- Runs of the module of multi_thread/Module/fiber_ioctl.c on small states, and the theorems applied
-- to them.
use linux_fibers.Prelude.{ℕ, ◌≡◌, ◌<◌, ◌≤◌, refl, true, false, none, some, [], ◌∷◌, arith, pos}
use linux_fibers.Prelude.Table.{find, remove, modify}
use linux_fibers.Driver.State.{
  Regs, Fiber, Thread, Process, Kernel, search_process, search_thread, search_fiber, update_fiber,
  put_process, new_process, new_fiber,
}
use linux_fibers.Driver.Task.{
  nanoseconds, CreateArg, Task, Outcome, done, oops, stray, plain_reply, return, minus_one,
  fiber_name,
}
use linux_fibers.Driver.Convert.{
  bitmap_zero, to_long, converted_fiber, converted_process, convert_in, add_process, convert,
}
use linux_fibers.Driver.Create.{entry_regs, created_fiber, created_process, create_with, create}
use linux_fibers.Driver.Switch.{
  elapsed, save_context, stop, start, fail, set_active, switched_process, switch_from, switch_in,
  switch_to,
}
use linux_fibers.Driver.Fls.{
  test_bit, first_zero, find_first_zero_bit, take_slot, clear_slot, write_slot, with_fiber,
  write_fiber, fls_alloc_in, fls_alloc, fls_free_in, fls_free, fls_get_in, with_fls_arg,
  fls_get_value, fls_set_in, fls_set_value,
}
use linux_fibers.Driver.Exit.{count_down, without_thread, drop_process, exit_thread, pre_handler}
use linux_fibers.Driver.Ioctl.{convert_to_fiber, create_fiber, my_ioctl}
use linux_fibers.Driver.System.{fresh_kernel, request, Reach, start as at_start, next}
use linux_fibers.Driver.Invariant.{runs, active, IsValidProcess}
use linux_fibers.Driver.Invariant.Outcomes.{Safe}
use linux_fibers.Driver.Invariant.Reachable.{
  my_ioctl-Safe, exclusive, Reach-IsValidKernel, fresh_kernel-IsValidKernel,
}
use linux_fibers.Driver.Behaviour.Resume.{resume}
use linux_fibers.Driver.Behaviour.Entry.{create_and_enter}
use linux_fibers.Driver.Behaviour.Conversion.{convert_twice}
use linux_fibers.Driver.Behaviour.Refusal.{seen, schedule, refused_switch}
use linux_fibers.Driver.Behaviour.Slots.{Located, fls_alloc_lem}
use linux_fibers.Driver.Behaviour.Values.{get-set, first_slot_stays}

program : Unit {0}
unfolding find remove modify search_process search_thread search_fiber update_fiber put_process
    new_process nanoseconds return plain_reply fiber_name bitmap_zero to_long converted_fiber
    converted_process convert_in add_process convert entry_regs created_fiber created_process
    create_with create elapsed save_context stop start fail set_active switched_process switch_from
    switch_in switch_to test_bit first_zero find_first_zero_bit take_slot clear_slot write_slot
    with_fiber write_fiber fls_alloc_in fls_alloc fls_free_in fls_free fls_get_in with_fls_arg
    fls_get_value fls_set_in fls_set_value count_down without_thread drop_process exit_thread
    pre_handler my_ioctl runs active seen
program = tt

abbrev args : CreateArg
args = record { stack_pointer = 0x7000; start_address = 0x4000; parameter = 42 }

-- A thread 8 of the process 7.
abbrev task : Task
task = record {
  tgid = 7;
  pid = 8;
  user_regs = record { sp = 1; ip = 2; di = 3; bp = 4; others = 5 ∷ [] };
  fxregs = 6 ∷ [];
  switch_out_time = record { tv_sec = 2; tv_nsec = 5000 };
  switch_in_time = record { tv_sec = 2; tv_nsec = 9000 };
  fiber_allocated = true;
  process_allocated = true;
  thread_allocated = true;
  args_allocated = true;
  create_arg = some args;
  fls_arg = some (record { fls_index = 3; fls_data = 99 });
  copied_to_user = true;
  stray_bit = λ _. true;
  hashing = record { of_int = λ i. i; of_long = λ i. i };
}

abbrev state_of : Outcome → Kernel
state_of (done r k) = k
state_of oops = fresh_kernel
state_of stray = fresh_kernel

abbrev converted : Kernel
converted = state_of (my_ioctl task convert_to_fiber fresh_kernel)

abbrev created : Kernel
created = state_of (my_ioctl task create_fiber converted)

abbrev one_fiber : Process
one_fiber = converted_process task (new_process 7)

abbrev two_fibers : Process
two_fibers = created_process task args one_fiber

abbrev thread : Thread
thread = record { pid = 8; active_fiber = 0 }

reach_created : Reach 2 created
unfolding program
reach_created =
    next (next at_start (request task convert_to_fiber (plain_reply task (pos 0)) refl))
      (request task create_fiber (plain_reply task (pos 1)) refl)

exclusive_example : ◌≡◌ {A = ℕ} 8 8
unfolding program
exclusive_example = exclusive (omega arith) reach_created 7 two_fibers refl 8 8 0 refl refl

my_ioctl-Safe_example : Safe 1 task (my_ioctl task convert_to_fiber fresh_kernel)
my_ioctl-Safe_example =
    my_ioctl-Safe 0 (omega arith) task convert_to_fiber fresh_kernel fresh_kernel-IsValidKernel

two_fibers-IsValidProcess : IsValidProcess two_fibers
unfolding program
two_fibers-IsValidProcess =
    (Reach-IsValidKernel (omega arith) reach_created).valid 7 two_fibers refl

one_fiber-IsValidProcess : IsValidProcess one_fiber
unfolding program
one_fiber-IsValidProcess =
    (Reach-IsValidKernel (omega arith)
        (next at_start (request task convert_to_fiber (plain_reply task (pos 0)) refl))).valid
      7 one_fiber refl

-- The fiber 1 starts with the entry point of `args`.
abbrev entry : Regs
entry = record { sp = 0x7000; ip = 0x4000; di = 42; bp = 0x7000; others = 5 ∷ [] }

resume_example :
    (k' : Kernel) × (k'' : Kernel) × (switch_to task 1 created
      ≡ done (record { ret = pos 0; regs = entry; fxregs = 6 ∷ []; fls_out = none }) k')
    × (switch_to task 0 k'
        ≡ done (record { ret = pos 0; regs = task.user_regs; fxregs = 6 ∷ []; fls_out = none }) k'')
unfolding program
resume_example =
    resume task task created two_fibers thread (created_fiber task args one_fiber) 1
      two_fibers-IsValidProcess refl refl refl refl (omega arith) refl refl refl

create_and_enter_example :
    (k' : Kernel) × (k'' : Kernel) × (create task converted ≡ return task (pos 1) k')
    × (switch_to task 1 k'
        ≡ done (record { ret = pos 0; regs = entry; fxregs = 6 ∷ []; fls_out = none }) k'')
unfolding program
create_and_enter_example =
    create_and_enter task task args converted one_fiber thread one_fiber-IsValidProcess refl refl
      refl refl refl (omega arith) refl refl refl

convert_twice_example : convert task converted ≡ return task minus_one converted
unfolding program
convert_twice_example =
    convert_twice task task fresh_kernel converted (plain_reply task (pos 0)) refl refl refl refl
      refl refl

-- The thread asks for the fiber that it runs.
refused_switch_example :
    seen schedule 7 (state_of (switch_to task 0 created)) ≡ seen schedule 7 created
unfolding program
refused_switch_example =
    refused_switch task 0 7 created (state_of (switch_to task 0 created))
      (plain_reply task minus_one) refl refl

converted-Located : Located task converted one_fiber thread (converted_fiber task (new_process 7))
unfolding program
converted-Located = record { process = refl; thread = refl; fiber = refl }

fls_alloc_lem_example :
    (index : ℕ) × (k' : Kernel) × (p' : Process) × (f' : Fiber) × (fls_alloc task converted
      ≡ return task (pos index) k')
    × (index ≤ 5)
    × ((converted_fiber task (new_process 7)).fls_bitmap index ≡ false)
    × ((j : ℕ) → j < index → (converted_fiber task (new_process 7)).fls_bitmap j ≡ true)
    × Located task k' p' thread f'
    × (f'.fls_bitmap index ≡ true)
    × (f'.fls_array index ≡ 0)
unfolding program
fls_alloc_lem_example =
    fls_alloc_lem task converted one_fiber thread (converted_fiber task (new_process 7)) 5
      converted-Located (omega arith) refl

-- A fiber with the slot 3 taken.
abbrev slotted_fiber : Fiber
slotted_fiber = record new_fiber {
  fls_bitmap =
      λ i. elim (Prim.Native.Nat.compare i 3) [ Prim.Native.Nat.Ordering.eq ↦ true | _ ↦ false ];
}

abbrev slotted_process : Process
slotted_process = record {
  pid = 7;
  fiber_id = 1;
  fibers = slotted_fiber ∷ [];
  threads = thread ∷ [];
}

abbrev slotted : Kernel
slotted = record { list_process = slotted_process ∷ []; count_threads = 1 }

slotted-Located : Located task slotted slotted_process thread slotted_fiber
unfolding program
slotted-Located = record { process = refl; thread = refl; fiber = refl }

get-set_example :
    (k' : Kernel) × (fls_set_value task slotted ≡ return task (pos 0) k')
    × (fls_get_value task k'
        ≡ done
            (record {
              ret = pos 1;
              regs = task.user_regs;
              fxregs = 6 ∷ [];
              fls_out = some (record { fls_index = 3; fls_data = 99 });
            })
            k')
get-set_example =
    get-set task task slotted slotted_process thread slotted_fiber 3 99 99 slotted-Located
      (omega arith) refl refl refl refl refl refl refl refl

first_slot_stays_example :
    (k' : Kernel) × (p' : Process) × (f' : Fiber) × (fls_alloc task converted
      ≡ return task (pos 0) k')
    × Located task k' p' thread f'
    × (f'.fls_bitmap 0 ≡ true)
    × (fls_free task 0 k' ≡ return task (pos 0) k')
unfolding program
first_slot_stays_example =
    first_slot_stays task task converted one_fiber thread (converted_fiber task (new_process 7))
      converted-Located (λ i h. refl) refl refl
