-- ===== src/Driver/Create.antt =====
-- `my_ioctl` of multi_thread/Module/fiber_ioctl.c on `CREATEFIBER`.
use linux_fibers.Prelude.{◌+◌, ◌%◌, false, ◌∷◌, none, some, if◌then◌else◌}
use linux_fibers.Driver.State.{
  word, Regs, Fiber, Process, Kernel, search_process, search_thread, put_process, new_fiber,
}
use linux_fibers.Driver.Task.{Task, CreateArg, Outcome, oops, return, minus_one, fiber_name}
use linux_fibers.Driver.Convert.{bitmap_zero, to_long}

-- The registers with which a new fiber starts: the caller's, with the new stack, the entry point and
-- its argument.
unfoldable pub entry_regs : Task → CreateArg → Regs
entry_regs c args =
    let r : Regs = c.user_regs in
    record r {
      sp = args.stack_pointer;
      ip = args.start_address;
      di = args.parameter;
      bp = args.stack_pointer;
    }

unfoldable pub created_fiber : Task → CreateArg → Process → Fiber
unfolding bitmap_zero
created_fiber c args p =
    let f : Fiber = record new_fiber {
      running = false;
      index = p.fiber_id;
      activations = 0;
      failed_activations = 0;
      thread_id = c.pid;
      starting_point = args.start_address;
      starting_time = 0;
      total_time = 0;
    } in
    let g : Fiber = bitmap_zero f in
    record g { name = fiber_name p.fiber_id; regs = entry_regs c args; fpu_reg = c.fxregs }

unfoldable pub created_process : Task → CreateArg → Process → Process
created_process c args p = record p {
  fiber_id = (p.fiber_id + 1) % word;
  fibers = created_fiber c args p ∷ p.fibers;
}

-- The part below `copy_from_user`.
unfoldable pub create_with : Task → CreateArg → Kernel → Outcome
create_with c args k = elim (search_process c.tgid k) [
  | none ↦ return c minus_one k
  | some p ↦ elim (search_thread c.pid p) [
    | none ↦ return c minus_one k
    | some _ ↦
        if c.fiber_allocated
        then return c (to_long p.fiber_id) (put_process (created_process c args p) k)
        else oops
  ]
]

unfoldable pub create : Task → Kernel → Outcome
create c k =
    if c.args_allocated
    then elim c.create_arg [ none ↦ return c minus_one k | some args ↦ create_with c args k ]
    else oops
