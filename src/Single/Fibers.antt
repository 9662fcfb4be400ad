-- ===== src/Single/Fibers.antt =====
-- `CONVERTTOFIBER`, `CREATEFIBER` and `SWITCHTOFIBER` in `my_ioctl`, and `Pre_Handler`, of
-- single_thread/Module/fiber_ioctl.c.
use linux_fibers.Prelude.{ℕ, ◌+◌, ◌%◌, true, false, [], ◌∷◌, none, some, pos, if◌then◌else◌}
use linux_fibers.Prelude.Table.{find, modify, remove}
use linux_fibers.Driver.State.{word}
use linux_fibers.Driver.Task.{minus_one}
use linux_fibers.Driver.Convert.{to_long}
use linux_fibers.Single.Types.{
  Regs, Fiber, Thread, Process, Kernel, fiber_key, thread_key, Task, Outcome, done, oops, return,
  search_process, search_thread, search_fiber, update_fiber, put_process,
}

-- The FLS bitmap and array of the block are left as they are found.
unfoldable pub converted_fiber : Task → Process → Fiber
converted_fiber c p =
    let f : Fiber = c.fiber_block in
    record f { index = p.fiber_id; regs = c.user_regs; running = true; fpu_reg = c.fxregs }

unfoldable pub converted_process : Task → Process → Process
converted_process c p = record p {
  threads = record { pid = c.pid; active_fiber = p.fiber_id } ∷ p.threads;
  fiber_id = (p.fiber_id + 1) % word;
  fibers = converted_fiber c p ∷ p.fibers;
}

-- The part below the search for the process. No result of `kmalloc` is looked at in time.
unfoldable pub convert_in : Task → Process → Kernel → Outcome
convert_in c p k = elim (search_thread c.pid p) [
  | some _ ↦ return c minus_one k
  | none ↦
      if c.allocated
      then return c (to_long p.fiber_id) (put_process (converted_process c p) k)
      else oops
]

unfoldable pub new_process : ℕ → Process
new_process pid = record { pid = pid; fibers = []; threads = []; fiber_id = 0 }

unfoldable pub add_process : Process → Kernel → Kernel
add_process p k = record k { list_process = p ∷ k.list_process }

unfoldable pub convert : Task → Kernel → Outcome
convert c k = elim (search_process c.tgid k) [
  | some p ↦ convert_in c p k
  | none ↦
      if c.allocated
      then convert_in c (new_process c.tgid) (add_process (new_process c.tgid) k)
      else oops
]

unfoldable pub created_fiber : Task → Process → Fiber
created_fiber c p =
    let f : Fiber = c.fiber_block in
    let r : Regs = c.user_regs in
    record f {
      running = false;
      index = p.fiber_id;
      regs = record r {
        sp = c.create_arg.stack_pointer;
        ip = c.create_arg.start_address;
        di = c.create_arg.parameter;
        bp = c.create_arg.stack_pointer;
      };
      fpu_reg = c.fxregs;
    }

-- `copy_fxregs_to_kernel(fiber->fpu_reg)`
unfoldable pub save_fpu : Task → Fiber → Fiber
save_fpu c f = record f { fpu_reg = c.fxregs }

-- The FPU state is saved in the active fiber too.
unfoldable pub created_process : Task → Thread → Process → Process
unfolding update_fiber save_fpu
created_process c t p =
    let q : Process = update_fiber t.active_fiber (save_fpu c) p in
    record q { fiber_id = (p.fiber_id + 1) % word; fibers = created_fiber c p ∷ q.fibers }

-- The part below `copy_from_user`.
unfoldable pub create_with : Task → Kernel → Outcome
create_with c k = elim (search_process c.tgid k) [
  | none ↦ return c minus_one k
  | some p ↦ elim (search_thread c.pid p) [
    | none ↦ return c minus_one k
    | some t ↦ elim (find fiber_key t.active_fiber p.fibers) [
      | none ↦ oops
      | some _ ↦
          if c.allocated
          then return c (to_long p.fiber_id) (put_process (created_process c t p) k)
          else oops
    ]
  ]
]

unfoldable pub create : Task → Kernel → Outcome
unfolding create_with
create c k = if c.args_allocated then create_with c k else oops

-- The registers of the task, copied one by one, and its FPU state.
unfoldable pub save_context : Task → Fiber → Fiber
save_context c f =
    let r : Regs = c.user_regs in
    record f { regs = record r { uncopied = f.regs.uncopied }; fpu_reg = c.fxregs }

-- The registers with which the task goes on.
unfoldable pub load_regs : Task → Fiber → Regs
load_regs c f = let r : Regs = f.regs in record r { uncopied = c.user_regs.uncopied }

-- `fiber->fpu_reg` is a new block from here on.
unfoldable pub renew_fpu : Task → Fiber → Fiber
renew_fpu c f = record f { fpu_reg = c.fpu_block }

unfoldable pub set_running : Fiber → Fiber
set_running f = record f { running = true }

unfoldable pub set_stopped : Fiber → Fiber
set_stopped f = record f { running = false }

unfoldable pub switched_process : Task → ℕ → ℕ → Process → Process
unfolding update_fiber save_context renew_fpu set_running set_stopped
switched_process c old new p =
    let q : Process =
      update_fiber old set_stopped
        (update_fiber old (save_context c) (update_fiber new (renew_fpu c) p)) in
    update_fiber new set_running (record q {
      threads = modify thread_key c.pid (λ t. record t { active_fiber = new }) q.threads;
    })

-- What is loaded is read after the old registers are saved; the FPU state from the new block.
unfoldable pub switch_from : Task → Thread → Fiber → Process → Kernel → Outcome
switch_from c t target p k = elim (find fiber_key t.active_fiber p.fibers) [
  | none ↦ oops
  | some _ ↦
      elim (find fiber_key target.index
        (update_fiber t.active_fiber (save_context c)
          (update_fiber target.index (renew_fpu c) p)).fibers) [
            | none ↦ oops
            | some f ↦
                if c.allocated
                then done (record { ret = pos 0; regs = load_regs c f; fxregs = f.fpu_reg })
                    (put_process (switched_process c t.active_fiber target.index p) k)
                else oops
          ]
]

unfoldable pub switch_to : Task → ℕ → Kernel → Outcome
switch_to c fib_id k = elim (search_process c.tgid k) [
  | none ↦ return c minus_one k
  | some p ↦ elim (search_fiber c.hashing fib_id p) [
    | none ↦ return c minus_one k
    | some f ↦ elim (search_thread c.pid p) [
      | none ↦ return c minus_one k
      | some t ↦ switch_from c t f p k
    ]
  ]
]

unfoldable pub without_thread : Thread → Process → Process
without_thread t p = record p {
  threads = remove thread_key t.pid p.threads;
  fibers = remove fiber_key t.active_fiber p.fibers;
}

unfoldable pub pre_handler : Task → Kernel → Outcome
pre_handler c k = elim (search_process c.tgid k) [
  | none ↦ return c (pos 0) k
  | some p ↦ elim (search_thread c.pid p) [
    | none ↦ return c (pos 0) k
    | some t ↦ elim (find fiber_key t.active_fiber p.fibers) [
      | none ↦ oops
      | some _ ↦ return c (pos 0) (put_process (without_thread t p) k)
    ]
  ]
]
