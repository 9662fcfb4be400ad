-- ===== src/Driver/Switch.antt =====
-- `my_ioctl` of multi_thread/Module/fiber_ioctl.c on `SWITCHTOFIBER`.
use linux_fibers.Prelude.{ℕ, ◌+◌, ◌-◌, ◌/◌, ◌%◌, true, false, none, some, pos, ◌==◌, if◌then◌else◌}
use linux_fibers.Prelude.Table.{find, modify}
use linux_fibers.Driver.State.{
  word, Fiber, Thread, Process, Kernel, fiber_key, thread_key, search_process, search_thread,
  search_fiber, update_fiber, put_process,
}
use linux_fibers.Driver.Task.{Task, nanoseconds, Outcome, done, oops, return, minus_one}

-- The microseconds since `start`, with the wrap-around of `unsigned long`.
unfoldable pub elapsed : ℕ → ℕ → ℕ
elapsed now start = (now + word - start) % word / 1000

-- `memcpy` of the task's registers and FPU state into the fiber that is left.
unfoldable pub save_context : Task → Fiber → Fiber
save_context c f = record f { regs = c.user_regs; fpu_reg = c.fxregs }

-- The fiber that is left stops, and is charged the time since it was switched in.
unfoldable pub stop : Task → Fiber → Fiber
stop c f = record f {
  running = false;
  total_time =
      if f.starting_time == 0
      then f.total_time
      else (f.total_time + elapsed (nanoseconds c.switch_out_time) f.starting_time) % word;
}

unfoldable pub start : Task → Fiber → Fiber
start c f = record f {
  running = true;
  activations = (f.activations + 1) % word;
  starting_time = nanoseconds c.switch_in_time;
}

-- `fiber->failed_activations += 1`
unfoldable pub fail : Fiber → Fiber
fail f = record f { failed_activations = (f.failed_activations + 1) % word }

-- `thread->active_fiber = fiber`
unfoldable pub set_active : ℕ → ℕ → Process → Process
set_active thr_id i p = record p {
  threads = modify thread_key thr_id (λ t. record t { active_fiber = i }) p.threads;
}

-- The process after the switch from the fiber `old` to the fiber `new`.
unfoldable pub switched_process : Task → ℕ → ℕ → Process → Process
unfolding update_fiber save_context stop set_active start
switched_process c old new p =
    update_fiber new (start c)
      (set_active c.pid new (update_fiber old (stop c) (update_fiber old (save_context c) p)))

-- The successful branch. The new registers are read after the old ones are saved.
unfoldable pub switch_from : Task → Thread → Fiber → Process → Kernel → Outcome
switch_from c t target p k = elim (find fiber_key t.active_fiber p.fibers) [
  | none ↦ oops
  | some _ ↦
      elim (find fiber_key target.index (update_fiber t.active_fiber (save_context c) p).fibers) [
        | none ↦ oops
        | some f ↦
            done (record { ret = pos 0; regs = f.regs; fxregs = f.fpu_reg; fls_out = none })
              (put_process (switched_process c t.active_fiber target.index p) k)
      ]
]

unfoldable pub switch_in : Task → ℕ → Process → Kernel → Outcome
switch_in c fib_id p k = elim (search_fiber c.hashing fib_id p) [
  | none ↦ return c minus_one k
  | some f ↦
      if f.running
      then return c minus_one (put_process (update_fiber f.index fail p) k)
      else elim (search_thread c.pid p) [
        | none ↦ return c minus_one k
        | some t ↦ switch_from c t f p k
      ]
]

unfoldable pub switch_to : Task → ℕ → Kernel → Outcome
switch_to c fib_id k = elim (search_process c.tgid k) [
  | none ↦ return c minus_one k
  | some p ↦ switch_in c fib_id p k
]
