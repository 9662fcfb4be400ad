-- ===== src/Driver/Convert.antt =====
-- `my_ioctl` of multi_thread/Module/fiber_ioctl.c on `CONVERTTOFIBER`.
use linux_fibers.Prelude.{
  ℕ, ◌+◌, ◌-◌, ◌%◌, ◌^◌, true, false, ◌∷◌, none, some, ℤ, pos, negsuc, ltb, if◌then◌else◌,
}
use linux_fibers.Driver.State.{
  word, Fiber, Process, Kernel, search_process, search_thread, put_process, new_process, new_fiber,
  no_regs,
}
use linux_fibers.Driver.Task.{
  Task, nanoseconds, Outcome, oops, return, minus_one, minus_enomem, fiber_name,
}

-- `bitmap_zero(fiber->fls_bitmap, MAX_FLS)` clears 512 bytes from the start of an array of 8: the
-- bitmap, and behind it the whole of `regs`, the list node and the front of `fpu_reg`. The last two
-- are written after it by both callers.
unfoldable pub bitmap_zero : Fiber → Fiber
bitmap_zero f = record f { fls_bitmap = λ _. false; regs = no_regs }

-- A cast of an `unsigned long` to `long`.
unfoldable pub to_long : ℕ → ℤ
to_long n = if ltb n (2 ^ 63) then pos n else negsuc (word - n - 1)

-- The fiber that stands for the calling thread. The registers are copied before `bitmap_zero`.
unfoldable pub converted_fiber : Task → Process → Fiber
unfolding bitmap_zero
converted_fiber c p =
    let f : Fiber = record new_fiber {
      index = p.fiber_id;
      thread_id = c.pid;
      starting_point = c.user_regs.ip;
      name = fiber_name p.fiber_id;
      regs = c.user_regs;
      running = true;
      activations = 1;
      failed_activations = 0;
    } in
    let g : Fiber = bitmap_zero f in
    record g { starting_time = nanoseconds c.switch_in_time; total_time = 0; fpu_reg = c.fxregs }

-- The process with the new thread and its fiber.
unfoldable pub converted_process : Task → Process → Process
converted_process c p = record p {
  fiber_id = (p.fiber_id + 1) % word;
  fibers = converted_fiber c p ∷ p.fibers;
  threads = record { pid = c.pid; active_fiber = p.fiber_id } ∷ p.threads;
}

-- The part below the search for the process.
unfoldable pub convert_in : Task → Process → Kernel → Outcome
unfolding search_thread
convert_in c p k = elim (search_thread c.pid p) [
  | some _ ↦ return c minus_one k
  | none ↦
      if c.thread_allocated
      then if c.fiber_allocated
        then return c (to_long p.fiber_id) (
            put_process (converted_process c p)
              (record k { count_threads = (k.count_threads + 1) % word }))
        else oops
      else return c minus_enomem k
]

-- `hash_add(list_process, &process->p_list, process->pid)`
unfoldable pub add_process : Process → Kernel → Kernel
add_process p k = record k { list_process = p ∷ k.list_process }

unfoldable pub convert : Task → Kernel → Outcome
convert c k = elim (search_process c.tgid k) [
  | some p ↦ convert_in c p k
  | none ↦
      if c.process_allocated
      then convert_in c (new_process c.tgid) (add_process (new_process c.tgid) k)
      else return c minus_enomem k
]
