-- ===== src/Driver/Exit.antt =====
-- `Pre_Handler` of multi_thread/Module/fiber_ioctl.c: the probe on `do_exit`.
use linux_fibers.Prelude.{◌+◌, ◌-◌, ◌%◌, none, some, ◌==◌, if◌then◌else◌}
use linux_fibers.Prelude.Table.{find, remove}
use linux_fibers.Driver.State.{
  word, Thread, Process, Kernel, fiber_key, thread_key, process_key, search_process, search_thread,
  put_process,
}
use linux_fibers.Driver.Task.{Task, Outcome, oops, return}
use linux_fibers.Prelude.{pos}

-- `__sync_fetch_and_sub(&count_threads, 1)`
unfoldable pub count_down : Kernel → Kernel
count_down k = record k { count_threads = (k.count_threads + word - 1) % word }

-- The process without the thread and its active fiber.
unfoldable pub without_thread : Thread → Process → Process
without_thread t p = record p {
  threads = remove thread_key t.pid p.threads;
  fibers = remove fiber_key t.active_fiber p.fibers;
}

-- `hash_del(&(process->p_list))` and `kfree(process)`, when `count_threads` is 0.
unfoldable pub drop_process : Process → Kernel → Kernel
drop_process p k =
    if k.count_threads == 0
    then record k { list_process = remove process_key p.pid k.list_process }
    else k

unfoldable pub exit_thread : Task → Thread → Process → Kernel → Outcome
exit_thread c t p k = elim (find fiber_key t.active_fiber p.fibers) [
  | none ↦ oops
  | some _ ↦ return c (pos 0) (drop_process p (put_process (without_thread t p) (count_down k)))
]

unfoldable pub pre_handler : Task → Kernel → Outcome
pre_handler c k = elim (search_process c.tgid k) [
  | none ↦ return c (pos 0) k
  | some p ↦ elim (search_thread c.pid p) [
    | none ↦ return c (pos 0) k
    | some t ↦ exit_thread c t p k
  ]
]
