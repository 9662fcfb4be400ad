-- ===== src/Driver/Behaviour/Entry.antt =====
-- The first run of a fiber that `CREATEFIBER` of multi_thread/Module/fiber_ioctl.c has made.
use linux_fibers.Prelude.{ℕ, ◌^◌, ◌≡◌, ◌<◌, refl, ap, ◌∙◌, true, none, some, pos, arith}
use linux_fibers.Prelude.Table.{find-cons}
use linux_fibers.Driver.State.{
  Thread, Process, Kernel, fiber_key, search_process, search_thread, Hashing, same_bucket,
  search_fiber, put_process,
}
use linux_fibers.Driver.Task.{Task, CreateArg, done, return}
use linux_fibers.Driver.Convert.{to_long}
use linux_fibers.Driver.Create.{entry_regs, created_fiber, created_process, create_with, create}
use linux_fibers.Driver.Switch.{switched_process, switch_to}
use linux_fibers.Driver.Invariant.{IsValidProcess}
use linux_fibers.Driver.Invariant.Processes.{created_process-IsValidProcess}
use linux_fibers.Driver.Behaviour.Resume.{
  search_fiber_small, switch_to_lem, search_process-put_process,
}

pub create_lem :
    (c : Task) (args : CreateArg) (k : Kernel) (p : Process) (t : Thread)
    → c.args_allocated ≡ true
    → c.create_arg ≡ some args
    → search_process c.tgid k ≡ some p
    → search_thread c.pid p ≡ some t
    → c.fiber_allocated ≡ true
    → p.fiber_id < 2 ^ 31
    → create c k ≡ return c (pos p.fiber_id) (put_process (created_process c args p) k)
unfolding create create_with to_long
create_lem c args k p t a e there busy b small = ground arith

pub search_fiber-created_process :
    (h : Hashing) (c : Task) (args : CreateArg) (p : Process)
    → p.fiber_id < 2 ^ 31
    → same_bucket h p.fiber_id ≡ true
    → search_fiber h p.fiber_id (created_process c args p) ≡ some (created_fiber c args p)
unfolding created_process
search_fiber-created_process h c args p small same =
    search_fiber_small h p.fiber_id (created_process c args p) small same
    ∙ find-cons fiber_key p.fiber_id (created_fiber c args p) p.fibers
    ∙ unfold created_fiber in ground arith

search_thread-created_process :
    (c : Task) (args : CreateArg) (p : Process) (q : ℕ)
    → search_thread q (created_process c args p) ≡ search_thread q p
unfolding created_process search_thread
search_thread-created_process c args p q = refl

-- A converted thread of a process in a valid state, with fewer than 2 ^ 31 - 1 fibers made so far,
-- creates a fiber: the call returns the next index. If this index has the same bucket as an `int` and
-- as an `unsigned long`, a switch of the thread to it succeeds,
-- and the thread goes on at the start address, on the new stack, with the parameter in the register
-- of a first argument, and with every other register as at the creation.
pub create_and_enter :
    (c d : Task) (args : CreateArg) (k : Kernel) (p : Process) (t : Thread)
    → IsValidProcess p
    → search_process c.tgid k ≡ some p
    → search_thread c.pid p ≡ some t
    → c.args_allocated ≡ true
    → c.fiber_allocated ≡ true
    → c.create_arg ≡ some args
    → p.fiber_id < 2 ^ 31
    → same_bucket d.hashing p.fiber_id ≡ true
    → d.tgid ≡ c.tgid
    → d.pid ≡ c.pid
    → (k' k'' : Kernel) × (create c k ≡ return c (pos p.fiber_id) k')
      × (switch_to d p.fiber_id k'
          ≡ done
              (record {
                ret = pos 0;
                regs = record {
                  sp = args.stack_pointer;
                  ip = args.start_address;
                  di = args.parameter;
                  bp = args.stack_pointer;
                  others = c.user_regs.others;
                };
                fxregs = c.fxregs;
                fls_out = none;
              })
              k'')
create_and_enter c d args k p t v there busy a b e small met same_tgid same_pid =
    let p' : Process = created_process c args p in
    (
      put_process p' k,
      put_process (switched_process d t.active_fiber (created_fiber c args p).index p')
          (put_process p' k),
      create_lem c args k p t a e there busy b small,
      switch_to_lem d (put_process p' k) p' t (created_fiber c args p) p.fiber_id
            (created_process-IsValidProcess c args p v (omega arith))
            (ap (λ q. search_process q (put_process p' k)) same_tgid
              ∙ search_process-put_process c.tgid k p' p (unfold created_process in refl) there)
            (ap (λ q. search_thread q p') same_pid
              ∙ search_thread-created_process c args p c.pid
              ∙ busy)
            (search_fiber-created_process d.hashing c args p small met)
            (unfold created_fiber in refl)
          ∙ unfold created_fiber entry_regs in refl,
    )
