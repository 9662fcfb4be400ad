-- ===== src/Driver/Behaviour/Resume.antt =====
-- Context switches of multi_thread/Module/fiber_ioctl.c: what is saved is what comes back.
use linux_fibers.Prelude.{
  ℕ, ◌^◌, ◌≡◌, ◌<◌, refl, sym, ap, ◌∙◌, true, false, none, some, ◌≢◌, pos, arith,
}
use linux_fibers.Prelude.Table.{find, find-modify, find-key}
use linux_fibers.Driver.State.{
  Fiber, Thread, Process, Kernel, fiber_key, thread_key, process_key, search_process, search_thread,
  int_argument, Hashing, same_bucket, search_fiber, put_process,
}
use linux_fibers.Driver.Task.{Task, done}
use linux_fibers.Driver.Switch.{save_context, stop, start, switched_process, switch_in, switch_to}
use linux_fibers.Driver.Invariant.{IsValidProcess}
use linux_fibers.Driver.Invariant.Turnover.{switched_process-IsValidProcess}
use linux_fibers.Driver.Invariant.Kernels.{search-put_process}
use linux_fibers.Driver.Invariant.Searches.{active_of_search, runs_of_search, active_found}
use linux_fibers.Driver.Invariant.Switching.{switch_from_lem, target_differs}

-- An index that fits an `int` is searched as it is.
pub int_argument_small : (i : ℕ) → i < 2 ^ 31 → int_argument i ≡ i
unfolding int_argument
int_argument_small i h = ground arith

pub search_fiber_small :
    (h : Hashing) (i : ℕ) (p : Process)
    → i < 2 ^ 31
    → same_bucket h i ≡ true
    → search_fiber h i p ≡ find fiber_key i p.fibers
unfolding search_fiber
search_fiber_small h i p small same =
    rw same (ap (λ j. find fiber_key j p.fibers) (int_argument_small i small))

-- The whole of a successful switch.
pub switch_to_lem :
    (c : Task) (k : Kernel) (p : Process) (t : Thread) (f : Fiber) (fib_id : ℕ)
    → IsValidProcess p
    → search_process c.tgid k ≡ some p
    → search_thread c.pid p ≡ some t
    → search_fiber c.hashing fib_id p ≡ some f
    → f.running ≡ false
    → switch_to c fib_id k
      ≡ done
          (record { ret = pos 0; regs = f.regs; fxregs = f.fpu_reg; fls_out = none })
          (put_process (switched_process c t.active_fiber f.index p) k)
unfolding switch_to switch_in
switch_to_lem c k p t f fib_id v there busy target idle =
    rw (there, switch_to)
      (rw (target, switch_in)
        (rw (idle, busy) (switch_from_lem c k p t f fib_id v busy target idle)))

-- The fiber that a switch leaves.
find-switched_process_old :
    (c : Task) (old new : ℕ) (p : Process) (f : Fiber)
    → old ≢ new
    → find fiber_key old p.fibers ≡ some f
    → find fiber_key old (switched_process c old new p).fibers ≡ some (stop c (save_context c f))
unfolding switched_process
find-switched_process_old c old new p f other there =
    rw
      (
        find-modify fiber_key new old (start c) _ (λ g. refl),
        find-modify fiber_key old old (stop c) _ (λ g. refl),
        find-modify fiber_key old old (save_context c) p.fibers (λ g. refl),
        there,
      )
      (ground arith)

search_thread-switched_process :
    (c : Task) (old new : ℕ) (p : Process) (t : Thread)
    → search_thread c.pid p ≡ some t
    → search_thread c.pid (switched_process c old new p) ≡ some (record t { active_fiber = new })
unfolding switched_process search_thread
search_thread-switched_process c old new p t busy =
    rw
      (
        find-modify thread_key c.pid c.pid (λ u. record u { active_fiber = new }) p.threads
            (λ u. refl),
        busy,
      )
      (ground arith)

-- The process that a search finds, once it is replaced.
pub search_process-put_process :
    (tgid : ℕ) (k : Kernel) (p' p : Process)
    → p'.pid ≡ p.pid
    → search_process tgid k ≡ some p
    → search_process tgid (put_process p' k) ≡ some p'
unfolding search_process
search_process-put_process tgid k p' p same there =
    let e : p'.pid ≡ tgid = same ∙ find-key process_key tgid k.list_process p there in
    ap (λ q. search_process q (put_process p' k)) (sym e)
    ∙ search-put_process k p' p (ap (λ q. search_process q k) e ∙ there)

-- In a process in a valid state, let the thread of `c` run the fiber `t.active_fiber`, below 2 ^ 31
-- and with the same bucket as an `int` and as an `unsigned long`, and switch to a fiber `f` that does not run. The switch returns 0 and loads the registers and FPU
-- state saved in `f`; and when the thread then switches back, it goes on with exactly the registers
-- and the FPU state that it had at the first switch.
pub resume :
    (c d : Task) (k : Kernel) (p : Process) (t : Thread) (f : Fiber) (fib_id : ℕ)
    → IsValidProcess p
    → search_process c.tgid k ≡ some p
    → search_thread c.pid p ≡ some t
    → search_fiber c.hashing fib_id p ≡ some f
    → f.running ≡ false
    → t.active_fiber < 2 ^ 31
    → same_bucket d.hashing t.active_fiber ≡ true
    → d.tgid ≡ c.tgid
    → d.pid ≡ c.pid
    → (k' k'' : Kernel) × (switch_to c fib_id k
        ≡ done (record { ret = pos 0; regs = f.regs; fxregs = f.fpu_reg; fls_out = none }) k')
      × (switch_to d t.active_fiber k'
          ≡ done
              (record { ret = pos 0; regs = c.user_regs; fxregs = c.fxregs; fls_out = none })
              k'')
resume c d k p t f fib_id v there busy target idle small met same_tgid same_pid =
    let p' : Process = switched_process c t.active_fiber f.index p in
    let (old, here) = active_found c.pid p t v busy in
    let other : t.active_fiber ≢ f.index =
      target_differs c.pid p t f v busy (runs_of_search c.hashing fib_id p f target) idle in
    let v' : IsValidProcess p' =
      switched_process-IsValidProcess c t.active_fiber f.index p v (active_of_search c.pid p t busy)
        (runs_of_search c.hashing fib_id p f target ∙ ap some idle) in
    let left : find fiber_key t.active_fiber p'.fibers ≡ some (stop c (save_context c old)) =
      find-switched_process_old c t.active_fiber f.index p old other here in
    (
      put_process p' k,
      put_process (switched_process d f.index (stop c (save_context c old)).index p')
          (put_process p' k),
      switch_to_lem c k p t f fib_id v there busy target idle,
      unfold stop save_context in
          switch_to_lem d (put_process p' k) p' (record t { active_fiber = f.index })
            (stop c (save_context c old)) t.active_fiber v'
            (ap (λ q. search_process q (put_process p' k)) same_tgid
              ∙ search_process-put_process c.tgid k p' p (unfold switched_process in refl) there)
            (ap (λ q. search_thread q p') same_pid
              ∙ search_thread-switched_process c t.active_fiber f.index p t busy)
            (search_fiber_small d.hashing t.active_fiber p' small met ∙ left) refl,
    )
