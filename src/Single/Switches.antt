-- ===== src/Single/Switches.antt =====
-- A switch of single_thread/Module/fiber_ioctl.c and the FPU state.
use mathlib.Core.Option
use linux_fibers.Prelude.{ℕ, ◌≡◌, refl, ap, ◌∙◌, true, false, some, ◌==◌, if◌then◌else◌, arith, pos}
use linux_fibers.Prelude.Table.{find, find-modify}
use linux_fibers.Single.Types.{
  Fiber, Thread, Process, Kernel, fiber_key, Task, done, search_process, search_thread,
  search_fiber, update_fiber, put_process,
}
use linux_fibers.Single.Fibers.{
  save_context, renew_fpu, load_regs, switched_process, switch_from, switch_to,
}

-- The target of a switch as it is loaded.
loaded :
    (c : Task) (p : Process) (old new : ℕ) (f : Fiber)
    → (old == new) ≡ false
    → find fiber_key new p.fibers ≡ some f
    → find fiber_key new
        (update_fiber old (save_context c) (update_fiber new (renew_fpu c) p)).fibers
      ≡ some (renew_fpu c f)
unfolding update_fiber
loaded c p old new f other there =
    find-modify fiber_key old new (save_context c) _ (λ g. unfold save_context in refl)
    ∙ ap
        (λ b.
          if b
          then Option.map (save_context c)
              (find fiber_key old (update_fiber new (renew_fpu c) p).fibers)
          else find fiber_key new (update_fiber new (renew_fpu c) p).fibers)
        other
    ∙ find-modify fiber_key new new (renew_fpu c) p.fibers (λ g. unfold renew_fpu in refl)
    ∙ ground arith

-- A converted thread whose process has no other fiber with the index of the target switches to it, and
-- the search finds it: the switch answers 0 and the task goes on with the target's general registers, but its FPU state is
-- whatever the freshly allocated block holds, never the one that the target had saved.
pub fpu_state_lost :
    (c : Task) (fib_id : ℕ) (k : Kernel) (p : Process) (t : Thread) (f g : Fiber)
    → search_process c.tgid k ≡ some p
    → search_thread c.pid p ≡ some t
    → search_fiber c.hashing fib_id p ≡ some f
    → find fiber_key f.index p.fibers ≡ some f
    → find fiber_key t.active_fiber p.fibers ≡ some g
    → (t.active_fiber == f.index) ≡ false
    → c.allocated ≡ true
    → (k' : Kernel) × (switch_to c fib_id k
        ≡ done (record { ret = pos 0; regs = load_regs c f; fxregs = c.fpu_block }) k')
unfolding switch_to switch_from load_regs renew_fpu
fpu_state_lost c fib_id k p t f g here thread target only active other memory =
    let e = loaded c p t.active_fiber f.index f other only in
    (
      put_process (switched_process c t.active_fiber f.index p) k,
      rw (here, switch_to) (rw (target, thread) (rw (active, switch_from) (rw e (rw memory refl)))),
    )
