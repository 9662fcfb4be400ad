-- ===== src/Driver/Invariant/Switching.antt =====
-- `SWITCHTOFIBER` of multi_thread/Module/fiber_ioctl.c keeps `IsValidKernel`.
use linux_fibers.Prelude.{
  ℕ, suc, ◌≡◌, ◌<◌, ◌≤◌, refl, false, none, some, ◌≢◌, arith, Option-cases, inl, inr, pos, ap,
}
use linux_fibers.Prelude.Table.{find, find-modify}
use linux_fibers.Driver.State.{
  word, Fiber, Thread, Process, Kernel, fiber_key, thread_key, search_process, search_thread,
  search_fiber, update_fiber, put_process,
}
use linux_fibers.Driver.Task.{Task, done}
use linux_fibers.Driver.Switch.{
  switched_process, save_context, fail, switch_from, switch_in, switch_to,
}
use linux_fibers.Driver.Invariant.{runs, IsValidProcess, IsValidKernel}
use linux_fibers.Driver.Invariant.Turnover.{switched_process-IsValidProcess}
use linux_fibers.Driver.Invariant.Kernels.{searched}
use linux_fibers.Driver.Invariant.Searches.{
  active_of_search, find_of_search, runs_of_search, length-modify, active_found, search_own,
}
use linux_fibers.Driver.Invariant.Outcomes.{
  Safe, Safe-if, return-Safe, returned-Safe, replaced-Safe, written-Safe,
}

-- A write to one fiber is not seen at another.
find-update_fiber :
    (i j : ℕ) (g : Fiber → Fiber) (p : Process)
    → ((f : Fiber) → (g f).index ≡ f.index)
    → i ≢ j
    → find fiber_key j (update_fiber i g p).fibers ≡ find fiber_key j p.fibers
unfolding update_fiber
find-update_fiber i j g p keeps other =
    rw (find-modify fiber_key i j g p.fibers keeps) (ground arith)

-- The active fiber runs, so it is not the one that is switched to.
pub target_differs :
    (q : ℕ) (p : Process) (t : Thread) (f : Fiber)
    → IsValidProcess p
    → search_thread q p ≡ some t
    → runs p f.index ≡ some f.running
    → f.running ≡ false
    → t.active_fiber ≢ f.index
target_differs q p t f v busy target idle e =
    ground (arith, v.active_runs q t.active_fiber (active_of_search q p t busy))

-- What a switch of a thread to a fiber that does not run comes to.
pub switch_from_lem :
    (c : Task) (k : Kernel) (p : Process) (t : Thread) (f : Fiber) (fib_id : ℕ)
    → IsValidProcess p
    → search_thread c.pid p ≡ some t
    → search_fiber c.hashing fib_id p ≡ some f
    → f.running ≡ false
    → switch_from c t f p k
      ≡ done
          (record { ret = pos 0; regs = f.regs; fxregs = f.fpu_reg; fls_out = none })
          (put_process (switched_process c t.active_fiber f.index p) k)
unfolding switch_from
switch_from_lem c k p t f fib_id v busy target idle =
    let (old, there) = active_found c.pid p t v busy in
    let other : t.active_fiber ≢ f.index =
      target_differs c.pid p t f v busy (runs_of_search c.hashing fib_id p f target) idle in
    rw (there, switch_from)
      (rw (
        find-update_fiber t.active_fiber f.index (save_context c) p
            (λ g. unfold save_context in refl) other,
        find_of_search c.hashing fib_id p f target,
      ))

module _ (n : ℕ) (room : suc n < word) (c : Task) where
  switched-Safe :
      (k : Kernel) (p : Process) (t : Thread) (f : Fiber) (fib_id : ℕ)
      → IsValidKernel n k
      → search_process c.tgid k ≡ some p
      → search_thread c.pid p ≡ some t
      → search_fiber c.hashing fib_id p ≡ some f
      → f.running ≡ false
      → IsValidKernel (suc n) (put_process (switched_process c t.active_fiber f.index p) k)
  switched-Safe k p t f fib_id v there busy target idle =
      replaced-Safe n room c k _ p v (unfold switched_process in search_own n c.tgid k p v there)
        (switched_process-IsValidProcess c t.active_fiber f.index p found.0
          (active_of_search c.pid p t busy)
          (rw (runs_of_search c.hashing fib_id p f target) (ap some idle)))
        (unfold switched_process in omega (arith, found.1))
        (unfold switched_process in length-modify thread_key c.pid _ p.threads)
    where
      found : IsValidProcess p × (p.fiber_id ≤ n) × (p.pid ≡ c.tgid)
      found = searched n c.tgid k p v there

  switch_in-Safe :
      (k : Kernel) (p : Process) (fib_id : ℕ)
      → IsValidKernel n k
      → search_process c.tgid k ≡ some p
      → Safe (suc n) c (switch_in c fib_id p k)
  unfolding switch_in
  switch_in-Safe k p fib_id v there = elim (Option-cases (search_fiber c.hashing fib_id p)) [
    | inl h ↦ rw (h, switch_in) (return-Safe n room c _ k v)
    | inr (f, target) ↦
        rw (target, switch_in)
          (Safe-if (suc n) c f.running _ _
            (λ _. returned-Safe n room c _ _ (
              written-Safe n room c k p f.index fail v there (λ g. unfold fail in refl)
                (λ g. unfold fail in refl)))
            (λ idle. elim (Option-cases (search_thread c.pid p)) [
              | inl h ↦ rw h (return-Safe n room c _ k v)
              | inr (t, busy) ↦
                  rw
                    (
                      busy,
                      switch_from_lem c k p t f fib_id (searched n c.tgid k p v there).0 busy target
                          idle,
                    )
                    (switched-Safe k p t f fib_id v there busy target idle)
            ]))
  ]

  pub switch_to-Safe :
      (k : Kernel) (fib_id : ℕ) → IsValidKernel n k → Safe (suc n) c (switch_to c fib_id k)
  unfolding switch_to
  switch_to-Safe k fib_id v = elim (Option-cases (search_process c.tgid k)) [
    | inl h ↦ rw (h, switch_to) (return-Safe n room c _ k v)
    | inr (p, there) ↦ rw (there, switch_to) (switch_in-Safe k p fib_id v there)
  ]
