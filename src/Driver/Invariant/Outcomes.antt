-- ===== src/Driver/Invariant/Outcomes.antt =====
-- What a handler of multi_thread/Module/fiber_ioctl.c may end in.
use linux_fibers.Prelude.{
  ℕ, suc, ◌≡◌, ◌<◌, ◌≤◌, refl, Bool, true, false, ◌&&◌, some, if◌then◌else◌, arith, length, ℤ,
}
use linux_fibers.Driver.State.{
  word, Fiber, Process, Kernel, search_process, update_fiber, put_process,
}
use linux_fibers.Driver.Task.{Task, Outcome, done, oops, stray, return}
use linux_fibers.Driver.Invariant.{IsValidProcess, IsValidKernel}
use linux_fibers.Driver.Invariant.Turnover.{update_fiber-IsValidProcess}
use linux_fibers.Driver.Invariant.Kernels.{searched, put_process-IsValidKernel, IsValidKernel-le}
use linux_fibers.Driver.Invariant.Searches.{search_own}

-- The handler returns in a valid state, or follows a null pointer after an allocation that failed
-- and is not checked, or leaves the FLS arrays.
abbrev pub Safe : ℕ → Task → Outcome → Type 0
Safe n c (done r k) = IsValidKernel n k
Safe n c oops = (c.fiber_allocated && c.args_allocated) ≡ false
Safe n c stray = Unit

pub Safe-if :
    (n : ℕ) (c : Task) (b : Bool) (x y : Outcome)
    → (b ≡ true → Safe n c x)
    → (b ≡ false → Safe n c y)
    → Safe n c (if b then x else y)
Safe-if n c true x y hx hy = hx refl
Safe-if n c false x y hx hy = hy refl

module _ (n : ℕ) (room : suc n < word) (c : Task) where
  pub return-Safe : (r : ℤ) (k : Kernel) → IsValidKernel n k → Safe (suc n) c (return c r k)
  unfolding return
  return-Safe r k v = IsValidKernel-le n (suc n) k v (omega arith)

  pub returned-Safe : (r : ℤ) (k : Kernel) → IsValidKernel (suc n) k → Safe (suc n) c (return c r k)
  unfolding return
  returned-Safe r k v = v

  -- A process is replaced by one with the same threads.
  pub replaced-Safe :
      (k : Kernel) (p' p : Process)
      → IsValidKernel n k
      → search_process p'.pid k ≡ some p
      → IsValidProcess p'
      → p'.fiber_id ≤ suc n
      → length p'.threads ≡ length p.threads
      → IsValidKernel (suc n) (put_process p' k)
  replaced-Safe k p' p v there vp few same =
      put_process-IsValidKernel n (suc n) k.count_threads k p' p v (omega arith) there vp few
        (omega arith) (omega (arith, v.counted, v.few_threads))

  -- A write to a fiber that leaves its index and `running` alone.
  pub written-Safe :
      (k : Kernel) (p : Process) (i : ℕ) (g : Fiber → Fiber)
      → IsValidKernel n k
      → search_process c.tgid k ≡ some p
      → ((f : Fiber) → (g f).index ≡ f.index)
      → ((f : Fiber) → (g f).running ≡ f.running)
      → IsValidKernel (suc n) (put_process (update_fiber i g p) k)
  written-Safe k p i g v there keeps same =
      replaced-Safe k _ p v (unfold update_fiber in search_own n c.tgid k p v there)
        (update_fiber-IsValidProcess i g p keeps same found.0)
        (unfold update_fiber in omega (arith, found.1)) (unfold update_fiber in refl)
    where
      found : IsValidProcess p × (p.fiber_id ≤ n) × (p.pid ≡ c.tgid)
      found = searched n c.tgid k p v there
