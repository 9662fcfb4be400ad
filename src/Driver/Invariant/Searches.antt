-- ===== src/Driver/Invariant/Searches.antt =====
-- What the searches of multi_thread/Module/fiber_ioctl.c find in a valid state.
use linux_fibers.Prelude.{
  ℕ, ◌≡◌, refl, none, some, arith, Option-cases, inl, inr, List, [], ◌∷◌, length, ap, ◌∙◌,
}
use linux_fibers.Prelude.Table.{find, modify, find-key}
use linux_fibers.Driver.State.{
  Fiber, Thread, Process, Kernel, fiber_key, search_process, search_thread, int_argument,
  search_fiber, Hashing,
}
use linux_fibers.Driver.Invariant.{runs, active, IsValidProcess, IsValidKernel}
use linux_fibers.Driver.Invariant.Kernels.{searched}

pub active_of_search :
    (q : ℕ) (p : Process) (t : Thread)
    → search_thread q p ≡ some t
    → active p q ≡ some t.active_fiber
unfolding search_thread active
active_of_search q p t h = ground arith

pub idle_of_search : (q : ℕ) (p : Process) → search_thread q p ≡ none → active p q ≡ none
unfolding search_thread active
idle_of_search q p h = ground arith

-- The fiber that a search finds is found again by its own index.
pub find_of_search :
    (h : Hashing) (i : ℕ) (p : Process) (f : Fiber)
    → search_fiber h i p ≡ some f
    → find fiber_key f.index p.fibers ≡ some f
unfolding search_fiber
find_of_search h i p f found =
    let there : find fiber_key (int_argument i) p.fibers ≡ some f = ground arith in
    ap (λ j. find fiber_key j p.fibers) (find-key fiber_key (int_argument i) p.fibers f there)
    ∙ there

pub runs_of_search :
    (h : Hashing) (i : ℕ) (p : Process) (f : Fiber)
    → search_fiber h i p ≡ some f
    → runs p f.index ≡ some f.running
unfolding runs
runs_of_search h i p f found = ground (arith, find_of_search h i p f found)

pub length-modify :
    {A : Type 0} (key : A → ℕ) (k : ℕ) (g : A → A) (xs : List A)
    → length (modify key k g xs) ≡ length xs
unfolding modify
length-modify key k g [] = refl
length-modify key k g (x ∷ xs) = ground (arith, length-modify key k g xs)

-- The process that a search finds is found again by its own pid.
pub search_own :
    (n tgid : ℕ) (k : Kernel) (p : Process)
    → IsValidKernel n k
    → search_process tgid k ≡ some p
    → search_process p.pid k ≡ some p
search_own n tgid k p v h = ap (λ q. search_process q k) (searched n tgid k p v h).2 ∙ h

-- The active fiber of a thread is there.
pub active_found :
    (q : ℕ) (p : Process) (t : Thread)
    → IsValidProcess p
    → search_thread q p ≡ some t
    → (f : Fiber) × (find fiber_key t.active_fiber p.fibers ≡ some f)
unfolding runs
active_found q p t v busy = elim (Option-cases (find fiber_key t.active_fiber p.fibers)) [
  | inr there ↦ there
  | inl missing ↦
      absurd (ground (arith, v.active_runs q t.active_fiber (active_of_search q p t busy)))
]
