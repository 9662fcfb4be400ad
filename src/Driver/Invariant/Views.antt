-- ===== src/Driver/Invariant/Views.antt =====
-- How the operations on a process of multi_thread/Module/fiber_ioctl.c change who runs what.
use linux_fibers.Prelude.{
  Option-cases, inl, inr, ℕ, ◌≡◌, refl, Bool, true, false, none, some, ◌==◌, if◌then◌else◌, arith,
}
use linux_fibers.Prelude.Table.{find, find-modify, find-remove, Distinct}
use linux_fibers.Driver.State.{Fiber, Thread, Process, fiber_key, thread_key, update_fiber}
use linux_fibers.Driver.Task.{Task, CreateArg}
use linux_fibers.Driver.Convert.{converted_fiber, converted_process}
use linux_fibers.Driver.Create.{created_fiber, created_process}
use linux_fibers.Driver.Switch.{save_context, stop, start, set_active, switched_process}
use linux_fibers.Driver.Exit.{without_thread}
use linux_fibers.Driver.Invariant.{runs, active}

-- A write that sets `running` of a fiber that is there.
pub runs-update_fiber :
    (i j : ℕ) (g : Fiber → Fiber) (b d : Bool) (p : Process)
    → ((f : Fiber) → (g f).index ≡ f.index)
    → ((f : Fiber) → (g f).running ≡ b)
    → runs p i ≡ some d
    → runs (update_fiber i g p) j ≡ (if i == j then some b else runs p j)
unfolding runs update_fiber
runs-update_fiber i j g b d p keeps sets there =
    rw (find-modify fiber_key i j g p.fibers keeps)
      (elim (Option-cases (find fiber_key i p.fibers)) [
        | inl h ↦ ground arith
        | inr (f, h) ↦ ground (arith, sets f)
      ])

-- A write that leaves `running` alone is not seen.
pub runs-update_fiber_same :
    (i j : ℕ) (g : Fiber → Fiber) (p : Process)
    → ((f : Fiber) → (g f).index ≡ f.index)
    → ((f : Fiber) → (g f).running ≡ f.running)
    → runs (update_fiber i g p) j ≡ runs p j
unfolding runs update_fiber
runs-update_fiber_same i j g p keeps same =
    rw (find-modify fiber_key i j g p.fibers keeps)
      (elim (Option-cases (find fiber_key i p.fibers)) [
        | inl h ↦ ground arith
        | inr (f, h) ↦ ground (arith, same f)
      ])

pub runs-converted_process :
    (c : Task) (p : Process) (j : ℕ)
    → runs (converted_process c p) j ≡ (if p.fiber_id == j then some true else runs p j)
unfolding runs converted_process converted_fiber find
runs-converted_process c p j = ground arith

pub active-converted_process :
    (c : Task) (p : Process) (q : ℕ)
    → active (converted_process c p) q ≡ (if c.pid == q then some p.fiber_id else active p q)
unfolding active converted_process find
active-converted_process c p q = ground arith

pub runs-created_process :
    (c : Task) (args : CreateArg) (p : Process) (j : ℕ)
    → runs (created_process c args p) j ≡ (if p.fiber_id == j then some false else runs p j)
unfolding runs created_process created_fiber find
runs-created_process c args p j = ground arith

runs-save_context :
    (c : Task) (i : ℕ) (p : Process) (j : ℕ) → runs (update_fiber i (save_context c) p) j ≡ runs p j
unfolding save_context
runs-save_context c i p j = runs-update_fiber_same i j (save_context c) p (λ f. refl) (λ f. refl)

runs-stop :
    (c : Task) (i : ℕ) (p : Process) (d : Bool) (j : ℕ)
    → runs p i ≡ some d
    → runs (update_fiber i (stop c) p) j ≡ (if i == j then some false else runs p j)
unfolding stop
runs-stop c i p d j there = runs-update_fiber i j (stop c) false d p (λ f. refl) (λ f. refl) there

runs-start :
    (c : Task) (i : ℕ) (p : Process) (d : Bool) (j : ℕ)
    → runs p i ≡ some d
    → runs (update_fiber i (start c) p) j ≡ (if i == j then some true else runs p j)
unfolding start
runs-start c i p d j there = runs-update_fiber i j (start c) true d p (λ f. refl) (λ f. refl) there

runs-set_active : (q i : ℕ) (p : Process) (j : ℕ) → runs (set_active q i p) j ≡ runs p j
unfolding runs set_active
runs-set_active q i p j = refl

pub runs-switched_process :
    (c : Task) (old new : ℕ) (p : Process) (b d : Bool)
    → runs p old ≡ some b
    → runs p new ≡ some d
    → (j : ℕ)
    → runs (switched_process c old new p) j
      ≡ (if new == j then some true else if old == j then some false else runs p j)
unfolding switched_process
runs-switched_process c old new p b d ho hn j =
    let saved : Process = update_fiber old (save_context c) p in
    let stopped : Process = update_fiber old (stop c) saved in
    ground (
      arith,
      runs-save_context c old p old,
      runs-save_context c old p new,
      runs-save_context c old p j,
      runs-stop c old saved b new,
      runs-stop c old saved b j,
      runs-set_active c.pid new stopped new,
      runs-set_active c.pid new stopped j,
      runs-start c new (set_active c.pid new stopped) d j,
      runs-start c new (set_active c.pid new stopped) false j,
    )

pub active-switched_process :
    (c : Task) (old new : ℕ) (p : Process) (i : ℕ)
    → active p c.pid ≡ some i
    → (q : ℕ)
    → active (switched_process c old new p) q ≡ (if c.pid == q then some new else active p q)
unfolding active switched_process
active-switched_process c old new p i h q =
    rw (find-modify thread_key c.pid q (λ t. record t { active_fiber = new }) p.threads (λ t. refl))
      (elim (Option-cases (find thread_key c.pid p.threads)) [
        | inl none_there ↦ ground arith
        | inr (t, there) ↦ ground arith
      ])

pub runs-without_thread :
    (t : Thread) (p : Process)
    → Distinct fiber_key p.fibers
    → (j : ℕ) → runs (without_thread t p) j ≡ (if t.active_fiber == j then none else runs p j)
unfolding runs without_thread
runs-without_thread t p d j = rw (find-remove fiber_key t.active_fiber j p.fibers d) (ground arith)

pub active-without_thread :
    (t : Thread) (p : Process)
    → Distinct thread_key p.threads
    → (q : ℕ) → active (without_thread t p) q ≡ (if t.pid == q then none else active p q)
unfolding active without_thread
active-without_thread t p d q = rw (find-remove thread_key t.pid q p.threads d) (ground arith)
