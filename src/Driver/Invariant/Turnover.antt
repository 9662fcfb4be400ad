-- ===== src/Driver/Invariant/Turnover.antt =====
-- The operations of multi_thread/Module/fiber_ioctl.c that change fibers and threads which are there
-- keep `IsValidProcess`.
use linux_fibers.Prelude.{
  ℕ, ◌≡◌, refl, true, false, none, some, ◌==◌, if◌then◌else◌, arith, Bool-cases, inl, inr,
}
use linux_fibers.Prelude.Table.{Distinct, modify-Distinct, remove-Distinct}
use linux_fibers.Driver.State.{Fiber, Thread, Process, fiber_key, thread_key, update_fiber}
use linux_fibers.Driver.Task.{Task}
use linux_fibers.Driver.Switch.{save_context, stop, start, switched_process}
use linux_fibers.Driver.Exit.{without_thread}
use linux_fibers.Driver.Invariant.{runs, active, IsValidProcess}
use linux_fibers.Driver.Invariant.Views.{
  runs-update_fiber_same, runs-switched_process, active-switched_process, runs-without_thread,
  active-without_thread,
}

switched_process-Distinct :
    (c : Task) (old new : ℕ) (p : Process)
    → IsValidProcess p
    → Distinct fiber_key (switched_process c old new p).fibers
      × Distinct thread_key (switched_process c old new p).threads
unfolding switched_process
switched_process-Distinct c old new p v = (
  modify-Distinct fiber_key new (start c) _ (λ f. refl)
      (modify-Distinct fiber_key old (stop c) _ (λ f. refl)
        (modify-Distinct fiber_key old (save_context c) _ (λ f. refl) v.fibers_distinct)),
  modify-Distinct thread_key c.pid _ _ (λ t. refl) v.threads_distinct,
)

fiber_id-switched_process :
    (c : Task) (old new : ℕ) (p : Process) → (switched_process c old new p).fiber_id ≡ p.fiber_id
unfolding switched_process
fiber_id-switched_process c old new p = refl

-- A switch from the caller's active fiber to one that does not run.
pub switched_process-IsValidProcess :
    (c : Task) (old new : ℕ) (p : Process)
    → IsValidProcess p
    → active p c.pid ≡ some old
    → runs p new ≡ some false
    → IsValidProcess (switched_process c old new p)
switched_process-IsValidProcess c old new p v own idle = record {
  fibers_distinct = (switched_process-Distinct c old new p v).0;
  threads_distinct = (switched_process-Distinct c old new p v).1;
  issued = λ i b h. ground (
    arith,
    seen i,
    v.issued i b,
    v.issued new false,
    v.issued old true,
    old_runs,
    fiber_id-switched_process c old new p,
  );
  active_runs = λ q i h. ground (arith, moved q, seen i, v.active_runs q i, v.one_owner q c.pid i);
  one_owner = λ q r i h h'.
      ground (arith, moved q, moved r, v.one_owner q r i, v.active_runs q i, v.active_runs r i);
  owned = λ i h. elim (Bool-cases (new == i)) [
    | inl e ↦ (c.pid, ground (arith, moved c.pid))
    | inr e ↦
        let (q, mine) = v.owned i (ground (arith, seen i)) in (q, ground (arith, moved q, seen i))
  ];
}
  where
    old_runs : runs p old ≡ some true
    old_runs = v.active_runs c.pid old own

    seen :
        (j : ℕ)
        → runs (switched_process c old new p) j
          ≡ (if new == j then some true else if old == j then some false else runs p j)
    seen = runs-switched_process c old new p true false old_runs idle

    moved :
        (q : ℕ)
        → active (switched_process c old new p) q ≡ (if c.pid == q then some new else active p q)
    moved = active-switched_process c old new p old own

without_thread-Distinct :
    (t : Thread) (p : Process)
    → IsValidProcess p
    → Distinct fiber_key (without_thread t p).fibers
      × Distinct thread_key (without_thread t p).threads
unfolding without_thread
without_thread-Distinct t p v = (
  remove-Distinct fiber_key t.active_fiber p.fibers v.fibers_distinct,
  remove-Distinct thread_key t.pid p.threads v.threads_distinct,
)

fiber_id-without_thread : (t : Thread) (p : Process) → (without_thread t p).fiber_id ≡ p.fiber_id
unfolding without_thread
fiber_id-without_thread t p = refl

pub without_thread-IsValidProcess :
    (t : Thread) (p : Process)
    → IsValidProcess p
    → active p t.pid ≡ some t.active_fiber
    → IsValidProcess (without_thread t p)
without_thread-IsValidProcess t p v own = record {
  fibers_distinct = (without_thread-Distinct t p v).0;
  threads_distinct = (without_thread-Distinct t p v).1;
  issued = λ i b h. ground (arith, seen i, v.issued i b, fiber_id-without_thread t p);
  active_runs = λ q i h. ground (arith, left q, seen i, v.active_runs q i, v.one_owner q t.pid i);
  one_owner = λ q r i h h'. ground (arith, left q, left r, v.one_owner q r i);
  owned = λ i h.
      let (q, mine) = v.owned i (ground (arith, seen i)) in (q, ground (arith, left q, seen i));
}
  where
    seen : (j : ℕ) → runs (without_thread t p) j ≡ (if t.active_fiber == j then none else runs p j)
    seen = runs-without_thread t p v.fibers_distinct

    left : (q : ℕ) → active (without_thread t p) q ≡ (if t.pid == q then none else active p q)
    left = active-without_thread t p v.threads_distinct

update_fiber-Distinct :
    (i : ℕ) (g : Fiber → Fiber) (p : Process)
    → ((f : Fiber) → (g f).index ≡ f.index)
    → Distinct fiber_key p.fibers
    → Distinct fiber_key (update_fiber i g p).fibers
unfolding update_fiber
update_fiber-Distinct i g p keeps d = modify-Distinct fiber_key i g p.fibers keeps d

update_fiber_rest :
    (i : ℕ) (g : Fiber → Fiber) (p : Process)
    → ((update_fiber i g p).threads ≡ p.threads) × ((update_fiber i g p).fiber_id ≡ p.fiber_id)
unfolding update_fiber
update_fiber_rest i g p = (refl, refl)

active-update_fiber :
    (i : ℕ) (g : Fiber → Fiber) (p : Process) (q : ℕ) → active (update_fiber i g p) q ≡ active p q
unfolding update_fiber active
active-update_fiber i g p q = refl

-- A write to a fiber that leaves its index and `running` alone.
pub update_fiber-IsValidProcess :
    (i : ℕ) (g : Fiber → Fiber) (p : Process)
    → ((f : Fiber) → (g f).index ≡ f.index)
    → ((f : Fiber) → (g f).running ≡ f.running)
    → IsValidProcess p
    → IsValidProcess (update_fiber i g p)
update_fiber-IsValidProcess i g p keeps same v = record {
  fibers_distinct = update_fiber-Distinct i g p keeps v.fibers_distinct;
  threads_distinct = rw ((update_fiber_rest i g p).0) v.threads_distinct;
  issued = λ j b h. ground (arith, seen j, v.issued j b, (update_fiber_rest i g p).1);
  active_runs = λ q j h. ground (arith, seen j, active-update_fiber i g p q, v.active_runs q j);
  one_owner = λ q r j h h'.
      ground (arith, active-update_fiber i g p q, active-update_fiber i g p r, v.one_owner q r j);
  owned = λ j h.
      let (q, mine) = v.owned j (ground (arith, seen j)) in
      (q, ground (arith, active-update_fiber i g p q));
}
  where
    seen : (j : ℕ) → runs (update_fiber i g p) j ≡ runs p j
    seen j = runs-update_fiber_same i j g p keeps same
