-- ===== src/Driver/Invariant/Processes.antt =====
-- The operations of multi_thread/Module/fiber_ioctl.c that add a fiber keep `IsValidProcess`.
use linux_fibers.Prelude.{
  ℕ, ◌+◌, ◌≡◌, ◌<◌, refl, none, ◌==◌, arith, Bool-cases, Option-cases, inl, inr,
}
use linux_fibers.Prelude.Table.{find, Distinct}
use linux_fibers.Driver.State.{word, Process, fiber_key, thread_key, new_process}
use linux_fibers.Driver.Task.{Task, CreateArg}
use linux_fibers.Driver.Convert.{converted_fiber, converted_process}
use linux_fibers.Driver.Create.{created_fiber, created_process}
use linux_fibers.Driver.Invariant.{runs, active, IsValidProcess}
use linux_fibers.Driver.Invariant.Views.{
  runs-converted_process, active-converted_process, runs-created_process,
}

pub new_process-IsValidProcess : (pid : ℕ) → IsValidProcess (new_process pid)
unfolding new_process runs active find
new_process-IsValidProcess pid = record {
  fibers_distinct = tt;
  threads_distinct = tt;
  issued = λ i b h. ground arith;
  active_runs = λ q i h. ground arith;
  one_owner = λ q r i h h'. ground arith;
  owned = λ i h. absurd (ground arith);
}

-- An index that is not issued has no fiber.
pub unissued : (p : Process) → IsValidProcess p → runs p p.fiber_id ≡ none
unissued p v = elim (Option-cases (runs p p.fiber_id)) [
  | inl h ↦ h
  | inr (b, h) ↦ absurd (omega (arith, v.issued p.fiber_id b h))
]

pub find-none_of_runs : (p : Process) (i : ℕ) → runs p i ≡ none → find fiber_key i p.fibers ≡ none
unfolding runs
find-none_of_runs p i h = ground arith

find-none_of_active : (p : Process) (q : ℕ) → active p q ≡ none → find thread_key q p.threads ≡ none
unfolding active
find-none_of_active p q h = ground arith

converted_process-Distinct :
    (c : Task) (p : Process)
    → IsValidProcess p
    → active p c.pid ≡ none
    → Distinct fiber_key (converted_process c p).fibers
      × Distinct thread_key (converted_process c p).threads
unfolding converted_process converted_fiber
converted_process-Distinct c p v idle = (
  (find-none_of_runs p p.fiber_id (unissued p v), v.fibers_distinct),
  (find-none_of_active p c.pid idle, v.threads_distinct),
)

fiber_id-converted_process :
    (c : Task) (p : Process)
    → p.fiber_id + 1 < word
    → (converted_process c p).fiber_id ≡ p.fiber_id + 1
unfolding converted_process
fiber_id-converted_process c p room = omega arith

pub converted_process-IsValidProcess :
    (c : Task) (p : Process)
    → IsValidProcess p
    → active p c.pid ≡ none
    → p.fiber_id + 1 < word
    → IsValidProcess (converted_process c p)
converted_process-IsValidProcess c p v idle room = record {
  fibers_distinct = (converted_process-Distinct c p v idle).0;
  threads_distinct = (converted_process-Distinct c p v idle).1;
  issued = λ i b h.
      ground
        (arith, runs-converted_process c p i, v.issued i b, fiber_id-converted_process c p room);
  active_runs = λ q i h.
      ground
        (arith, active-converted_process c p q, runs-converted_process c p i, v.active_runs q i);
  one_owner = λ q r i h h'. ground (
    arith,
    active-converted_process c p q,
    active-converted_process c p r,
    v.one_owner q r i,
    v.active_runs q i,
    v.active_runs r i,
    unissued p v,
    idle,
  );
  owned = λ i h. elim (Bool-cases (p.fiber_id == i)) [
    | inl e ↦ (c.pid, ground (arith, active-converted_process c p c.pid))
    | inr e ↦
        let (q, own) = v.owned i (ground (arith, runs-converted_process c p i)) in
        (q, ground (arith, active-converted_process c p q))
  ];
}

created_process-Distinct :
    (c : Task) (args : CreateArg) (p : Process)
    → IsValidProcess p
    → Distinct fiber_key (created_process c args p).fibers
unfolding created_process created_fiber
created_process-Distinct c args p v =
    (find-none_of_runs p p.fiber_id (unissued p v), v.fibers_distinct)

fiber_id-created_process :
    (c : Task) (args : CreateArg) (p : Process)
    → p.fiber_id + 1 < word
    → (created_process c args p).fiber_id ≡ p.fiber_id + 1
unfolding created_process
fiber_id-created_process c args p room = omega arith

active-created_process :
    (c : Task) (args : CreateArg) (p : Process) (q : ℕ)
    → active (created_process c args p) q ≡ active p q
unfolding created_process active
active-created_process c args p q = refl

threads-created_process :
    (c : Task) (args : CreateArg) (p : Process) → (created_process c args p).threads ≡ p.threads
unfolding created_process
threads-created_process c args p = refl

pub created_process-IsValidProcess :
    (c : Task) (args : CreateArg) (p : Process)
    → IsValidProcess p
    → p.fiber_id + 1 < word
    → IsValidProcess (created_process c args p)
created_process-IsValidProcess c args p v room = record {
  fibers_distinct = created_process-Distinct c args p v;
  threads_distinct = rw (threads-created_process c args p) v.threads_distinct;
  issued = λ i b h. ground (
    arith,
    runs-created_process c args p i,
    v.issued i b,
    fiber_id-created_process c args p room,
  );
  active_runs = λ q i h. ground (
    arith,
    active-created_process c args p q,
    runs-created_process c args p i,
    v.active_runs q i,
    unissued p v,
  );
  one_owner = λ q r i h h'. ground (
    arith,
    active-created_process c args p q,
    active-created_process c args p r,
    v.one_owner q r i,
  );
  owned = λ i h.
      let (q, own) = v.owned i (ground (arith, runs-created_process c args p i)) in
      (q, ground (arith, active-created_process c args p q));
}
