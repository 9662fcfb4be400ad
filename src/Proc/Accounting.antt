-- ===== src/Proc/Accounting.antt =====
-- `switch_handler` of multi_thread/Module/proc.c, which runs at the end of `finish_task_switch`.
use linux_fibers.Prelude.{
  ℕ, ◌+◌, ◌-◌, ◌/◌, ◌%◌, ◌≡◌, ◌≤◌, refl, ap, ◌∙◌, Option, none, some, arith, Option-cases, inl, inr,
}
use linux_fibers.Prelude.Table.{find, find-modify}
use linux_fibers.Driver.State.{
  word, Fiber, Process, Kernel, fiber_key, search_process, search_thread, update_fiber, put_process,
}
use linux_fibers.Driver.Task.{Timespec, nanoseconds}
use linux_fibers.Driver.Switch.{elapsed}
use linux_fibers.Driver.Behaviour.Resume.{search_process-put_process}

-- A `task_struct`, by its two numbers.
pub record TaskStruct : Type 0 where
  pub tgid : ℕ
  pub pid : ℕ

-- The module's globals with the per-CPU variable `scheduled` of the CPU that runs the handler.
pub record Cpu : Type 0 where
  pub scheduled : Option TaskStruct
  pub kernel : Kernel

-- `total_time` grows by the microseconds since `starting_time`.
unfoldable pub charge : Timespec → Fiber → Fiber
unfolding elapsed
charge now f = record f {
  total_time = (f.total_time + elapsed (nanoseconds now) f.starting_time) % word;
}

unfoldable pub set_starting_time : Timespec → Fiber → Fiber
set_starting_time now f = record f { starting_time = nanoseconds now }

-- A write to the active fiber of a task, if the task is a converted thread; `none` if the fiber is
-- not there.
unfoldable pub on_active : TaskStruct → (Fiber → Fiber) → Kernel → Option Kernel
on_active t g k = elim (search_process t.tgid k) [
  | none ↦ some k
  | some p ↦ elim (search_thread t.pid p) [
    | none ↦ some k
    | some u ↦ elim (find fiber_key u.active_fiber p.fibers) [
      | none ↦ none
      | some f ↦ some (put_process (update_fiber u.active_fiber g p) k)
    ]
  ]
]

-- The first half: the task that leaves the CPU, if one is known.
unfoldable pub charge_old : Timespec → Cpu → Option Kernel
unfolding on_active charge
charge_old now c = elim c.scheduled [
  | none ↦ some c.kernel
  | some t ↦ on_active t (charge now) c.kernel
]

-- `current` is the task that now runs. The clock is read for each half.
unfoldable pub switch_handler : TaskStruct → Timespec → Timespec → Cpu → Option Cpu
unfolding charge_old on_active set_starting_time
switch_handler current out_time in_time c = elim (charge_old out_time c) [
  | none ↦ none
  | some k ↦ elim (on_active current (set_starting_time in_time) k) [
    | none ↦ none
    | some k' ↦ some (record { scheduled = some current; kernel = k' })
  ]
]

-- The active fiber of a task.
unfoldable pub fiber_of : TaskStruct → Kernel → Option Fiber
fiber_of t k = elim (search_process t.tgid k) [
  | none ↦ none
  | some p ↦ elim (search_thread t.pid p) [
    | none ↦ none
    | some u ↦ find fiber_key u.active_fiber p.fibers
  ]
]

find-update_fiber_self :
    (i : ℕ) (g : Fiber → Fiber) (p : Process) (f : Fiber)
    → ((h : Fiber) → (g h).index ≡ h.index)
    → find fiber_key i p.fibers ≡ some f
    → find fiber_key i (update_fiber i g p).fibers ≡ some (g f)
unfolding update_fiber
find-update_fiber_self i g p f keeps here =
    find-modify fiber_key i i g p.fibers keeps ∙ ground arith

-- A task with an active fiber finds it as it was written.
fiber_of-on_active :
    (t : TaskStruct) (g : Fiber → Fiber) (k : Kernel) (f : Fiber)
    → ((h : Fiber) → (g h).index ≡ h.index)
    → fiber_of t k ≡ some f
    → (k' : Kernel) × (on_active t g k ≡ some k') × (fiber_of t k' ≡ some (g f))
unfolding fiber_of on_active
fiber_of-on_active t g k f keeps h = elim (Option-cases (search_process t.tgid k)) [
  | inl e ↦ absurd (ground arith)
  | inr (p, there) ↦ elim (Option-cases (search_thread t.pid p)) [
    | inl e ↦ absurd (ground arith)
    | inr (u, busy) ↦
        let here : find fiber_key u.active_fiber p.fibers ≡ some f = ground arith in
        let p' : Process = update_fiber u.active_fiber g p in
        let busy' : search_thread t.pid p' ≡ some u = unfold update_fiber search_thread in busy in
        (
          put_process p' k,
          rw (there, on_active) (rw (busy, here)),
          rw
              (
                search_process-put_process t.tgid k p' p (unfold update_fiber in refl) there,
                fiber_of,
              )
              (rw (busy', fiber_of) (find-update_fiber_self u.active_fiber g p f keeps here)),
        )
  ]
]

charged :
    (a b : Timespec) (f : Fiber)
    → nanoseconds a ≤ nanoseconds b
    → (charge b (set_starting_time a f)).total_time
      ≡ (f.total_time + (nanoseconds b - nanoseconds a) / 1000) % word
unfolding charge set_starting_time nanoseconds
charged a b f order = ap (λ x. (f.total_time + x / 1000) % word) (omega arith)

-- On a CPU where no task is known yet, a converted thread starts to run at the time a and is left at
-- the time b, with b not before a and both below 2 ^ 64 nanoseconds: the handler does not fail, it
-- then knows the thread as the one that runs, and its first half at b has charged the thread's
-- active fiber with exactly the whole microseconds from a to b, modulo 2 ^ 64.
pub accounted :
    (t : TaskStruct) (now a b : Timespec) (c : Cpu) (f : Fiber)
    → c.scheduled ≡ none
    → fiber_of t c.kernel ≡ some f
    → nanoseconds a ≤ nanoseconds b
    → (c' : Cpu) × (k : Kernel) × (f' : Fiber) × (switch_handler t now a c ≡ some c')
      × (c'.scheduled ≡ some t)
      × (charge_old b c' ≡ some k)
      × (fiber_of t k ≡ some f')
      × (f'.total_time ≡ (f.total_time + (nanoseconds b - nanoseconds a) / 1000) % word)
accounted t now a b c f nobody here order =
    let (k1, e1, h1) =
      fiber_of-on_active t (set_starting_time a) c.kernel f (λ h. unfold set_starting_time in refl)
        here in
    let f1 : Fiber = set_starting_time a f in
    let (k2, e2, h2) = fiber_of-on_active t (charge b) k1 f1 (λ h. unfold charge in refl) h1 in
    (
      record { scheduled = some t; kernel = k1 },
      k2,
      charge b f1,
      unfold switch_handler charge_old in ground (arith, e1),
      refl,
      unfold charge_old in e2,
      h2,
      charged a b f order,
    )
