-- ===== src/Driver/Behaviour/Refusal.antt =====
-- What a switch of multi_thread/Module/fiber_ioctl.c leaves alone.
use mathlib.Core.Option
use mathlib.Core.Path.{fun_ext, ap₂}
use linux_fibers.Prelude.{
  ℕ, ◌≡◌, refl, sym, ap, ◌∙◌, Bool, Option, some, ℤ, subst, pos, arith, Option-cases, Bool-cases,
  inl, inr, ◌==◌, ==_iff,
}
use linux_fibers.Prelude.Table.{find, find-key, find-replace}
use linux_fibers.Driver.State.{
  Fiber, Process, Kernel, Thread, fiber_key, process_key, search_process, search_thread,
  search_fiber, update_fiber, put_process,
}
use linux_fibers.Driver.Task.{Task, Reply, Outcome, done, oops, stray, return, minus_one}
use linux_fibers.Driver.Switch.{
  save_context, fail, switched_process, switch_from, switch_in, switch_to,
}
use linux_fibers.Driver.Invariant.{runs, active}
use linux_fibers.Driver.Invariant.Views.{runs-update_fiber_same}

-- What is seen of the process `q`.
unfoldable pub seen {ℓ} : {A : Type ℓ} → (Process → A) → ℕ → Kernel → Option A
seen view q k = Option.map view (search_process q k)

-- A process is replaced by one that looks the same.
pub seen-put_process :
    {A : Type 0} (view : Process → A) (q tgid : ℕ) (k : Kernel) (p' p : Process)
    → search_process tgid k ≡ some p
    → p'.pid ≡ p.pid
    → view p' ≡ view p
    → seen view q (put_process p' k) ≡ seen view q k
unfolding seen put_process search_process
seen-put_process view q tgid k p' p there same alike =
    let e : p'.pid ≡ tgid = same ∙ find-key process_key tgid k.list_process p there in
    let there' : find process_key p'.pid k.list_process ≡ some p =
      ap (λ i. find process_key i k.list_process) e ∙ there in
    rw (find-replace process_key p'.pid q p' p k.list_process refl there')
      (elim (Bool-cases (p'.pid == q)) [
        | inl hit ↦
            let here : find process_key q k.list_process ≡ some p =
              ap (λ i. find process_key i k.list_process) (sym ((==_iff p'.pid q).0 hit))
              ∙ there' in
            rw (hit, here) (ap some alike)
        | inr miss ↦ rw miss
      ])

module _ {A : Type 0} (view : Process → A) (allowed : Reply → Type 0) (q : ℕ) (k : Kernel) where
  -- A handler that returns an allowed reply leaves the view of the process `q` as it was.
  abbrev Leaves : Outcome → Type 0
  Leaves (done r k') = allowed r → seen view q k' ≡ seen view q k
  Leaves oops = Unit
  Leaves stray = Unit

  return-Leaves : (c : Task) (r : ℤ) → Leaves (return c r k)
  unfolding return
  return-Leaves c r _ = refl

  module _ (c : Task) (failing : (i : ℕ) (p : Process) → view (update_fiber i fail p) ≡ view p)
      (switching : (r : Reply) (old new : ℕ) (p : Process)
        → allowed r
        → r.ret ≡ pos 0
        → view (switched_process c old new p) ≡ view p) where
    switch_from-Leaves :
        (t : Thread) (f : Fiber) (p : Process)
        → search_process c.tgid k ≡ some p
        → Leaves (switch_from c t f p k)
    unfolding switch_from
    switch_from-Leaves t f p there = elim (Option-cases (find fiber_key t.active_fiber p.fibers)) [
      | inl h ↦ rw (h, switch_from) tt
      | inr (a, h) ↦
          rw (h, switch_from)
            (elim (Option-cases
              (find fiber_key f.index (update_fiber t.active_fiber (save_context c) p).fibers)) [
                | inl m ↦ rw m tt
                | inr (g, m) ↦ rw m (λ ok.
                    seen-put_process view q c.tgid k (switched_process c t.active_fiber f.index p) p
                      there (unfold switched_process in refl) (switching _ _ _ p ok refl))
              ])
    ]

    switch_in-Leaves :
        (fib_id : ℕ) (p : Process)
        → search_process c.tgid k ≡ some p
        → Leaves (switch_in c fib_id p k)
    unfolding switch_in
    switch_in-Leaves fib_id p there = elim (Option-cases (search_fiber c.hashing fib_id p)) [
      | inl h ↦ rw (h, switch_in) (return-Leaves c _)
      | inr (f, target) ↦
          rw (target, switch_in)
            (elim (Bool-cases f.running) [
              | inl runs ↦ rw runs (
                  unfold return in
                  λ _.
                    seen-put_process view q c.tgid k (update_fiber f.index fail p) p there
                      (unfold update_fiber in refl) (failing f.index p))
              | inr idle ↦ rw idle (elim (Option-cases (search_thread c.pid p)) [
                | inl h ↦ rw h (return-Leaves c _)
                | inr (t, busy) ↦ rw busy (switch_from-Leaves t f p there)
              ])
            ])
    ]

    switch_to-Leaves : (fib_id : ℕ) → Leaves (switch_to c fib_id k)
    unfolding switch_to
    switch_to-Leaves fib_id = elim (Option-cases (search_process c.tgid k)) [
      | inl h ↦ rw (h, switch_to) (return-Leaves c _)
      | inr (p, there) ↦ rw (there, switch_to) (switch_in-Leaves fib_id p there)
    ]

-- Who runs what in a process: of each fiber whether it runs, and of each thread its active fiber.
abbrev pub schedule : Process → (ℕ → Option Bool) × (ℕ → Option ℕ)
schedule p = (runs p, active p)

-- A switch that answers -1, for whatever reason, changes no process' schedule: no fiber starts or
-- stops running and no thread changes its active fiber.
pub refused_switch :
    (c : Task) (fib_id q : ℕ) (k k' : Kernel) (reply : Reply)
    → switch_to c fib_id k ≡ done reply k'
    → reply.ret ≡ minus_one
    → seen schedule q k' ≡ seen schedule q k
refused_switch c fib_id q k k' reply h minus =
    subst (Leaves schedule (λ r. r.ret ≡ minus_one) q k) h
      (switch_to-Leaves schedule (λ r. r.ret ≡ minus_one) q k c (λ i p. failed_schedule i p)
        (λ r old new p m z. absurd (ground arith)) fib_id)
      minus
  where
    failed_schedule : (i : ℕ) (p : Process) → schedule (update_fiber i fail p) ≡ schedule p
    failed_schedule i p =
        ap₂ {C = (ℕ → Option Bool) × (ℕ → Option ℕ)} (λ a b. (a, b))
          (fun_ext λ j.
            runs-update_fiber_same i j fail p (λ f. unfold fail in refl) (λ f. unfold fail in refl))
          (unfold active update_fiber in refl)

-- The FLS slots of each fiber: which are taken, and their values.
abbrev pub slots : Process → ℕ → Option ((ℕ → Bool) × (ℕ → ℕ))
slots p i = Option.map (λ (f : Fiber). (f.fls_bitmap, f.fls_array)) (find fiber_key i p.fibers)
