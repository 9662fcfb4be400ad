-- ===== src/Ult/Creation.antt =====
-- The creation of a fiber in `ult_creat` of multi_thread/src/ult.c: the creator goes into the new
-- fiber and comes back.
use linux_fibers.Prelude.{
  ℕ, ◌+◌, ◌≡◌, ◌<◌, refl, ap, ◌∙◌, true, false, List, [], ◌∷◌, some, ◌==◌, arith,
}
use linux_fibers.Ult.Steps.{
  Place, Machine, Action, work, create, proceed, go, acquire, ult_lock, ult_unlock, set_jmp,
  set_jmp_later, arriving, long_jmp, allocate, begin, step_at, Reach,
}
use linux_fibers.Ult.Owners.{mentions}
use linux_fibers.Ult.Exclusion.{Reach-IsOwned}
use linux_fibers.Ult.Contexts.{run, run_cons, from}

-- The steps of a creation, in which `context_create_boot` calls `set_jmp` with the registers `boot`.
abbrev pub creating : ℕ → ℕ → List Action
creating r boot =
    create r ∷ proceed ∷ proceed ∷ proceed ∷ proceed ∷ proceed ∷ work boot ∷ proceed ∷ proceed ∷ []

module _ (t f r boot : ℕ) (s : Machine) where
  abbrev new_fiber : ℕ
  new_fiber = s.ult_id

  abbrev in_boot : Machine
  in_boot = long_jmp t new_fiber (Place.booting f new_fiber) (
      ult_unlock t f (Place.leaving f new_fiber) (
        set_jmp t f (Place.parked f new_fiber) (
          acquire t new_fiber (Place.prepared f new_fiber)
            (allocate t r (Place.preparing f new_fiber) s))))

  abbrev after_create : Machine
  after_create = long_jmp t f (Place.executing f) (
      ult_unlock t new_fiber (Place.returned f new_fiber) (
        set_jmp_later t new_fiber (work boot) (Place.returning f new_fiber)
          (acquire t f (Place.booted f new_fiber) in_boot)))

  run-creating :
      s.place t ≡ Place.executing f
      → (f == new_fiber) ≡ false
      → run t (creating r boot) s ≡ some after_create
  unfolding step_at begin ult_lock
  run-creating here ne =
      let m1 : Machine = allocate t r (Place.preparing f new_fiber) s in
      let m2 : Machine = acquire t new_fiber (Place.prepared f new_fiber) m1 in
      let m3 : Machine = set_jmp t f (Place.parked f new_fiber) m2 in
      let m4 : Machine = ult_unlock t f (Place.leaving f new_fiber) m3 in
      let m6 : Machine = acquire t f (Place.booted f new_fiber) in_boot in
      let m7 : Machine = set_jmp_later t new_fiber (work boot) (Place.returning f new_fiber) m6 in
      let m8 : Machine = ult_unlock t new_fiber (Place.returned f new_fiber) m7 in
      run_cons t (create r) _ s m1 (from t (create r) (Place.executing f) s here)
      ∙ run_cons t proceed _ m1 m2 (
          from t proceed (Place.preparing f new_fiber) m1 (unfold allocate go in ground arith)
          ∙ unfold allocate go in ground arith)
      ∙ run_cons t proceed _ m2 m3
          (from t proceed (Place.prepared f new_fiber) m2 (unfold acquire go in ground arith))
      ∙ run_cons t proceed _ m3 m4
          (from t proceed (Place.parked f new_fiber) m3 (unfold set_jmp go in ground arith))
      ∙ run_cons t proceed _ m4 in_boot
          (from t proceed (Place.leaving f new_fiber) m4 (unfold ult_unlock go in ground arith))
      ∙ run_cons t proceed _ in_boot m6 (
          from t proceed (Place.booting f new_fiber) in_boot (unfold long_jmp go in ground arith)
          ∙ unfold long_jmp ult_unlock go in ground arith)
      ∙ run_cons t (work boot) _ m6 m7
          (from t (work boot) (Place.booted f new_fiber) m6 (unfold acquire go in ground arith))
      ∙ run_cons t proceed _ m7 m8 (
          from t proceed (Place.returning f new_fiber) m7
            (unfold set_jmp_later set_jmp go in ground arith))
      ∙ run_cons t proceed [] m8 after_create
          (from t proceed (Place.returned f new_fiber) m8 (unfold ult_unlock go in ground arith))
      ∙ unfold run in refl

-- A thread that executes a fiber creates a new one, and no other thread steps in between: no lock
-- blocks it, it is back in its own fiber with the registers that it had, its own flag is set again,
-- the new fiber has the next number, is free, and will start where `context_create_boot` called
-- `set_jmp` on its new stack, not where the signal handler saved its context.
pub ult_creat_lem :
    (s : Machine) (reach : Reach s) (t f r boot : ℕ)
    → s.place t ≡ Place.executing f
    → (s' : Machine) × (run t (creating r boot) s ≡ some s')
      × (s'.place t ≡ Place.executing f)
      × (s'.regs t ≡ s.regs t)
      × (s'.running f ≡ true)
      × (s'.ult_id ≡ s.ult_id + 1)
      × (s'.running s.ult_id ≡ false)
      × (s'.context s.ult_id ≡ boot)
unfolding long_jmp set_jmp_later arriving ult_unlock set_jmp go acquire allocate
ult_creat_lem s reach t f r boot here =
    let known : f < s.ult_id =
      let v = Reach-IsOwned reach in v.known t f (ap (λ q. mentions q f) here ∙ ground arith) in
    let ne : (f == s.ult_id) ≡ false = ground arith in
    (
      after_create t f r boot s,
      run-creating t f r boot s here ne,
      ground arith,
      ground arith,
      ground arith,
      refl,
      ground arith,
      ground arith,
    )
