-- ===== src/Ult/Contexts.antt =====
-- Context switches of multi_thread/src/ult.c: the registers that are saved and loaded.
use linux_fibers.Prelude.{
  ℕ, ◌≡◌, ◌<◌, refl, sym, ap, ◌∙◌, true, false, List, [], ◌∷◌, Option, none, some, ◌==◌, arith,
  Bool-cases, subst, Option-cases, inl, inr,
}
use linux_fibers.Ult.Steps.{
  Place, Machine, Action, switch_to, proceed, go, acquire, ult_lock, ult_unlock, set_jmp, long_jmp,
  allocate, ult_switch_to, begin, begin_outside, step_at, step, Reach, after,
}
use linux_fibers.Ult.Owners.{owns, mentions}
use linux_fibers.Ult.Exclusion.{Reach-IsOwned}

-- The steps of one thread, one after the other.
unfoldable pub run : ℕ → List Action → Machine → Option Machine
run t [] s = some s
run t (a ∷ more) s = elim (step t a s) [ none ↦ none | some s' ↦ run t more s' ]

-- The calls of `ult_switch_to` that a thread makes without a rest.
abbrev pub switching : ℕ → List Action
switching g = switch_to (some g) ∷ proceed ∷ proceed ∷ proceed ∷ proceed ∷ []

context_at :
    (t f : ℕ) (a : Action) (s s' : Machine) (q : Place)
    → owns q f ≡ false
    → f < s.ult_id
    → step_at t a s q ≡ some s'
    → (f < s'.ult_id) × (s'.context f ≡ s.context f)
unfolding step_at begin begin_outside ult_switch_to allocate ult_lock acquire ult_unlock set_jmp
    long_jmp go
context_at t f a s s' Place.outside n low e = (ground arith, ground arith)
context_at t f a s s' (Place.converting g) n low e = (ground arith, ground arith)
context_at t f a s s' (Place.converted g) n low e = (ground arith, ground arith)
context_at t f a s s' (Place.executing g) n low e = (ground arith, ground arith)
context_at t f a s s' (Place.taken g h) n low e = (ground arith, ground arith)
context_at t f a s s' (Place.moved g h) n low e = (ground arith, ground arith)
context_at t f a s s' (Place.saved g h) n low e = (ground arith, ground arith)
context_at t f a s s' (Place.released g h) n low e = (ground arith, ground arith)
context_at t f a s s' (Place.preparing g h) n low e = (ground arith, ground arith)
context_at t f a s s' (Place.prepared g h) n low e = (ground arith, ground arith)
context_at t f a s s' (Place.parked g h) n low e = (ground arith, ground arith)
context_at t f a s s' (Place.leaving g h) n low e = (ground arith, ground arith)
context_at t f a s s' (Place.booting g h) n low e = (ground arith, ground arith)
context_at t f a s s' (Place.booted g h) n low e = (ground arith, ground arith)
context_at t f a s s' (Place.returning g h) n low e = (ground arith, ground arith)
context_at t f a s s' (Place.returned g h) n low e = (ground arith, ground arith)

-- Steps of any threads while the flag of the fiber `f` is not set before each of them.
pub data Idle (f : ℕ) : Machine → Machine → Type 0 where
  rest : {s : Machine} → Idle f s s
  before :
      {s s' s'' : Machine}
      → s.running f ≡ false
      → (t : ℕ) → (a : Action) → step t a s ≡ some s'
      → Idle f s' s''
      → Idle f s s''

Idle-context :
    {f : ℕ} {s s' : Machine}
    → Reach s
    → f < s.ult_id
    → Idle f s s'
    → (f < s'.ult_id) × (s'.context f ≡ s.context f) × Reach s'
unfolding step
Idle-context r low rest = (low, refl, r)
Idle-context {f} {s} r low (before {s' = s'} free t a e i) =
    let v = Reach-IsOwned r in
    let nobody : owns (s.place t) f ≡ false = elim (Bool-cases (owns (s.place t) f)) [
      | inl o ↦ absurd (ground (arith, v.flagged t f o))
      | inr n ↦ n
    ] in
    let (low', same) = context_at t f a s s' (s.place t) nobody low e in
    let (low'', same', r') = Idle-context (after r t a e) low' i in (low'', same' ∙ same, r')

pub run_cons :
    (t : ℕ) (a : Action) (more : List Action) (s s' : Machine)
    → step t a s ≡ some s'
    → run t (a ∷ more) s ≡ run t more s'
unfolding run
run_cons t a more s s' e = rw (e, run) refl

pub from :
    (t : ℕ) (a : Action) (q : Place) (s : Machine) → s.place t ≡ q → step t a s ≡ step_at t a s q
unfolding step
from t a q s e = ap (step_at t a s) e

module _ (t f g : ℕ) (s : Machine) where
  -- The machine after a switch that no other thread interrupts.
  abbrev after_switch : Machine
  after_switch = long_jmp t g (Place.executing g) (
      ult_unlock t f (Place.released f g)
        (set_jmp t f (Place.saved f g) (go t (Place.moved f g) (acquire t g (Place.taken f g) s))))

  run-switching :
      s.place t ≡ Place.executing f
      → s.running g ≡ false
      → g < s.ult_id
      → run t (switching g) s ≡ some after_switch
  unfolding step_at begin ult_switch_to ult_lock
  run-switching here free low =
      let m1 : Machine = acquire t g (Place.taken f g) s in
      let m2 : Machine = go t (Place.moved f g) m1 in
      let m3 : Machine = set_jmp t f (Place.saved f g) m2 in
      let m4 : Machine = ult_unlock t f (Place.released f g) m3 in
      run_cons t (switch_to (some g)) _ s m1
        (from t (switch_to (some g)) (Place.executing f) s here ∙ ground arith)
      ∙ run_cons t proceed _ m1 m2
          (from t proceed (Place.taken f g) m1 (unfold acquire go in ground arith))
      ∙ run_cons t proceed _ m2 m3 (from t proceed (Place.moved f g) m2 (unfold go in ground arith))
      ∙ run_cons t proceed _ m3 m4
          (from t proceed (Place.saved f g) m3 (unfold set_jmp go in ground arith))
      ∙ run_cons t proceed [] m4 after_switch
          (from t proceed (Place.released f g) m4 (unfold ult_unlock go in ground arith))
      ∙ unfold run in refl

  after_switch_lem :
      (f == g) ≡ false
      → (after_switch.place t ≡ Place.executing g)
        × (after_switch.regs t ≡ s.context g)
        × (after_switch.context f ≡ s.regs t)
        × (after_switch.running f ≡ false)
        × (after_switch.running g ≡ true)
        × (after_switch.ult_id ≡ s.ult_id)
  unfolding long_jmp ult_unlock set_jmp go acquire
  after_switch_lem ne =
      (ground arith, ground arith, ground arith, ground arith, ground arith, ground arith)

pub some_inj : {a b : Machine} → some a ≡ some b → a ≡ b
some_inj {a} e = ap (λ o. elim o [ none ↦ a | some x ↦ x ]) e

-- A thread executes no fiber that is free.
pub executing_other :
    (s : Machine) (t f g : ℕ)
    → Reach s
    → s.place t ≡ Place.executing f
    → s.running g ≡ false
    → (f == g) ≡ false
executing_other s t f g r here free = elim (Bool-cases (f == g)) [
  | inl e ↦
      let flag : s.running g ≡ true = (Reach-IsOwned r).flagged t g (ap (λ q. owns q g) here ∙ e) in
      absurd (ground arith)
  | inr e ↦ e
]

pub run-Reach :
    {s : Machine} (t : ℕ) (l : List Action) (s' : Machine)
    → Reach s
    → run t l s ≡ some s'
    → Reach s'
unfolding run
run-Reach t [] s' r e = subst Reach (some_inj e) r
run-Reach {s} t (a ∷ l) s' r e = elim (Option-cases (step t a s)) [
  | inl x ↦ absurd (ground arith)
  | inr (m, x) ↦ run-Reach t l s' (after r t a x) (ground arith)
]

-- A thread t that executes the fiber f switches to a free fiber g, and no other thread steps before
-- it is there: then t executes g with the registers that g had saved. Afterwards any threads take
-- any steps, none of them while f is locked, until a thread u, which executes another fiber, switches
-- to f, undisturbed: it executes f with exactly the registers that t had when it left f, although u
-- need not be t.
pub round_trip :
    {s s' : Machine} (r : Reach s) (t u f g h : ℕ) (s1 : Machine)
    → s.place t ≡ Place.executing f
    → s.running g ≡ false
    → g < s.ult_id
    → run t (switching g) s ≡ some s1
    → Idle f s1 s'
    → s'.running f ≡ false
    → s'.place u ≡ Place.executing h
    → (s1.place t ≡ Place.executing g)
      × (s1.regs t ≡ s.context g)
      × (s'' : Machine) × (run u (switching f) s' ≡ some s'')
      × (s''.place u ≡ Place.executing f)
      × (s''.regs u ≡ s.regs t)
round_trip {s} {s'} r t u f g h s1 here free low e idle free' there =
    let p : after_switch t f g s ≡ s1 = some_inj (sym (run-switching t f g s here free low) ∙ e) in
    let (at, regs, ctx, idle_flag, busy, count) =
      after_switch_lem t f g s (executing_other s t f g r here free) in
    let known : f < s.ult_id =
      let v = Reach-IsOwned r in v.known t f (ap (λ q. mentions q f) here ∙ ground arith) in
    let (low', same, r') =
      Idle-context (run-Reach t (switching g) s1 r e)
        (subst (λ m. f < m.ult_id) p (ground (arith, count))) idle in
    let (at', regs', _, _, _, _) =
      after_switch_lem u h f s' (executing_other s' u h f r' there free') in
    (
      subst (λ m. m.place t ≡ Place.executing g) p at,
      subst (λ m. m.regs t ≡ s.context g) p regs,
      after_switch u h f s',
      run-switching u h f s' there free' low',
      at',
      regs' ∙ same ∙ subst (λ m. m.context f ≡ s.regs t) p ctx,
    )
