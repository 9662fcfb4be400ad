-- ===== src/Ult/Exclusion.antt =====
-- The flag `running` of a fiber of multi_thread/src/ult.c is a lock, in any interleaving of the
-- threads.
use linux_fibers.Prelude.{
  ℕ, ◌≡◌, ◌<◌, refl, sym, ap, ◌∙◌, true, false, not, ◌||◌, Option, none, some, ltb, ◌==◌,
  if◌then◌else◌, update, arith, Bool-cases, ◌⊎◌, inl, inr, subst,
}
use linux_fibers.Ult.Steps.{
  Place, Machine, Action, work, convert, switch_to, create, proceed, go, acquire, ult_lock,
  ult_unlock, set_jmp, long_jmp, allocate, ult_switch_to, begin, begin_outside, step_at, step,
  Reach, at_start, after,
}
use linux_fibers.Ult.Owners.{owns, mentions, apart, IsOwned}
use linux_fibers.Ult.Ownership.{kept, acquired, freed, allocated, initial-IsOwned}

-- What holds of the machine after a step, where the step has one.
abbrev Good : Option Machine → Type 0
Good none = Unit
Good (some s) = IsOwned s.running s.ult_id s.place

module _ (t : ℕ) (s : Machine) (v : IsOwned s.running s.ult_id s.place) where
  -- The owned fibers of the thread, where it is at `q`.
  at_owns : (q : Place) (h : ℕ) → s.place t ≡ q → owns q h ≡ owns (s.place t) h
  at_owns q h e = ap (λ x. owns x h) (sym e)

  at_mentions : (q : Place) (h : ℕ) → s.place t ≡ q → mentions q h ≡ mentions (s.place t) h
  at_mentions q h e = ap (λ x. mentions x h) (sym e)

  apart_at : (q : Place) → s.place t ≡ q → apart q ≡ true
  apart_at q e = ap apart (sym e) ∙ v.separate t

  going :
      (q p : Place)
      → s.place t ≡ q
      → ((h : ℕ) → owns p h ≡ owns q h)
      → ((h : ℕ) → mentions p h ≡ true → mentions q h ≡ true)
      → ((h : ℕ) → owns p h ≡ true → mentions p h ≡ true)
      → (apart q ≡ true → apart p ≡ true)
      → IsOwned s.running s.ult_id (update s.place t p)
  going q p e same knows own two =
      kept s.running s.ult_id s.place v t p (λ h. same h ∙ at_owns q h e)
        (λ h m. sym (at_mentions q h e) ∙ knows h m) own (two (apart_at q e))

  locking :
      (q p : Place) (g : ℕ)
      → s.place t ≡ q
      → g < s.ult_id
      → ((h : ℕ) → owns p h ≡ (owns q h || g == h))
      → ((h : ℕ) → mentions p h ≡ true → (mentions q h || g == h) ≡ true)
      → ((h : ℕ) → owns p h ≡ true → mentions p h ≡ true)
      → (s.running g ≡ false → apart p ≡ true)
      → Good (some (ult_lock t g p s))
  unfolding ult_lock acquire go
  locking q p g e low more knows own two = elim (Bool-cases (s.running g)) [
    | inl busy ↦ rw busy v
    | inr free ↦ rw free (
        acquired s.running s.ult_id s.place v t g p free low
          (λ h. more h ∙ ap (λ b. b || g == h) (at_owns q h e))
          (λ h m. ap (λ b. b || g == h) (sym (at_mentions q h e)) ∙ knows h m) own (two free))
  ]

  unlocking :
      (q p : Place) (g : ℕ)
      → s.place t ≡ q
      → owns q g ≡ true
      → ((h : ℕ) → owns p h ≡ (if g == h then false else owns q h))
      → ((h : ℕ) → mentions p h ≡ true → mentions q h ≡ true)
      → ((h : ℕ) → owns p h ≡ true → mentions p h ≡ true)
      → apart p ≡ true
      → Good (some (ult_unlock t g p s))
  unfolding ult_unlock go
  unlocking q p g e mine less knows own two =
      freed s.running s.ult_id s.place v t g p (sym (at_owns q g e) ∙ mine)
        (λ h. less h ∙ ap (λ b. if g == h then false else b) (at_owns q h e))
        (λ h m. sym (at_mentions q h e) ∙ knows h m) own two

  making :
      (q p : Place) (r : ℕ)
      → s.place t ≡ q
      → ((h : ℕ) → owns p h ≡ owns q h)
      → ((h : ℕ) → mentions p h ≡ true → (mentions q h || s.ult_id == h) ≡ true)
      → ((h : ℕ) → owns p h ≡ true → mentions p h ≡ true)
      → apart p ≡ true
      → Good (some (allocate t r p s))
  unfolding allocate go
  making q p r e same more own two =
      allocated s v t p (λ h. same h ∙ at_owns q h e)
        (λ h m. ap (λ b. b || s.ult_id == h) (sym (at_mentions q h e)) ∙ more h m) own two

  -- The fiber that the thread has locked is not one that is free.
  other :
      (q : Place) (f g : ℕ)
      → s.place t ≡ q
      → owns q f ≡ true
      → s.running g ≡ false
      → not (f == g) ≡ true
  other q f g e mine free =
      let flag : s.running f ≡ true = v.flagged t f (sym (at_owns q f e) ∙ mine) in ground arith

  known_at : (q : Place) (g : ℕ) → s.place t ≡ q → mentions q g ≡ true → g < s.ult_id
  known_at q g e m = v.known t g (sym (at_mentions q g e) ∙ m)

  begin-Good : (f : ℕ) (a : Action) → s.place t ≡ Place.executing f → Good (begin t f a s)
  unfolding begin ult_switch_to
  begin-Good f (work r) e = v
  begin-Good f convert e = tt
  begin-Good f (switch_to none) e = v
  begin-Good f (switch_to (some g)) e = elim (Bool-cases (ltb g s.ult_id)) [
    | inl low ↦ rw low (
        locking (Place.executing f) (Place.taken f g) g e (ground arith) (λ h. refl) (λ h m. m)
          (λ h m. m) (other (Place.executing f) f g e (ground arith)))
    | inr bad ↦ rw bad tt
  ]
  begin-Good f (create r) e =
      making (Place.executing f) (Place.preparing f s.ult_id) r e (λ h. refl) (λ h m. m)
        (λ h m. ground arith) refl
  begin-Good f proceed e = v

  begin_outside-Good : (a : Action) → s.place t ≡ Place.outside → Good (begin_outside t a s)
  unfolding begin_outside
  begin_outside-Good (work r) e = v
  begin_outside-Good convert e =
      making Place.outside (Place.converting s.ult_id) 0 e (λ h. refl) (λ h m. m)
        (λ h m. absurd (ground arith)) refl
  begin_outside-Good (switch_to none) e = v
  begin_outside-Good (switch_to (some g)) e = tt
  begin_outside-Good (create r) e = tt
  begin_outside-Good proceed e = v

  step_at-Good : (a : Action) (q : Place) → s.place t ≡ q → Good (step_at t a s q)
  unfolding step_at go set_jmp long_jmp
  step_at-Good a Place.outside e = begin_outside-Good a e
  step_at-Good a (Place.converting f) e =
      locking (Place.converting f) (Place.converted f) f e
        (known_at (Place.converting f) f e (ground arith)) (λ h. refl) (λ h m. ground arith)
        (λ h m. m) (λ h. refl)
  step_at-Good a (Place.converted f) e =
      going (Place.converted f) (Place.executing f) e (λ h. refl) (λ h m. m) (λ h m. m) (λ h. refl)
  step_at-Good a (Place.executing f) e = begin-Good f a e
  step_at-Good a (Place.taken f g) e =
      going (Place.taken f g) (Place.moved f g) e (λ h. refl) (λ h m. m) (λ h m. m) (λ h. h)
  step_at-Good a (Place.moved f g) e =
      going (Place.moved f g) (Place.saved f g) e (λ h. refl) (λ h m. m) (λ h m. m) (λ h. h)
  step_at-Good a (Place.saved f g) e =
      let two = apart_at (Place.saved f g) e in
      unlocking (Place.saved f g) (Place.released f g) f e (ground arith) (λ h. ground arith)
        (λ h m. m) (λ h m. ground arith) refl
  step_at-Good a (Place.released f g) e =
      going (Place.released f g) (Place.executing g) e (λ h. refl) (λ h m. ground arith) (λ h m. m)
        (λ h. refl)
  step_at-Good a (Place.preparing f g) e =
      locking (Place.preparing f g) (Place.prepared f g) g e
        (known_at (Place.preparing f g) g e (ground arith)) (λ h. refl) (λ h m. ground arith)
        (λ h m. m) (other (Place.preparing f g) f g e (ground arith))
  step_at-Good a (Place.prepared f g) e =
      going (Place.prepared f g) (Place.parked f g) e (λ h. refl) (λ h m. m) (λ h m. m) (λ h. h)
  step_at-Good a (Place.parked f g) e =
      let two = apart_at (Place.parked f g) e in
      unlocking (Place.parked f g) (Place.leaving f g) f e (ground arith) (λ h. ground arith)
        (λ h m. m) (λ h m. ground arith) refl
  step_at-Good a (Place.leaving f g) e =
      going (Place.leaving f g) (Place.booting f g) e (λ h. refl) (λ h m. m) (λ h m. ground arith)
        (λ h. refl)
  step_at-Good a (Place.booting f g) e =
      locking (Place.booting f g) (Place.booted f g) f e
        (known_at (Place.booting f g) f e (ground arith)) (λ h. ground arith) (λ h m. ground arith)
        (λ h m. m)
        (λ free. let x = other (Place.booting f g) g f e (ground arith) free in ground arith)
  step_at-Good a (Place.booted f g) e =
      going (Place.booted f g) (Place.returning f g) e (λ h. refl) (λ h m. m) (λ h m. m) (λ h. h)
  step_at-Good a (Place.returning f g) e =
      let two = apart_at (Place.returning f g) e in
      unlocking (Place.returning f g) (Place.returned f g) g e (ground arith) (λ h. ground arith)
        (λ h m. m) (λ h m. ground arith) refl
  step_at-Good a (Place.returned f g) e =
      going (Place.returned f g) (Place.executing f) e (λ h. refl) (λ h m. ground arith) (λ h m. m)
        (λ h. refl)

pub Reach-IsOwned : {s : Machine} → Reach s → IsOwned s.running s.ult_id s.place
unfolding step
Reach-IsOwned at_start = initial-IsOwned
Reach-IsOwned (after {s} {s'} r t a e) =
    subst Good e (step_at-Good t s (Reach-IsOwned r) a (s.place t) refl)

-- However the threads interleave: where the flag of a fiber is not set, no thread has the fiber, and
-- where it is set, exactly one thread has it. A thread has the fiber that it executes, and during a
-- switch or a creation both fibers between the lock and the unlock.
pub one_owner :
    {s : Machine} (r : Reach s) (f : ℕ)
    → ((s.running f ≡ false) × ((t : ℕ) → owns (s.place t) f ≡ false))
      ⊎ ((s.running f ≡ true)
          × ((t : ℕ) × (owns (s.place t) f ≡ true) × ((u : ℕ) → owns (s.place u) f ≡ true → u ≡ t)))
one_owner {s} r f =
    let v = Reach-IsOwned r in
    elim (Bool-cases (s.running f)) [
      | inl busy ↦ let (t, o) = v.held f busy in inr (busy, (t, o, λ u o'. v.one u t f o' o))
      | inr free ↦ inl (
        free,
        λ t. elim (Bool-cases (owns (s.place t) f)) [
          | inl o ↦ absurd (ground (arith, v.flagged t f o))
          | inr n ↦ n
        ],
      )
    ]
