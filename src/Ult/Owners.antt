-- ===== src/Ult/Owners.antt =====
-- Which fibers a thread of multi_thread/src/ult.c has locked at each place, and what locks keep.
use linux_fibers.Prelude.{
  ℕ, ◌≡◌, ◌<◌, refl, sym, ap, ◌∙◌, Bool, true, false, not, ◌||◌, ◌==◌, if◌then◌else◌, update, arith,
  Bool-cases, inl, inr, subst, ==_iff,
}
use linux_fibers.Ult.Steps.{Place}

-- The fibers that a thread has locked.
abbrev pub owns : Place → ℕ → Bool
owns Place.outside h = false
owns (Place.converting f) h = false
owns (Place.converted f) h = f == h
owns (Place.executing f) h = f == h
owns (Place.taken f g) h = f == h || g == h
owns (Place.moved f g) h = f == h || g == h
owns (Place.saved f g) h = f == h || g == h
owns (Place.released f g) h = g == h
owns (Place.preparing f g) h = f == h
owns (Place.prepared f g) h = f == h || g == h
owns (Place.parked f g) h = f == h || g == h
owns (Place.leaving f g) h = g == h
owns (Place.booting f g) h = g == h
owns (Place.booted f g) h = f == h || g == h
owns (Place.returning f g) h = f == h || g == h
owns (Place.returned f g) h = f == h

-- The fibers that a thread has a pointer to.
abbrev pub mentions : Place → ℕ → Bool
mentions Place.outside h = false
mentions (Place.converting f) h = f == h
mentions (Place.converted f) h = f == h
mentions (Place.executing f) h = f == h
mentions (Place.taken f g) h = f == h || g == h
mentions (Place.moved f g) h = f == h || g == h
mentions (Place.saved f g) h = f == h || g == h
mentions (Place.released f g) h = f == h || g == h
mentions (Place.preparing f g) h = f == h || g == h
mentions (Place.prepared f g) h = f == h || g == h
mentions (Place.parked f g) h = f == h || g == h
mentions (Place.leaving f g) h = f == h || g == h
mentions (Place.booting f g) h = f == h || g == h
mentions (Place.booted f g) h = f == h || g == h
mentions (Place.returning f g) h = f == h || g == h
mentions (Place.returned f g) h = f == h || g == h

-- A thread that has two fibers locked has two different ones.
abbrev pub apart : Place → Bool
apart (Place.taken f g) = not (f == g)
apart (Place.moved f g) = not (f == g)
apart (Place.saved f g) = not (f == g)
apart (Place.prepared f g) = not (f == g)
apart (Place.parked f g) = not (f == g)
apart (Place.booted f g) = not (f == g)
apart (Place.returning f g) = not (f == g)
apart _ = true

-- A set flag has one thread that owns the fiber, and a thread owns no fiber without the flag.
pub record IsOwned (running : ℕ → Bool) (ult_id : ℕ) (place : ℕ → Place) : Type 0 where
  pub known : (t f : ℕ) → mentions (place t) f ≡ true → f < ult_id
  pub owned : (t f : ℕ) → owns (place t) f ≡ true → mentions (place t) f ≡ true
  pub flagged : (t f : ℕ) → owns (place t) f ≡ true → running f ≡ true
  pub one : (t u f : ℕ) → owns (place t) f ≡ true → owns (place u) f ≡ true → t ≡ u
  pub separate : (t : ℕ) → apart (place t) ≡ true
  pub held : (f : ℕ) → running f ≡ true → (t : ℕ) × (owns (place t) f ≡ true)

pub owns-update :
    (place : ℕ → Place) (t u h : ℕ) (p : Place)
    → owns (update place t p u) h ≡ (if t == u then owns p h else owns (place u) h)
owns-update place t u h p = elim (Bool-cases (t == u)) [ inl e ↦ rw e refl | inr e ↦ rw e refl ]

pub mentions-update :
    (place : ℕ → Place) (t u h : ℕ) (p : Place)
    → mentions (update place t p u) h ≡ (if t == u then mentions p h else mentions (place u) h)
mentions-update place t u h p = elim (Bool-cases (t == u)) [ inl e ↦ rw e refl | inr e ↦ rw e refl ]

pub apart-update :
    (place : ℕ → Place) (t u : ℕ) (p : Place)
    → apart p ≡ true
    → apart (place u) ≡ true
    → apart (update place t p u) ≡ true
apart-update place t u p a b = elim (Bool-cases (t == u)) [ inl e ↦ rw e a | inr e ↦ rw e b ]

-- Who owns a fiber after a step that locks nothing owned it before.
pub owned_before :
    (place : ℕ → Place) (t u h : ℕ) (p : Place)
    → (owns p h ≡ true → owns (place t) h ≡ true)
    → owns (update place t p u) h ≡ true
    → owns (place u) h ≡ true
owned_before place t u h p back o = elim (Bool-cases (t == u)) [
  | inl e ↦
      subst (λ w. owns (place w) h ≡ true) ((==_iff t u).0 e)
        (back (ground (arith, owns-update place t u h p)))
  | inr e ↦ ground (arith, owns-update place t u h p)
]

pub owned_after :
    (place : ℕ → Place) (t u h : ℕ) (p : Place)
    → (owns (place t) h ≡ true → owns p h ≡ true)
    → owns (place u) h ≡ true
    → owns (update place t p u) h ≡ true
owned_after place t u h p forth o = elim (Bool-cases (t == u)) [
  | inl e ↦
      owns-update place t u h p
      ∙ ap (λ b. if b then owns p h else owns (place u) h) e
      ∙ forth (subst (λ w. owns (place w) h ≡ true) (sym ((==_iff t u).0 e)) o)
  | inr e ↦ ground (arith, owns-update place t u h p)
]
