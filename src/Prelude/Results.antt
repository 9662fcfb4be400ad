-- ===== src/Prelude/Results.antt =====
-- Chains of steps of the calendar queue, which may fail or leave the calendar, and what holds of a
-- result.
use mathlib.Core.Path.{◌≡◌, refl}
use mathlib.Core.Bool.{Bool, true, false}
use linux_fibers.Prelude.Tests.{if◌then◌else◌}

-- `failed`: an item is read that is not there, or the fuel is out. `outside`: a chain is read or
-- written at an index before the calendar.
pub data Outcome {ℓ} (A : Type ℓ) : Type ℓ where
  failed : Outcome A
  outside : Outcome A
  ok : A → Outcome A

infixl 1 ◌>>=◌
abbrev pub ◌>>=◌ {ℓ κ} : {A : Type ℓ} {B : Type κ} → Outcome A → (A → Outcome B) → Outcome B
failed >>= f = failed
outside >>= f = outside
ok a >>= f = f a

-- There is a result, and `P` holds of it; or the calendar is left, and then `L` holds.
pub data Yields {ℓ κ} {A : Type ℓ} (L : Type 0) (P : A → Type κ) : Outcome A → Type (ℓ ⊔ κ) where
  gives : {a : A} → P a → Yields L P (ok a)
  leaves : L → Yields L P outside

-- There is a result, and `P` holds of it.
abbrev pub Gives {ℓ κ} : {A : Type ℓ} → (A → Type κ) → Outcome A → Type (ℓ ⊔ κ)
Gives P = Yields ⊥ P

-- There is a result, and `P` holds of it, or the calendar is left.
abbrev pub GivesOrLeaves {ℓ κ} : {A : Type ℓ} → (A → Type κ) → Outcome A → Type (ℓ ⊔ κ)
GivesOrLeaves P = Yields Unit P

module _ {ℓ κ} {A : Type ℓ} {L : Type 0} {P : A → Type κ} where
  pub Yields-bind {μ ν} :
      {B : Type μ} {Q : B → Type ν} {o : Outcome A} {f : A → Outcome B}
      → Yields L P o
      → ((a : A) → P a → Yields L Q (f a))
      → Yields L Q (o >>= f)
  Yields-bind (gives h) k = k _ h
  Yields-bind (leaves l) k = leaves l

  pub Yields-map {ν} :
      {Q : A → Type ν} {o : Outcome A} → Yields L P o → ((a : A) → P a → Q a) → Yields L Q o
  Yields-map (gives h) k = gives (k _ h)
  Yields-map (leaves l) k = leaves l

  pub Yields-both {ν} :
      {Q : A → Type ν} {o : Outcome A} → Yields L P o → Yields L Q o → Yields L (λ a. P a × Q a) o
  Yields-both (gives h) (gives k) = gives (h, k)
  Yields-both (leaves l) k = leaves l

  pub Yields-if :
      {x y : Outcome A} (b : Bool)
      → (b ≡ true → Yields L P x)
      → (b ≡ false → Yields L P y)
      → Yields L P (if b then x else y)
  Yields-if true h k = h refl
  Yields-if false h k = k refl

  pub Yields-leaving : {M : Type 0} {o : Outcome A} → Yields L P o → (L → M) → Yields M P o
  Yields-leaving (gives h) k = gives h
  Yields-leaving (leaves l) k = leaves (k l)
