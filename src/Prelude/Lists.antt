-- ===== src/Prelude/Lists.antt =====
-- Lists measured by native numbers, and functions from numbers written at one place.
use Prim.Native.Nat.{ℕ, zero, suc}
use mathlib.Core.List.{List, [], ◌∷◌}
use linux_fibers.Prelude.Tests.{◌==◌, if◌then◌else◌}

module _ {ℓ} {A : Type ℓ} where
  abbrev pub length : List A → ℕ
  length (a ∷ rest) = suc (length rest)
  length [] = zero

  abbrev pub take : ℕ → List A → List A
  take (suc n) (a ∷ rest) = a ∷ take n rest
  take (suc n) [] = []
  take zero rest = []

  abbrev pub replicate : ℕ → A → List A
  replicate zero a = []
  replicate (suc n) a = a ∷ replicate n a

  -- `f` with the value `v` at `i`, as a C array after `f[i] = v`.
  abbrev pub update : (ℕ → A) → ℕ → A → ℕ → A
  update f i v j = if i == j then v else f j
