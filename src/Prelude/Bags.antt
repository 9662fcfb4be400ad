-- ===== src/Prelude/Bags.antt =====
-- Lists up to the order of their items: what a weight of each item adds up to.
use mathlib.Core.Logic.{∥∥₁_elim}
use mathlib.Core.Path.{◌≡◌, refl, sym, ◌∙◌}
use mathlib.Core.Bool.{Bool}
use mathlib.Core.List.{List, [], ◌∷◌, ◌++◌, Perm, Permᴰ}
use mathlib.Core.List.{perm_middle}
use mathlib.Core.List.Perm
use native.Mathlib.Nat.{ℕ_set}
use native.Mathlib.Omega.{arith}
use Prim.Native.Nat.{ℕ, ◌+◌}
use linux_fibers.Prelude.Tests.{if◌then◌else◌}
use linux_fibers.Prelude.Lists.{length}

module _ {ℓ} {A : Type ℓ} where
  abbrev pub weight : (A → ℕ) → List A → ℕ
  weight f [] = 0
  weight f (x ∷ rest) = f x + weight f rest

  -- How many items of a list pass a test.
  abbrev pub count : (A → Bool) → List A → ℕ
  count p = weight (λ x. if p x then 1 else 0)

  weighed : (f : A → ℕ) (old new : List A) → Permᴰ old new → weight f old ≡ weight f new
  weighed f old new (Permᴰ.trans before after) = weighed f old _ before ∙ weighed f _ new after
  weighed f old new (Permᴰ.swap same same') = rw (same, same') (omega arith)
  weighed f old new (Permᴰ.cons same rest) = rw (same, weighed f _ _ rest) refl
  weighed f old new Permᴰ.nil = refl

  pub weight-perm : (f : A → ℕ) {old new : List A} → Perm old new → weight f old ≡ weight f new
  weight-perm f {old} {new} same = ∥∥₁_elim same (ℕ_set _ _) (weighed f old new)

  weight_ones : (l : List A) → weight (λ x. 1) l ≡ length l
  weight_ones [] = refl
  weight_ones (x ∷ rest) = omega (arith, weight_ones rest)

  -- Lists with the same items are as long as each other.
  pub length-perm : {old new : List A} → Perm old new → length old ≡ length new
  length-perm {old} {new} same = sym (weight_ones old) ∙ weight-perm (λ x. 1) same ∙ weight_ones new

  -- An item in front of the second of two lists.
  pub perm_front : (x : A) (a b c : List A) → Perm b (x ∷ c) → Perm (a ++ b) (x ∷ (a ++ c))
  perm_front x a b c p = Perm.trans (Perm.append_left a p) (perm_middle a c)

  pub length-append : (a b : List A) → length (a ++ b) ≡ length a + length b
  length-append [] b = omega arith
  length-append (x ∷ a) b = omega (arith, length-append a b)
