-- ===== src/Prelude/Table.antt =====
-- Tables of entries that carry their own key, as the chains of a kernel hash table: an insertion
-- is at the head of a chain, a search takes the first entry with the key, and a deletion unlinks
-- one entry.
use mathlib.Core.Option
use mathlib.Core.Path.{◌≡◌, refl}
use mathlib.Core.Bool.{false}
use mathlib.Core.Logic.{inl, inr}
use mathlib.Core.Option.{Option, none, some}
use mathlib.Core.List.{List, [], ◌∷◌}
use native.Mathlib.Omega.{arith}
use Prim.Native.Nat.{ℕ}
use linux_fibers.Prelude.Tests.{◌==◌, if◌then◌else◌, Bool-cases}

module _ {A : Type 0} (key : A → ℕ) where
  unfoldable pub find : ℕ → List A → Option A
  find k [] = none
  find k (x ∷ xs) = if key x == k then some x else find k xs

  unfoldable pub remove : ℕ → List A → List A
  remove k [] = []
  remove k (x ∷ xs) = if key x == k then xs else x ∷ remove k xs

  unfoldable pub modify : ℕ → (A → A) → List A → List A
  modify k g [] = []
  modify k g (x ∷ xs) = if key x == k then g x ∷ xs else x ∷ modify k g xs

  -- No two entries have one key.
  abbrev pub Distinct : List A → Type 0
  Distinct [] = Unit
  Distinct (x ∷ xs) = (find (key x) xs ≡ none) × Distinct xs

  pub find-nil : (k : ℕ) → find k [] ≡ none
  unfolding find
  find-nil k = refl

  pub find-cons :
      (k : ℕ) (x : A) (xs : List A) → find k (x ∷ xs) ≡ (if key x == k then some x else find k xs)
  unfolding find
  find-cons k x xs = refl

  pub find-key : (k : ℕ) (xs : List A) (x : A) → find k xs ≡ some x → key x ≡ k
  unfolding find
  find-key k [] x h = ground arith
  find-key k (y ∷ xs) x h = ground (arith, find-key k xs x)

  pub find-modify :
      (k j : ℕ) (g : A → A) (xs : List A)
      → ((x : A) → key (g x) ≡ key x)
      → find j (modify k g xs) ≡ (if k == j then Option.map g (find k xs) else find j xs)
  unfolding find modify
  find-modify k j g [] keeps = ground arith
  find-modify k j g (x ∷ xs) keeps = ground (arith, keeps x, find-modify k j g xs keeps)

  pub modify-Distinct :
      (k : ℕ) (g : A → A) (xs : List A)
      → ((x : A) → key (g x) ≡ key x)
      → Distinct xs
      → Distinct (modify k g xs)
  unfolding modify
  modify-Distinct k g [] keeps d = tt
  modify-Distinct k g (x ∷ xs) keeps d = elim (Bool-cases (key x == k)) [
    | inl e ↦ rw e (ground (arith, keeps x), d.1)
    | inr e ↦
        rw e (ground (arith, find-modify k (key x) g xs keeps), modify-Distinct k g xs keeps d.1)
  ]

  pub find-remove_ne : (k j : ℕ) (xs : List A) → (k == j) ≡ false → find j (remove k xs) ≡ find j xs
  unfolding find remove
  find-remove_ne k j [] h = refl
  find-remove_ne k j (x ∷ xs) h = ground (arith, find-remove_ne k j xs h)

  pub find-remove :
      (k j : ℕ) (xs : List A)
      → Distinct xs
      → find j (remove k xs) ≡ (if k == j then none else find j xs)
  unfolding find remove
  find-remove k j [] d = ground arith
  find-remove k j (x ∷ xs) d = ground (arith, find-remove k j xs d.1)

  pub remove-Distinct : (k : ℕ) (xs : List A) → Distinct xs → Distinct (remove k xs)
  unfolding remove
  remove-Distinct k [] d = tt
  remove-Distinct k (x ∷ xs) d = elim (Bool-cases (key x == k)) [
    | inl e ↦ rw e d.1
    | inr e ↦ rw e (ground (arith, find-remove_ne k (key x) xs), remove-Distinct k xs d.1)
  ]

  -- The entry with the key `k` is replaced by `y`.
  pub find-replace :
      (k j : ℕ) (y x : A) (xs : List A)
      → key y ≡ k
      → find k xs ≡ some x
      → find j (modify k (λ _. y) xs) ≡ (if k == j then some y else find j xs)
  unfolding find modify
  find-replace k j y x [] e there = ground arith
  find-replace k j y x (z ∷ xs) e there = ground (arith, find-replace k j y x xs e)

  find-replace_ne :
      (k j : ℕ) (y : A) (xs : List A)
      → key y ≡ k
      → (k == j) ≡ false
      → find j (modify k (λ _. y) xs) ≡ find j xs
  unfolding find modify
  find-replace_ne k j y [] e ne = refl
  find-replace_ne k j y (z ∷ xs) e ne = ground (arith, find-replace_ne k j y xs e)

  pub replace-Distinct :
      (k : ℕ) (y : A) (xs : List A) → key y ≡ k → Distinct xs → Distinct (modify k (λ _. y) xs)
  unfolding modify
  replace-Distinct k y [] e d = tt
  replace-Distinct k y (x ∷ xs) e d = elim (Bool-cases (key x == k)) [
    | inl eq ↦ rw eq (ground arith, d.1)
    | inr ne ↦
        rw ne (ground (arith, find-replace_ne k (key x) y xs e), replace-Distinct k y xs e d.1)
  ]
