-- ===== src/Cell/Counting.antt =====
-- How many entries a table needs to hold every key below a bound: the free channels of
-- multi_thread/src/channel.c are counted by it.
use linux_fibers.Prelude.{
  ℕ, zero, suc, ◌+◌, ◌≡◌, ◌<◌, ◌≤◌, ap, ◌∙◌, Bool, true, false, List, [], ◌∷◌, Option, none, some,
  length, ◌==◌, arith, Bool-cases, inl, inr,
}
use linux_fibers.Prelude.Table.{find, remove, find-remove_ne}

abbrev pub is_some : {A : Type 0} → Option A → Bool
is_some none = false
is_some (some a) = true

module _ {A : Type 0} (key : A → ℕ) where
  -- Whether an entry has the key.
  abbrev pub listed_in : ℕ → List A → Bool
  listed_in k xs = is_some (find key k xs)

  pub length-remove :
      (k : ℕ) (xs : List A) → listed_in k xs ≡ true → length (remove key k xs) + 1 ≡ length xs
  unfolding find remove
  length-remove k [] h = absurd (ground arith)
  length-remove k (x ∷ xs) h = elim (Bool-cases (key x == k)) [
    | inl e ↦ rw e (omega arith)
    | inr e ↦ let rest = length-remove k xs (ground arith) in rw e (omega (arith, rest))
  ]

  pub pigeonhole : (n : ℕ) (xs : List A) → ((i : ℕ) → i < n → listed_in i xs ≡ true) → n ≤ length xs
  pigeonhole zero xs all = omega arith
  pigeonhole (suc n) xs all =
      let rest =
        pigeonhole n (remove key n xs)
          (λ i lt. ap is_some (find-remove_ne key n i xs (ground arith)) ∙ all i (omega arith)) in
      omega (arith, rest, length-remove n xs (all n (omega arith)))
