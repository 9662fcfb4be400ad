-- ===== src/Proc/Names.antt =====
-- The names of the files: `snprintf(fiber->name, 8, "%lu", fiber->index)` of
-- multi_thread/Module/fiber_ioctl.c, read back by `kstrtoul` in multi_thread/Module/proc.c.
use linux_fibers.Prelude.{
  ℕ, zero, suc, ◌+◌, ◌-◌, ◌*◌, ◌/◌, ◌%◌, ◌^◌, ◌≡◌, ◌<◌, ◌≤◌, refl, ap, ◌∙◌, List, [], ◌∷◌, length,
  take, ◌⊎◌, inl, inr, arith,
}
use native.Mathlib.Nat.{pow-suc}
use linux_fibers.Driver.Task.{decimal_digits, fiber_name}

-- `kstrtoul(s, 10, &value)` on a string of digits.
unfoldable pub parse_decimal : ℕ → List ℕ → ℕ
parse_decimal acc [] = acc
parse_decimal acc (d ∷ ds) = parse_decimal (acc * 10 + (d - b'0')) ds

ℕ-cases : (n : ℕ) → (n ≡ 0) ⊎ ((m : ℕ) × (n ≡ suc m))
ℕ-cases zero = inl refl
ℕ-cases (suc m) = inr (m, refl)

positive : (k n : ℕ) → n < 10 ^ suc k → (q : ℕ) → n / 10 ≡ suc q → 0 < k
positive zero n h q e = absurd (omega arith)
positive (suc k) n h q e = omega arith

-- The digits come back as the number, in front of whatever follows.
parse-decimal_digits :
    (fuel n : ℕ) (acc : List ℕ)
    → n < 10 ^ fuel
    → parse_decimal 0 (decimal_digits fuel n acc) ≡ parse_decimal n acc
unfolding parse_decimal decimal_digits
parse-decimal_digits zero n acc h = ap (λ m. parse_decimal m acc) (omega arith)
parse-decimal_digits (suc fuel) n acc h = elim (ℕ-cases (n / 10)) [
  | inl e ↦ rw (e, decimal_digits) (ap (λ m. parse_decimal m acc) (omega arith))
  | inr (q, e) ↦
      rw (e, decimal_digits)
        (parse-decimal_digits fuel (n / 10) ((b'0' + n % 10) ∷ acc) (omega (arith, pow-suc 10 fuel))
          ∙ ap (λ m. parse_decimal m acc) (omega arith))
]

length-decimal_digits :
    (fuel k n : ℕ) (acc : List ℕ)
    → n < 10 ^ k
    → 0 < k
    → length (decimal_digits fuel n acc) ≤ k + length acc
unfolding decimal_digits
length-decimal_digits zero k n acc h p = omega arith
length-decimal_digits (suc fuel) zero n acc h p = absurd (omega arith)
length-decimal_digits (suc fuel) (suc k) n acc h p = elim (ℕ-cases (n / 10)) [
  | inl e ↦ rw (e, decimal_digits) (omega arith)
  | inr (q, e) ↦
      rw (e, decimal_digits)
        (omega (
          arith,
          length-decimal_digits fuel k (n / 10) ((b'0' + n % 10) ∷ acc)
              (omega (arith, pow-suc 10 k)) (positive k n h q e),
        ))
]

-- A cut behind the last element changes nothing.
take_all : (xs : List ℕ) (n : ℕ) → length xs ≤ n → take n xs ≡ xs
take_all (d ∷ ds) (suc n) bound = let rest = take_all ds n (omega arith) in ground (arith, rest)
take_all (d ∷ ds) zero bound = absurd (omega arith)
take_all [] (suc _) _ = refl
take_all [] zero _ = refl

-- The name of a fiber with an index of at most seven digits is read back as that index.
pub parse-fiber_name : (index : ℕ) → index < 10 ^ 7 → parse_decimal 0 (fiber_name index) ≡ index
unfolding fiber_name parse_decimal
parse-fiber_name index h =
    ap (parse_decimal 0) (
      take_all (decimal_digits 20 index []) 7 (length-decimal_digits 20 7 index [] h (omega arith)))
    ∙ parse-decimal_digits 20 index [] (omega arith)
