-- ===== src/Reals/Examples.antt =====
-- Three instances of the interface, on which the definitions compute: whole numbers, numbers with one
-- decimal, and numbers with three decimals and a sign.
use linux_fibers.Prelude.{
  ℕ, ◌+◌, ◌-◌, ◌*◌, ◌/◌, ◌%◌, ◌^◌, ltb, leb, ◌==◌, ◌&&◌, not, Bool, true, false, ℤ, pos, negsuc,
  if◌then◌else◌,
}
use linux_fibers.Reals.{Reals}

-- A division by zero gives zero, and the draws count up.
abbrev pub whole : Reals
whole = record {
  R = ℕ;
  Seed = ℕ;
  decimal = λ m e. m / 10 ^ e;
  add = λ x y. x + y;
  sub = λ x y. x - y;
  mul = λ x y. x * y;
  div = λ x y. x / y;
  pow_ten = λ x. 10 ^ x;
  less = ltb;
  less_eq = leb;
  is_zero = λ x. x == 0;
  truncate = λ x. pos x;
  truncate_long = λ x. pos x;
  random = λ s. (s % 2, s + 1);
  expent = λ mean s. (mean, s + 1);
}

-- A number stands for that many tenths.
abbrev pub tenths : Reals
tenths = record {
  R = ℕ;
  Seed = ℕ;
  decimal = λ m e. m * 10 / 10 ^ e;
  add = λ x y. x + y;
  sub = λ x y. x - y;
  mul = λ x y. x * y / 10;
  div = λ x y. x * 10 / y;
  pow_ten = λ x. 10 ^ x;
  less = ltb;
  less_eq = leb;
  is_zero = λ x. x == 0;
  truncate = λ x. pos (x / 10);
  truncate_long = λ x. pos (x / 10);
  random = λ s. (s % 10, s + 1);
  expent = λ mean s. (mean, s + 1);
}

-- The number before the sign, and whether it is negative.
abbrev magnitude : ℤ → ℕ
magnitude (pos n) = n
magnitude (negsuc n) = n + 1

abbrev is_negative : ℤ → Bool
is_negative (pos n) = false
is_negative (negsuc n) = true

abbrev signed_by : Bool → ℕ → ℤ
signed_by negative n = if negative && ltb 0 n then negsuc (n - 1) else pos n

abbrev difference : ℕ → ℕ → ℤ
difference a b = if leb b a then pos (a - b) else negsuc (b - a - 1)

abbrev sum : ℤ → ℤ → ℤ
sum (pos a) (pos b) = pos (a + b)
sum (pos a) (negsuc b) = difference a (b + 1)
sum (negsuc a) (pos b) = difference b (a + 1)
sum (negsuc a) (negsuc b) = negsuc (a + b + 1)

abbrev opposite : ℤ → ℤ
opposite x = signed_by (not (is_negative x)) (magnitude x)

abbrev differ : ℤ → ℤ → Bool
differ x y = if is_negative x then not (is_negative y) else is_negative y

-- Rounded towards 0.
abbrev pub thousandths : Reals
thousandths = record {
  R = ℤ;
  Seed = ℕ;
  decimal = λ m e. pos (m * 1000 / 10 ^ e);
  add = sum;
  sub = λ x y. sum x (opposite y);
  mul = λ x y. signed_by (differ x y) (magnitude x * magnitude y / 1000);
  div = λ x y. signed_by (differ x y) (magnitude x * 1000 / magnitude y);
  pow_ten = λ x. pos (10 ^ magnitude x);
  less = λ x y. is_negative (sum x (opposite y));
  less_eq = λ x y. not (is_negative (sum y (opposite x)));
  is_zero = λ x. magnitude x == 0;
  truncate = λ x. signed_by (is_negative x) (magnitude x / 1000);
  truncate_long = λ x. signed_by (is_negative x) (magnitude x / 1000);
  random = λ s. (pos (s % 1000), s + 1);
  expent = λ mean s. (mean, s + 1);
}
