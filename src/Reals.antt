-- ===== src/Reals.antt =====
-- The floating-point numbers and the random draws that model.c, channel.c, calqueue.c and main.c of
-- multi_thread/src use: an interface, which the definitions take as a parameter.
use linux_fibers.Prelude.{ℕ, Bool, ℤ}
pub mod Examples

-- `double` with its operations and comparisons. `decimal m e` is the constant m / 10 ^ e, and
-- `decimal n 0` the cast of an integer; `truncate` is the cast to `int`, `truncate_long` that to
-- `long`, `pow_ten x` is pow(10.0, x). A `Seed` is the state behind `Random` and `Expent` of
-- multi_thread/src/numerical.c.
pub record Reals : Type 1 where
  pub R : Type 0
  pub Seed : Type 0
  pub decimal : ℕ → ℕ → R
  pub add : R → R → R
  pub sub : R → R → R
  pub mul : R → R → R
  pub div : R → R → R
  pub pow_ten : R → R
  pub less : R → R → Bool
  pub less_eq : R → R → Bool
  pub is_zero : R → Bool
  pub truncate : R → ℤ
  pub truncate_long : R → ℤ
  pub random : Seed → R × Seed
  pub expent : R → Seed → R × Seed
