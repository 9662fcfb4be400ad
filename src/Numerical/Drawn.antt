-- ===== src/Numerical/Drawn.antt =====
-- `Random` and `Expent` of multi_thread/src/numerical.c as the draws of the interface of
-- floating-point numbers.
use linux_fibers.Prelude.{ℕ}
use linux_fibers.Reals.{Reals}
use linux_fibers.Numerical.Draws.{Seed, random}

-- `log` of the C library is a parameter, and so is what the system's `random()` returns when a thread
-- asks it for its first seed.
module _ (F : Reals) (log : F.R → F.R) (system_random : ℕ) where
  -- `Random`, with its last addition and its multiplication.
  unfoldable pub scaled : Seed → F.R × Seed
  unfolding random
  scaled s =
      let (n, s') = random system_random s in
      (F.mul (F.add (F.decimal n 0) (F.decimal 1 0)) (F.decimal 2328306435454494 25), s')

  -- `Expent` of a mean that is not negative; of a negative one it stops the program. The product with
  -- the negated mean is the product with the mean, taken from 0.
  unfoldable pub exponential : F.R → Seed → F.R × Seed
  unfolding scaled
  exponential mean s =
      let (x, s') = scaled s in
      (F.sub (F.decimal 0 0) (F.mul mean (log (F.sub (F.decimal 1 0) x))), s')

  -- The interface with these draws.
  abbrev pub drawn : Reals
  drawn = record {
    R = F.R;
    Seed = Seed;
    decimal = F.decimal;
    add = F.add;
    sub = F.sub;
    mul = F.mul;
    div = F.div;
    pow_ten = F.pow_ten;
    less = F.less;
    less_eq = F.less_eq;
    is_zero = F.is_zero;
    truncate = F.truncate;
    truncate_long = F.truncate_long;
    random = scaled;
    expent = exponential;
  }
