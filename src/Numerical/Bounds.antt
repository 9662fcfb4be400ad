-- ===== src/Numerical/Bounds.antt =====
-- What `Random` of multi_thread/src/numerical.c can return.
use linux_fibers.Prelude.{
  ℕ, zero, suc, ◌+◌, ◌*◌, ◌/◌, ◌%◌, ◌^◌, ◌≡◌, ◌<◌, ◌≤◌, ◌-◌, false, refl, ◌==◌, ◌&&◌, arith,
  Bool-cases, inl, inr,
}
use linux_fibers.Numerical.Draws.{
  Seed, width, split_seed, seeded, next_half, next_seed, mix, random, seed_after,
}

-- Before rounding the value of Random lies strictly between 0 and 1, whatever the seed: with the
-- factor 2.328306435454494e-10 written as 2328306435454494 over 10 ^ 25.
random_bounds :
    (r : ℕ) (s : Seed)
    → (0 < ((random r s).0 + 1) * 2328306435454494)
      × (((random r s).0 + 1) * 2328306435454494 < 10 ^ 25)
unfolding random mix
random_bounds r s = (omega arith, omega arith)

-- A 32-bit number with its halves exchanged.
abbrev pub rotated : ℕ → ℕ
rotated x = x % 2 ^ 16 * 2 ^ 16 + x / 2 ^ 16

-- The moduli of the two generators, a * 2 ^ 16 - 1 for the factors 36969 and 18000.
abbrev pub modulus1 : ℕ
modulus1 = 36969 * 2 ^ 16 - 1

abbrev pub modulus2 : ℕ
modulus2 = 18000 * 2 ^ 16 - 1

-- Random steps two multiplicative generators backwards: for a seed that is not 0, with its halves at
-- most the moduli a * 2 ^ 16 - 1 of the factors, each half stays at most its modulus, and 2 ^ 16 times
-- the new half is the old one, modulo this. The number that is scaled is the first new half with its
-- 16-bit parts exchanged plus the second one, in 32 bits.
pub random_lem :
    (r : ℕ) (s : Seed)
    → (s.seed1 == 0 && s.seed2 == 0) ≡ false
    → s.seed1 ≤ modulus1
    → s.seed2 ≤ modulus2
    → ((random r s).1.seed1 ≤ modulus1)
      × ((random r s).1.seed1 * 2 ^ 16 % modulus1 ≡ s.seed1 % modulus1)
      × ((random r s).1.seed2 ≤ modulus2)
      × ((random r s).1.seed2 * 2 ^ 16 % modulus2 ≡ s.seed2 % modulus2)
      × ((random r s).0 ≡ (rotated (random r s).1.seed1 + (random r s).1.seed2) % width)
unfolding random mix next_seed seeded next_half
random_lem r s kept low1 low2 =
    rw kept (omega arith, omega arith, omega arith, omega arith, omega arith)

next_high : (r : ℕ) (s : Seed) → r < 2 ^ 31 → s.seed2 ≡ 0 → (next_seed (seeded r s)).seed2 ≡ 0
unfolding next_seed seeded split_seed next_half
next_high r s small e = elim (Bool-cases (s.seed1 == 0 && s.seed2 == 0)) [
  | inl fresh ↦ rw fresh (omega arith)
  | inr kept ↦ rw kept (omega (arith, e))
]

high_half : (rs : ℕ → ℕ) (n : ℕ) → ((i : ℕ) → rs i < 2 ^ 31) → (seed_after rs n).seed2 ≡ 0
unfolding seed_after random
high_half rs zero small = refl
high_half rs (suc n) small = next_high (rs n) (seed_after rs n) (small n) (high_half rs n small)

-- random() gives at most 31 bits, so that it never reaches the high half of the 64-bit seed, which
-- starts as 0 and stays 0 in every thread: the second generator of Random never runs, and each value
-- depends on the first one alone.
pub second_half_stays :
    (rs : ℕ → ℕ) (n : ℕ)
    → ((i : ℕ) → rs i < 2 ^ 31)
    → ((seed_after rs n).seed2 ≡ 0)
      × ((random (rs n) (seed_after rs n)).0
          ≡ ((seed_after rs (suc n)).seed1 * 2 ^ 16 % width
              + (seed_after rs (suc n)).seed1 / 2 ^ 16)
            % width)
unfolding seed_after random mix
second_half_stays rs n small =
    let now = high_half rs n small in
    let next = next_high (rs n) (seed_after rs n) (small n) now in (now, omega (arith, next))
