-- ===== src/Numerical/Tests.antt =====
-- First calls of `Random` of multi_thread/src/numerical.c.
use linux_fibers.Prelude.{◌+◌, ◌*◌, ◌%◌, ◌^◌, ◌≡◌, ◌≤◌, refl, arith}
use linux_fibers.Numerical.Draws.{
  Seed, width, split_seed, seeded, next_half, next_seed, mix, random,
}
use linux_fibers.Numerical.Bounds.{modulus1, modulus2, rotated, random_lem}

-- The first call of a thread to which random() gives 1.
first_call :
    random 1 (record { seed1 = 0; seed2 = 0 }) ≡ (2422800384, record { seed1 = 36969; seed2 = 0 })
unfolding random seeded split_seed next_seed next_half mix
first_call = refl

-- The second call of this thread.
abbrev seed : Seed
seed = record { seed1 = 36969; seed2 = 0 }

random_lem_example :
    ((random 1 seed).1.seed1 ≤ modulus1)
    × ((random 1 seed).1.seed1 * 2 ^ 16 % modulus1 ≡ 36969 % modulus1)
    × ((random 1 seed).1.seed2 ≤ modulus2)
    × ((random 1 seed).1.seed2 * 2 ^ 16 % modulus2 ≡ 0 % modulus2)
    × ((random 1 seed).0 ≡ (rotated (random 1 seed).1.seed1 + (random 1 seed).1.seed2) % width)
random_lem_example = random_lem 1 seed refl (omega arith) (omega arith)
