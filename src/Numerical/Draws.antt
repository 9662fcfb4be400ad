-- ===== src/Numerical/Draws.antt =====
-- `Random` of multi_thread/src/numerical.c up to its last multiplication: two 32-bit generators in the
-- halves of one 64-bit seed.
use linux_fibers.Prelude.{ℕ, zero, suc, ◌+◌, ◌*◌, ◌/◌, ◌%◌, ◌^◌, ◌==◌, ◌&&◌, if◌then◌else◌}

-- `master_seed` of a thread, by its low half `seed1` and its high half `seed2`.
pub record Seed : Type 0 where
  pub seed1 : ℕ
  pub seed2 : ℕ

abbrev pub width : ℕ
width = 2 ^ 32

-- `master_seed = random()`
unfoldable pub split_seed : ℕ → Seed
split_seed r = record { seed1 = r % width; seed2 = r / width % width }

-- The seed is taken from `random()`, whose result is `r`, while it is 0.
unfoldable pub seeded : ℕ → Seed → Seed
unfolding split_seed
seeded r s = if s.seed1 == 0 && s.seed2 == 0 then split_seed r else s

-- `factor * (x & 0xFFFFu) + (x >> 16u)` in 32 bits
unfoldable pub next_half : ℕ → ℕ → ℕ
next_half factor x = (factor * (x % 2 ^ 16) + x / 2 ^ 16) % width

unfoldable pub next_seed : Seed → Seed
unfolding next_half
next_seed s = record { seed1 = next_half 36969 s.seed1; seed2 = next_half 18000 s.seed2 }

-- `(*seed1 << 16u) + (*seed1 >> 16u) + *seed2` in 32 bits
unfoldable pub mix : Seed → ℕ
mix s = (s.seed1 * 2 ^ 16 % width + s.seed1 / 2 ^ 16 + s.seed2) % width

-- One call of `Random`: the number to which 1.0 is added before it is scaled, and the seed after it.
unfoldable pub random : ℕ → Seed → ℕ × Seed
unfolding seeded next_seed mix
random r s = let s' = next_seed (seeded r s) in (mix s', s')

-- The seed of a thread after `n` calls from the zeroed start, where `random()` gives `rs i` if the
-- call `i` asks it.
unfoldable pub seed_after : (ℕ → ℕ) → ℕ → Seed
unfolding random
seed_after rs zero = record { seed1 = 0; seed2 = 0 }
seed_after rs (suc n) = (random (rs n) (seed_after rs n)).1
