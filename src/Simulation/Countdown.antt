-- ===== src/Simulation/Countdown.antt =====
-- How the fibers of multi_thread/src/main.c report that their work is done.
use linux_fibers.Prelude.{ℕ, ◌+◌, ◌-◌, ◌%◌, ◌^◌, Bool, ltb}

pub record Totals : Type 0 where
  pub completed_fibers : ℕ
  pub exec_millis : ℕ

-- `__sync_fetch_and_add(&exec_millis, millis)`, of an `unsigned long long`.
unfoldable pub add_millis : ℕ → Totals → Totals
add_millis millis t = record {
  completed_fibers = t.completed_fibers;
  exec_millis = (t.exec_millis + millis) % 2 ^ 64;
}

-- `__sync_fetch_and_sub(&completed_fibers, 1)`, of an `unsigned int`.
unfoldable pub count_down : Totals → Totals
count_down t = record {
  completed_fibers = (t.completed_fibers + 2 ^ 32 - 1) % 2 ^ 32;
  exec_millis = t.exec_millis;
}

-- The first fiber waits.
unfoldable pub waits : Totals → Bool
waits t = ltb 0 t.completed_fibers
