-- ===== src/Thread/Tests.antt =====
-- Two threads of multi_thread/src/thread.c that get their numbers one after the other.
use linux_fibers.Prelude.{ℕ, ◌≢◌, ◌≤◌, refl, none, some, arith}
use linux_fibers.Thread.Steps.{Program, go, swap, step_at, step, initial, Reach, at_start, after}
use linux_fibers.Thread.Numbers.{unique_tid}

program : Unit {0}
unfolding go swap step_at step initial
program = tt

abbrev stepped : ℕ → Program → Program
stepped t s = elim (step t s) [ none ↦ s | some s' ↦ s' ]

abbrev one : Program
one = stepped 4 (stepped 4 initial)

-- Both threads work.
abbrev two : Program
two = stepped 5 (stepped 5 one)

reach_two : Reach 4 two
unfolding program
reach_two = after (after (after (after at_start 4 refl) 4 refl) 5 refl) 5 refl

unique_tid_example : (◌≢◌ {A = ℕ} 1 2) × (◌≤◌ 1 1) × (◌≤◌ 1 2)
unfolding program
unique_tid_example = unique_tid reach_two 4 5 (omega arith) (omega arith) (omega arith)

abbrev first_ended : Program
first_ended = stepped 4 two
