-- ===== src/Simulation/Tests.antt =====
-- Starts of the program of multi_thread/src/main.c, and the first rounds of a fiber with whole numbers
-- in place of `double`.
use linux_fibers.Prelude.{
  ℕ, ◌*◌, ◌%◌, ◌^◌, ◌≤◌, ◌<◌, ◌≡◌, refl, true, false, [], ◌∷◌, none, some, length, update, ltb, pos,
  negsuc, arith,
}
use linux_fibers.Reals.Examples.{whole}
use linux_fibers.Cell.Events.{Msg}
use linux_fibers.Calendar.State.{Queue}
use linux_fibers.Simulation.Loop.{is_error, prepare, rounds}
use linux_fibers.Simulation.Safety.{IsSafe}
use linux_fibers.Simulation.Joined.{calendar_queue, simulation-IsSafe}
use linux_fibers.Simulation.Launch.{
  to_unsigned, get_random_fiber, fiber_at, other, plan, enough, launch,
}
use linux_fibers.Simulation.Starting.{IsSound, launch-IsSound}
use linux_fibers.Simulation.Startup.{
  Startup, no_switch, switched_to, at_first, switches, fills, arms, opens, converts, picks, Begun,
  new, by_main, by_thread, IsEntry, Begun-switches,
}
use linux_fibers.Simulation.Countdown.{waits}
use linux_fibers.Simulation.Ending.{
  Program, started, timed, reported, Steps, adds_time, reports_once, none_more, one_more, tally,
  count_done,
}
use linux_fibers.Simulation.Finishing.{ends_with_all, can_end}

abbrev memory : Queue whole (Msg whole)
memory = record {
  calq = λ i. [];
  firstsub = 3;
  nbuckets = 5;
  qsize = 8;
  lastbucket = 1;
  resize_enabled = false;
  top_threshold = 0;
  bot_threshold = negsuc 0;
  lastprio = 4;
  buckettop = 9;
  cwidth = 2;
}

-- Five rounds of the fiber with the id 1.
simulation-IsSafe_example : IsSafe whole (calendar_queue whole (Msg whole)) (
    rounds whole
      (calendar_queue whole (Msg whole))
      (λ n. n)
      (λ n word bit. true)
      5
      (prepare whole (calendar_queue whole (Msg whole)) 1 (pos 0) (pos 1) memory 7 none 3))
unfolding is_error
simulation-IsSafe_example =
    simulation-IsSafe whole (λ n. n) (λ n word bit. true) 5 1 (pos 0) (pos 1) memory 7 none 3 refl
      refl

-- On two processors, three fibers.
launch-IsSound_example :
    (2 ≤ 2)
    × (3 ≡ to_unsigned (pos 3))
    × (to_unsigned (pos 2) < to_unsigned (pos 3))
    × IsSound (plan 3 2 false)
unfolding launch to_unsigned enough
launch-IsSound_example = launch-IsSound (pos 2) 2 (pos 3) other (plan 3 2 false) refl

abbrev times : ℕ → ℕ
times i = 10 * i

-- Of three fibers the one at 1 has reported.
abbrev one_report : Program
one_report = reported 1 (timed 1 (started 3 times))

one_step : Steps 3 (started 3 times) one_report
unfolding started timed
one_step =
    one_more (one_more none_more (adds_time 1 (omega arith) refl))
      (reports_once 1 (omega arith) refl refl)

ends_with_all_example :
    (waits one_report.totals ≡ ltb (count_done one_report.done 3) 3)
    × (one_report.totals.exec_millis ≡ tally one_report.added one_report.times 3 % 2 ^ 64)
    × (one_report.ended ≡ true → (i : ℕ) → i < 3 → one_report.done i ≡ true)
    × (one_report.ended ≡ true
        → one_report.totals.exec_millis ≡ tally (λ i. true) one_report.times 3 % 2 ^ 64)
ends_with_all_example = ends_with_all 3 times one_report (omega arith) one_step

can_end_example : (t : Program) × Steps 3 one_report t × (t.ended ≡ true)
can_end_example = can_end 3 times one_report (omega arith) (omega arith) one_step

-- Two fibers are stored, and the thread at 0 goes on and draws 5.
abbrev at_switch : Startup ℕ
at_switch = record {
  fibers = 10 ∷ 11 ∷ [];
  armed = true;
  init_complete = true;
  converted = update (λ i. false) 0 true;
  choices = update (λ i. no_switch) 0 (switched_to (some 11));
}

Begun-two : Begun ℕ 2 at_switch
unfolding at_first switches get_random_fiber fiber_at
Begun-two =
    let set_up =
      by_main
        (by_main (by_main (by_main new (fills 10 (omega arith))) (fills 11 (omega arith)))
          (arms refl))
        (opens refl) in
    by_thread 0 (by_thread 0 set_up (converts refl)) (picks 5 refl refl)

Begun-switches_example : (length at_switch.fibers ≡ 2) × IsEntry ℕ 2 (10 ∷ 11 ∷ []) (some 11)
Begun-switches_example = Begun-switches ℕ 2 (omega arith) at_switch 0 (some 11) Begun-two refl
