-- ===== src/Simulation/Finishing.antt =====
-- What the fibers of multi_thread/src/main.c reach as they report, and that they can finish.
use linux_fibers.Prelude.{
  ℕ, zero, suc, ◌+◌, ◌%◌, ◌^◌, ◌≤◌, ◌<◌, ◌≡◌, refl, sym, ap, ◌∙◌, subst, Bool, true, false, update,
  ltb, ◌==◌, ==_iff, Bool-cases, inl, inr, arith,
}
use linux_fibers.Simulation.Countdown.{add_millis, count_down, waits}
use linux_fibers.Simulation.Ending.{
  Program, started, timed, reported, Step, adds_time, reports_once, ends, Steps, none_more,
  one_more, tally, count_done, tally-update, tally-all, tally_nothing, count_done-le, all_done,
}

-- The counter is the number of fibers that have not reported, the sum is that of the times of those
-- that have added theirs, in 64 bits, a fiber has added its time before it reports, and the program ends
-- only when all have reported.
pub record IsCounted (num_fibers : ℕ) (s : Program) : Type 0 where
  pub missing : s.totals.completed_fibers + count_done s.done num_fibers ≡ num_fibers
  pub summed : s.totals.exec_millis ≡ tally s.added s.times num_fibers % 2 ^ 64
  pub in_turn : (i : ℕ) → s.done i ≡ true → s.added i ≡ true
  pub at_end : s.ended ≡ true → (i : ℕ) → i < num_fibers → s.done i ≡ true

started-IsCounted : (n : ℕ) (times : ℕ → ℕ) → IsCounted n (started n times)
unfolding started
started-IsCounted n times = record {
  missing = omega (arith, tally_nothing (λ i. 1) n);
  summed = rw (tally_nothing times n) refl;
  in_turn = λ i h. absurd (ground arith);
  at_end = λ h. absurd (ground arith);
}

Step-IsCounted : (n : ℕ) (s t : Program) → n < 2 ^ 32 → Step n s t → IsCounted n s → IsCounted n t
unfolding timed reported add_millis count_down waits
Step-IsCounted n s t lt (adds_time i below new) c = record {
  missing = c.missing;
  summed = omega (arith, c.summed, tally-update s.added s.times n i below new);
  in_turn = λ j h. ground (arith, c.in_turn j h);
  at_end = c.at_end;
}
Step-IsCounted n s t lt (reports_once i below before new) c =
    let one : count_done (update s.done i true) n ≡ count_done s.done n + 1 =
      tally-update s.done (λ i. 1) n i below new in
    let bound : count_done (update s.done i true) n ≤ n = count_done-le (update s.done i true) n in
    record {
      missing = omega (arith, c.missing, one, bound);
      summed = c.summed;
      in_turn = λ j h. elim (Bool-cases (i == j)) [
        | inl same ↦ subst (λ k. s.added k ≡ true) ((==_iff i j).0 same) before
        | inr other ↦ c.in_turn j (ground (arith, h))
      ];
      at_end = λ h j less. ground (arith, c.at_end h j less);
    }
Step-IsCounted n s t lt (ends first over) c =
    let none_missing : s.totals.completed_fibers ≡ 0 = ground arith in
    record {
      missing = c.missing;
      summed = c.summed;
      in_turn = c.in_turn;
      at_end = λ h. all_done s.done n (omega (arith, c.missing, none_missing));
    }

Steps-IsCounted : (n : ℕ) (s t : Program) → n < 2 ^ 32 → Steps n s t → IsCounted n s → IsCounted n t
Steps-IsCounted n s t lt none_more c = c
Steps-IsCounted n s u lt (one_more {t = t} before last) c =
    Step-IsCounted n t u lt last (Steps-IsCounted n s t lt before c)

-- In whatever order the fibers add their times and report, the first one waits exactly while a report
-- of the fibers is missing, the sum is that of the times of those that have added theirs, in 64 bits,
-- and the program ends only when all have reported, and then with the sum of the times of all: that is
-- the sum of which it prints the average.
pub ends_with_all :
    (num_fibers : ℕ) (times : ℕ → ℕ) (s : Program)
    → num_fibers < 2 ^ 32
    → Steps num_fibers (started num_fibers times) s
    → (waits s.totals ≡ ltb (count_done s.done num_fibers) num_fibers)
      × (s.totals.exec_millis ≡ tally s.added s.times num_fibers % 2 ^ 64)
      × (s.ended ≡ true → (i : ℕ) → i < num_fibers → s.done i ≡ true)
      × (s.ended ≡ true → s.totals.exec_millis ≡ tally (λ i. true) s.times num_fibers % 2 ^ 64)
unfolding waits
ends_with_all n times s lt steps =
    let c = Steps-IsCounted n (started n times) s lt steps (started-IsCounted n times) in
    (
      ground (arith, c.missing),
      c.summed,
      c.at_end,
      λ over.
          let all = tally-all s.added s.times n (λ i below. c.in_turn i (c.at_end over i below)) in
          omega (arith, c.summed, all),
    )

Steps-trans : (n : ℕ) (s t u : Program) → Steps n s t → Steps n t u → Steps n s u
Steps-trans n s t u before none_more = before
Steps-trans n s t u before (one_more {t = v} after last) =
    one_more (Steps-trans n s t v before after) last

upto :
    (t : Program) (k : ℕ)
    → ((i : ℕ) → i < k → t.done i ≡ true)
    → t.done k ≡ true
    → (i : ℕ) → i < suc k
    → t.done i ≡ true
upto t k before last i lt = elim (Bool-cases (i == k)) [
  | inl same ↦ subst (λ j. t.done j ≡ true) (sym ((==_iff i k).0 same)) last
  | inr other ↦ before i (ground arith)
]

-- The fiber at `k` can add its time.
times_of :
    (n : ℕ) (t : Program) (k : ℕ)
    → k < n
    → (u : Program) × Steps n t u × (u.done ≡ t.done) × (u.added k ≡ true)
unfolding timed
times_of n t k lt = elim (Bool-cases (t.added k)) [
  | inl already ↦ (t, none_more, refl, already)
  | inr new ↦ (timed k t, one_more none_more (adds_time k lt new), refl, ground arith)
]

-- The first `k` fibers can report.
reports_of :
    (n : ℕ) (s : Program) (k : ℕ)
    → k ≤ n
    → (t : Program) × Steps n s t × ((i : ℕ) → i < k → t.done i ≡ true)
unfolding reported
reports_of n s zero le = (s, none_more, λ i lt. absurd (omega arith))
reports_of n s (suc k) le =
    let (t, steps, before) = reports_of n s k (omega arith) in
    elim (Bool-cases (t.done k)) [
      | inl already ↦ (t, steps, λ i lt. upto t k before already i lt)
      | inr new ↦
          let (u, more, same, on) = times_of n t k (omega arith) in
          (
            reported k u,
            one_more (Steps-trans n s t u steps more)
                (reports_once k (omega arith) on (ap (λ d. d k) same ∙ new)),
            λ i lt. ground (arith, before i, ap (λ d. d i) same),
          )
    ]

all_counted : (done : ℕ → Bool) (n : ℕ) → ((i : ℕ) → i < n → done i ≡ true) → count_done done n ≡ n
unfolding tally
all_counted done zero h = refl
all_counted done (suc n) h =
    ground (arith, h n (omega arith), all_counted done n (λ i lt. h i (omega arith)))

-- Whatever the fibers have reported so far, in whatever order, the others can report, and then the
-- program can end: no order of the reports leaves the first fiber waiting for ever.
pub can_end :
    (num_fibers : ℕ) (times : ℕ → ℕ) (s : Program)
    → 0 < num_fibers
    → num_fibers < 2 ^ 32
    → Steps num_fibers (started num_fibers times) s
    → (t : Program) × Steps num_fibers s t × (t.ended ≡ true)
unfolding waits
can_end n times s some_fibers lt steps =
    let (t, more, all) = reports_of n s n (omega arith) in
    let c =
      Steps-IsCounted n (started n times) t lt (Steps-trans n (started n times) s t steps more)
        (started-IsCounted n times) in
    let over : waits t.totals ≡ false = ground (arith, c.missing, all_counted t.done n all) in
    (record t { ended = true }, one_more more (ends (all 0 some_fibers) over), refl)
