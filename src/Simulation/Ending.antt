-- ===== src/Simulation/Ending.antt =====
-- The end of the program of multi_thread/src/main.c: all fibers report, in any order, and the first one
-- waits for them.
use linux_fibers.Prelude.{
  ℕ, zero, suc, ◌+◌, ◌≤◌, ◌<◌, ◌≡◌, refl, sym, ap, subst, Bool, true, false, update, ◌==◌, ==_iff,
  if◌then◌else◌, Bool-cases, inl, inr, arith,
}
use linux_fibers.Simulation.Countdown.{Totals, add_millis, count_down, waits}

-- The shared totals, which fibers have added their time and which have reported, how long the work of each took, and whether the
-- program has ended. The fiber at 0 is the first one, with the id 1.
pub record Program : Type 0 where
  pub totals : Totals
  pub added : ℕ → Bool
  pub done : ℕ → Bool
  pub times : ℕ → ℕ
  pub ended : Bool

unfoldable pub started : ℕ → (ℕ → ℕ) → Program
started num_fibers times = record {
  totals = record { completed_fibers = num_fibers; exec_millis = 0 };
  added = λ i. false;
  done = λ i. false;
  times = times;
  ended = false;
}

-- The fiber at `i` has done its work and adds its time.
unfoldable pub timed : ℕ → Program → Program
unfolding add_millis
timed i s = record {
  totals = add_millis (s.times i) s.totals;
  added = update s.added i true;
  done = s.done;
  times = s.times;
  ended = s.ended;
}

-- Then it reports.
unfoldable pub reported : ℕ → Program → Program
unfolding count_down
reported i s = record {
  totals = count_down s.totals;
  added = s.added;
  done = update s.done i true;
  times = s.times;
  ended = s.ended;
}

-- A step of one fiber: it adds its time, and then it reports, each once; or the first one finds that it
-- need not wait any longer and ends the program. The others call `schedule` for ever.
pub data Step (num_fibers : ℕ) : Program → Program → Type 0 where
  adds_time :
      {s : Program} (i : ℕ) → i < num_fibers → s.added i ≡ false → Step num_fibers s (timed i s)
  reports_once :
      {s : Program} (i : ℕ)
      → i < num_fibers
      → s.added i ≡ true
      → s.done i ≡ false
      → Step num_fibers s (reported i s)
  ends :
      {s : Program}
      → s.done 0 ≡ true
      → waits s.totals ≡ false
      → Step num_fibers s (record s { ended = true })

-- What the fibers reach, in any order.
pub data Steps (num_fibers : ℕ) : Program → Program → Type 0 where
  none_more : {s : Program} → Steps num_fibers s s
  one_more : {s t u : Program} → Steps num_fibers s t → Step num_fibers t u → Steps num_fibers s u

-- What the amounts of those of the first `n` fibers that have reported add up to.
unfoldable pub tally : (ℕ → Bool) → (ℕ → ℕ) → ℕ → ℕ
tally done amount zero = 0
tally done amount (suc n) = tally done amount n + (if done n then amount n else 0)

-- How many of them there are, and what their times add up to.
abbrev pub count_done : (ℕ → Bool) → ℕ → ℕ
count_done done = tally done (λ i. 1)

tally-update_later :
    (done : ℕ → Bool) (amount : ℕ → ℕ) (n i : ℕ)
    → n ≤ i
    → tally (update done i true) amount n ≡ tally done amount n
unfolding tally
tally-update_later done amount zero i le = refl
tally-update_later done amount (suc n) i le =
    ground (arith, tally-update_later done amount n i (omega arith))

pub tally-update :
    (done : ℕ → Bool) (amount : ℕ → ℕ) (n i : ℕ)
    → i < n
    → done i ≡ false
    → tally (update done i true) amount n ≡ tally done amount n + amount i
unfolding tally
tally-update done amount zero i lt new = absurd (omega arith)
tally-update done amount (suc n) i lt new = elim (Bool-cases (i == n)) [
  | inl same ↦
      let here : done n ≡ false = subst (λ k. done k ≡ false) ((==_iff i n).0 same) new in
      let it : amount n ≡ amount i = ap amount (sym ((==_iff i n).0 same)) in
      ground (arith, tally-update_later done amount n i (ground arith), here, it)
  | inr other ↦ ground (arith, tally-update done amount n i (ground arith) new)
]

pub tally_nothing : (amount : ℕ → ℕ) (n : ℕ) → tally (λ i. false) amount n ≡ 0
unfolding tally
tally_nothing amount zero = refl
tally_nothing amount (suc n) = omega (arith, tally_nothing amount n)

pub count_done-le : (done : ℕ → Bool) (n : ℕ) → count_done done n ≤ n
unfolding tally
count_done-le done zero = omega arith
count_done-le done (suc n) = ground (arith, count_done-le done n)

-- Those of all the first `n`, when they have.
pub tally-all :
    (done : ℕ → Bool) (amount : ℕ → ℕ) (n : ℕ)
    → ((i : ℕ) → i < n → done i ≡ true)
    → tally done amount n ≡ tally (λ i. true) amount n
unfolding tally
tally-all done amount zero all = refl
tally-all done amount (suc n) all =
    ground (arith, all n (omega arith), tally-all done amount n (λ i lt. all i (omega arith)))

-- All have reported when as many have.
pub all_done : (done : ℕ → Bool) (n : ℕ) → count_done done n ≡ n → (i : ℕ) → i < n → done i ≡ true
unfolding tally
all_done done zero e i lt = absurd (omega arith)
all_done done (suc n) e i lt =
    let below : count_done done n ≤ n = count_done-le done n in
    let last : done n ≡ true = ground (arith, below) in
    elim (Bool-cases (i == n)) [
      | inl same ↦ subst (λ k. done k ≡ true) (sym ((==_iff i n).0 same)) last
      | inr other ↦ all_done done n (ground (arith, last)) i (ground arith)
    ]
