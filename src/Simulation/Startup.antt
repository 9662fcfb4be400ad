-- ===== src/Simulation/Startup.antt =====
-- The start of the program of multi_thread/src/main.c: `main` fills the array of fibers while its
-- threads wait, and a signal may reach any thread.
use linux_fibers.Prelude.{
  ℕ, ◌<◌, ◌≡◌, refl, Bool, true, false, List, [], ◌∷◌, ◌++◌, Option, some, length, update, ◌==◌,
  if_both, subst, arith,
}
use linux_fibers.Simulation.Launch.{get_random_fiber, fiber_at, schedule}
use linux_fibers.Simulation.Starting.{schedule_lem}

-- What a thread passes to its last `SwitchToFiber`, if there was one: what it read from `fibers`.
pub data Choice (A : Type 0) : Type 0 where
  no_switch : Choice A
  switched_to : Option A → Choice A

-- What `main` has stored in `fibers`, whether the first alarm is set, `init_complete`, and the threads:
-- whether they are fibers, and their last switch.
pub record Startup (A : Type 0) : Type 0 where
  pub fibers : List A
  pub armed : Bool
  pub init_complete : Bool
  pub converted : ℕ → Bool
  pub choices : ℕ → Choice A

module _ (A : Type 0) (num_fibers : ℕ) where
  unfoldable pub at_first : Startup A
  at_first = record {
    fibers = [];
    armed = false;
    init_complete = false;
    converted = λ i. false;
    choices = λ i. no_switch;
  }

  unfoldable pub switches : Startup A → ℕ → Option A → Startup A
  switches s i o = record s { choices = update s.choices i (switched_to o) }

  -- What `main` does: it stores a fiber, it sets the first alarm once all are stored, and it lets the
  -- threads go on.
  pub data SetsUp : Startup A → Startup A → Type 0 where
    fills :
        {s : Startup A} (a : A)
        → length s.fibers < num_fibers
        → SetsUp s (record s { fibers = s.fibers ++ a ∷ [] })
    arms : {s : Startup A} → length s.fibers ≡ num_fibers → SetsUp s (record s { armed = true })
    opens : {s : Startup A} → s.armed ≡ true → SetsUp s (record s { init_complete = true })

  -- What the thread `i` does in `thread_initialization`: it becomes a fiber, and once `init_complete` is
  -- set it switches to a fiber that it draws.
  pub data Runs (i : ℕ) : Startup A → Startup A → Type 0 where
    converts :
        {s : Startup A}
        → s.converted i ≡ false
        → Runs i s (record s { converted = update s.converted i true })
    picks :
        {s : Startup A} (draw : ℕ)
        → s.converted i ≡ true
        → s.init_complete ≡ true
        → Runs i s (switches s i (fiber_at s.fibers (get_random_fiber num_fibers draw)))

  -- The handler of the alarm, which may interrupt any thread anywhere.
  pub data Rings (i : ℕ) : Startup A → Startup A → Type 0 where
    rings :
        {s : Startup A} (draw : ℕ)
        → s.armed ≡ true
        → Rings i s (switches s i (schedule s.fibers num_fibers draw))

  -- What the program reaches, in any order of these steps.
  pub data Begun : Startup A → Type 0 where
    new : Begun at_first
    by_main : {s t : Startup A} → Begun s → SetsUp s t → Begun t
    by_thread : {s t : Startup A} (i : ℕ) → Begun s → Runs i s t → Begun t
    by_signal : {s t : Startup A} (i : ℕ) → Begun s → Rings i s t → Begun t

  -- What was read is an entry of the array.
  pub record IsEntry (fibers : List A) (o : Option A) : Type 0 where
    pub index : ℕ
    pub value : A
    pub there : fiber_at fibers index ≡ some value
    pub is : o ≡ some value

  abbrev Settled : List A → Bool → Choice A → Type 0
  Settled fibers armed no_switch = Unit
  Settled fibers armed (switched_to o) = (armed ≡ true) × IsEntry fibers o

  Settled-armed : (l : List A) (b : Bool) (c : Choice A) → Settled l b c → Settled l true c
  Settled-armed l b no_switch h = tt
  Settled-armed l b (switched_to o) h = (refl, h.1)

  Settled-before :
      (l l' : List A) (b : Bool) (c : Choice A) → ¬ (b ≡ true) → Settled l b c → Settled l' b c
  Settled-before l l' b no_switch off h = tt
  Settled-before l l' b (switched_to o) off h = absurd (off h.0)

  record IsOrderly (s : Startup A) : Type 0 where
    full : s.armed ≡ true → length s.fibers ≡ num_fibers
    opened : s.init_complete ≡ true → s.armed ≡ true
    settled : (i : ℕ) → Settled s.fibers s.armed (s.choices i)

  switches-IsOrderly :
      (s : Startup A) (i : ℕ) (o : Option A)
      → IsOrderly s
      → Settled s.fibers s.armed (switched_to o)
      → IsOrderly (switches s i o)
  unfolding switches
  switches-IsOrderly s i o orderly here = record {
    full = orderly.full;
    opened = orderly.opened;
    settled = λ j.
        if_both (Settled s.fibers s.armed) (i == j) (λ same. here) (λ other. orderly.settled j);
  }

  -- Any draw picks an entry of a full array.
  drawn :
      (some_fibers : 0 < num_fibers) (s : Startup A) (draw : ℕ)
      → IsOrderly s
      → s.armed ≡ true
      → Settled s.fibers s.armed (switched_to (schedule s.fibers num_fibers draw))
  unfolding schedule
  drawn some_fibers s draw o on =
      let full = o.full on in
      let found =
        subst (λ n. (a : A) × (schedule s.fibers n draw ≡ some a)) full
          (schedule_lem s.fibers draw (omega (arith, full))) in
      (
        on,
        record {
          index = get_random_fiber num_fibers draw;
          value = found.0;
          there = found.1;
          is = found.1;
        },
      )

  SetsUp-IsOrderly : {s t : Startup A} → IsOrderly s → SetsUp s t → IsOrderly t
  SetsUp-IsOrderly o (fills a lt) = record {
    full = λ on. absurd (omega (arith, o.full on));
    opened = o.opened;
    settled = λ i. Settled-before _ _ _ _ (λ on. omega (arith, o.full on)) (o.settled i);
  }
  SetsUp-IsOrderly o (arms full) = record {
    full = λ on. full;
    opened = λ on. refl;
    settled = λ i. Settled-armed _ _ _ (o.settled i);
  }
  SetsUp-IsOrderly o (opens on) = record {
    full = o.full;
    opened = λ opened. on;
    settled = o.settled;
  }

  module _ (some_fibers : 0 < num_fibers) where
    Runs-IsOrderly : (i : ℕ) {s t : Startup A} → IsOrderly s → Runs i s t → IsOrderly t
    unfolding schedule
    Runs-IsOrderly i o (converts thread) = record {
      full = o.full;
      opened = o.opened;
      settled = o.settled;
    }
    Runs-IsOrderly i o (picks draw fiber on) =
        switches-IsOrderly _ i _ o (drawn some_fibers _ draw o (o.opened on))

    Rings-IsOrderly : (i : ℕ) {s t : Startup A} → IsOrderly s → Rings i s t → IsOrderly t
    Rings-IsOrderly i o (rings draw on) = switches-IsOrderly _ i _ o (drawn some_fibers _ draw o on)

    Begun-IsOrderly : {s : Startup A} → Begun s → IsOrderly s
    unfolding at_first
    Begun-IsOrderly new = record {
      full = λ on. absurd (ground arith);
      opened = λ on. on;
      settled = λ i. tt;
    }
    Begun-IsOrderly (by_main before step) = SetsUp-IsOrderly (Begun-IsOrderly before) step
    Begun-IsOrderly (by_thread i before step) = Runs-IsOrderly i (Begun-IsOrderly before) step
    Begun-IsOrderly (by_signal i before step) = Rings-IsOrderly i (Begun-IsOrderly before) step

  -- With at least one fiber, in every order of the steps of `main`, of the threads and of the signals: a
  -- thread that switches has read an entry of `fibers` that `main` has stored, and all are stored.
  pub Begun-switches :
      0 < num_fibers
      → (s : Startup A) (i : ℕ) (o : Option A) → Begun s
      → s.choices i ≡ switched_to o
      → (length s.fibers ≡ num_fibers) × IsEntry s.fibers o
  Begun-switches some_fibers s i o reached at =
      let orderly = Begun-IsOrderly some_fibers reached in
      let settled = subst (Settled s.fibers s.armed) at (orderly.settled i) in
      (orderly.full settled.0, settled.1)
