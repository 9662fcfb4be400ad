-- ===== src/Calendar/Tests.antt =====
-- Runs of the calendar queue of multi_thread/src/calqueue.c on priorities with one decimal.
use mathlib.Core.List.Perm
use linux_fibers.Prelude.{
  ℕ, ◌+◌, ◌≡◌, refl, true, List, [], ◌∷◌, ◌++◌, Option, none, some, pos, negsuc, zero, suc, ◌==◌,
  if◌then◌else◌, if_both, inl, arith,
}
use linux_fibers.Prelude.Results.{Outcome, outside, ok, Yields, ◌>>=◌}
use linux_fibers.Reals.Examples.{tenths, thousandths}
use linux_fibers.Calendar.State.{minus, below, localinit, Node, Queue, gather, contents}
use linux_fibers.Calendar.Insert.{place, put_with}
use linux_fibers.Calendar.Dequeue.{scan, deq_with}
use linux_fibers.Calendar.Resize.{width_of, resize}
use linux_fibers.Calendar.Operations.{calqueue_init, calqueue_put, calqueue_get}
use linux_fibers.Calendar.Bag.{Holds, MayLeave, MustShrink}
use linux_fibers.Calendar.Refinement.{calqueue_put-Holds, Gets, calqueue_get-Holds}
use linux_fibers.Calendar.Order.{IsOrder, Sorted, in_order}
use linux_fibers.Calendar.Stable.{early, late, place-split}
use linux_fibers.Calendar.Sequence.{GetsLowest, calqueue_get-lowest}

abbrev garbage : Queue tenths ℕ
garbage = record {
  calq = λ i. record { priority = 7; payload = 7 } ∷ [];
  firstsub = 3;
  nbuckets = 5;
  qsize = 8;
  lastbucket = 1;
  resize_enabled = true;
  top_threshold = 0;
  bot_threshold = negsuc 0;
  lastprio = 4;
  buckettop = 9;
  cwidth = 2;
}

-- Priorities put into a new queue, and as many items taken out.
abbrev put_all : List ℕ → Queue tenths ℕ → Outcome (Queue tenths ℕ)
put_all [] q = ok q
put_all (p ∷ rest) q = do q1 ← calqueue_put tenths ℕ p p q; put_all rest q1

abbrev get_all : ℕ → Queue tenths ℕ → Outcome (List (Option ℕ))
get_all zero q = ok []
get_all (suc n) q = do (p, q1) ← calqueue_get tenths ℕ q; rest ← get_all n q1; ok (p ∷ rest)

abbrev run : List ℕ → ℕ → Outcome (List (Option ℕ))
run ps n = do q ← calqueue_init tenths ℕ garbage; q1 ← put_all ps q; get_all n q1

run_small : run (25 ∷ 3 ∷ 14 ∷ []) 4 ≡ ok (some 3 ∷ some 14 ∷ some 25 ∷ none ∷ [])
unfolding calqueue_init calqueue_put calqueue_get localinit put_with deq_with below
run_small = refl

run_late : run (32 ∷ 37 ∷ 41 ∷ []) 4 ≡ ok (some 32 ∷ some 41 ∷ some 37 ∷ none ∷ [])
unfolding calqueue_init calqueue_put calqueue_get localinit put_with deq_with below
run_late = refl

-- Past both thresholds: four times the buckets, and back.
run_resizing :
    run (5 ∷ 15 ∷ 25 ∷ 35 ∷ 45 ∷ 55 ∷ 65 ∷ 75 ∷ 85 ∷ 95 ∷ []) 4
    ≡ ok (some 5 ∷ some 15 ∷ some 25 ∷ some 35 ∷ [])
unfolding calqueue_init calqueue_put calqueue_get localinit put_with resize deq_with below
run_resizing = refl

-- The numbers of a queue with a sign.
abbrev put_signed : List ℕ → Queue thousandths ℕ → Outcome (Queue thousandths ℕ)
put_signed [] q = ok q
put_signed (p ∷ rest) q = do q1 ← calqueue_put thousandths ℕ (pos p) p q; put_signed rest q1

abbrev signed_garbage : Queue thousandths ℕ
signed_garbage = record {
  calq = λ i. [];
  firstsub = 3;
  nbuckets = 5;
  qsize = 8;
  lastbucket = 1;
  resize_enabled = true;
  top_threshold = 0;
  bot_threshold = negsuc 0;
  lastprio = pos 4;
  buckettop = pos 9;
  cwidth = pos 2;
}

abbrev signed_item : ℕ → Node thousandths ℕ
signed_item p = record { priority = pos p; payload = p }

abbrev run_signed : List ℕ → Outcome (Queue thousandths ℕ)
run_signed ps = do q ← calqueue_init thousandths ℕ signed_garbage; put_signed ps q

-- The sample of the resize is 3.6, 4.4, 3.7, 3.8 and 3.9, and the width that comes of it is negative.
run_outside : run_signed (3600 ∷ 3700 ∷ 3800 ∷ 3900 ∷ 4400 ∷ []) ≡ outside
unfolding calqueue_init calqueue_put localinit put_with resize deq_with below
run_outside = refl

negative_width :
    width_of thousandths ℕ (
      signed_item 3600
      ∷ signed_item 4400
      ∷ signed_item 3700
      ∷ signed_item 3800
      ∷ signed_item 3900
      ∷ [])
    ≡ negsuc 497
unfolding width_of
negative_width = refl

abbrev item : ℕ → Node tenths ℕ
item p = record { priority = p; payload = p }

-- The first calendar with one item in the bucket `b`.
abbrev one_item : ℕ → ℕ → Queue tenths ℕ
one_item p b = record {
  calq = λ i. if i == b then item p ∷ [] else [];
  firstsub = 0;
  nbuckets = 2;
  qsize = 1;
  lastbucket = 0;
  resize_enabled = true;
  top_threshold = 4;
  bot_threshold = negsuc 0;
  lastprio = 0;
  buckettop = 15;
  cwidth = 10;
}

tenths-IsOrder : IsOrder tenths
tenths-IsOrder = record {
  less_irrefl = λ x. ground arith;
  less_eq_refl = λ x. ground arith;
  less_eq_trans = λ x y z h k. ground arith;
  less_eq_total = λ x y h. ground arith;
  less-less_eq = λ x y h. ground arith;
  not_less = λ x y h. ground arith;
  less_eq_less = λ x y z h k. ground arith;
}

abbrev HoldsOne : ℕ → ℕ → Type 0
HoldsOne p b =
    Holds tenths ℕ (in_order tenths ℕ tenths-IsOrder) (one_item p b)
      (contents tenths ℕ (one_item p b))

-- 0.5 is in the first bucket, 5.0 in the second.
early_holds : HoldsOne 5 0
unfolding gather minus
early_holds = record {
  shape = record {
    size = (0, omega arith, refl);
    place = inl refl;
    last = omega arith;
    top = refl;
    bot = refl;
    chains = λ i lt. if_both (Sorted tenths ℕ) (0 + i == 0) (λ e. (tt, tt)) (λ e. tt);
    counted = refl;
  };
  enabled = refl;
  fits = inl (omega arith);
  items = Perm.refl _;
}

late_holds : HoldsOne 50 1
unfolding gather minus
late_holds = record {
  shape = record {
    size = (0, omega arith, refl);
    place = inl refl;
    last = omega arith;
    top = refl;
    bot = refl;
    chains = λ i lt. if_both (Sorted tenths ℕ) (0 + i == 1) (λ e. (tt, tt)) (λ e. tt);
    counted = refl;
  };
  enabled = refl;
  fits = inl (omega arith);
  items = Perm.refl _;
}

calqueue_put-Holds_example :
    Yields
      (MayLeave tenths ℕ (in_order tenths ℕ tenths-IsOrder) (one_item 5 0) 7)
      (λ q. Holds tenths ℕ (in_order tenths ℕ tenths-IsOrder) q (item 7 ∷ item 5 ∷ []))
      (calqueue_put tenths ℕ 7 7 (one_item 5 0))
unfolding gather
calqueue_put-Holds_example =
    calqueue_put-Holds tenths ℕ (in_order tenths ℕ tenths-IsOrder) 7 7 (one_item 5 0) (item 5 ∷ [])
      early_holds

calqueue_get-Holds_example :
    Yields
      (MustShrink tenths ℕ (in_order tenths ℕ tenths-IsOrder) (one_item 5 0))
      (Gets tenths ℕ (in_order tenths ℕ tenths-IsOrder) (item 5 ∷ []))
      (calqueue_get tenths ℕ (one_item 5 0))
unfolding gather
calqueue_get-Holds_example =
    calqueue_get-Holds tenths ℕ (in_order tenths ℕ tenths-IsOrder) (one_item 5 0) (item 5 ∷ [])
      early_holds

place-split_example :
    place tenths ℕ (item 7) (item 5 ∷ item 7 ∷ item 9 ∷ [])
    ≡ early tenths ℕ 7 (item 5 ∷ item 7 ∷ item 9 ∷ [])
      ++ item 7 ∷ late tenths ℕ 7 (item 5 ∷ item 7 ∷ item 9 ∷ [])
place-split_example =
    place-split tenths ℕ tenths-IsOrder (item 7) (item 5 ∷ item 7 ∷ item 9 ∷ [])
      ((refl, (refl, tt)), ((refl, tt), (tt, tt)))

-- Neither 1.5 nor 2.5 is above 5.0.
calqueue_get-lowest_example :
    Yields
      (MustShrink tenths ℕ (in_order tenths ℕ tenths-IsOrder) (one_item 50 1))
      (GetsLowest tenths ℕ tenths-IsOrder (one_item 50 1))
      (calqueue_get tenths ℕ (one_item 50 1))
unfolding scan
calqueue_get-lowest_example =
    calqueue_get-lowest tenths ℕ tenths-IsOrder (one_item 50 1) 35 late_holds (omega arith) refl
