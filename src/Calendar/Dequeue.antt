-- ===== src/Calendar/Dequeue.antt =====
-- `calqueue_deq` of multi_thread/src/calqueue.c.
use linux_fibers.Prelude.{
  ℕ, zero, suc, ◌+◌, ◌-◌, ◌/◌, Bool, false, List, [], ◌∷◌, Option, none, some, update, ◌==◌,
  if◌then◌else◌,
}
use linux_fibers.Prelude.Results.{Outcome, failed, ok, ◌>>=◌}
use linux_fibers.Reals.{Reals}
use linux_fibers.Calendar.State.{below, Node, Queue, calendar}
use linux_fibers.Calendar.Insert.{Resizer}

module _ (F : Reals) (A : Type 0) where
  -- The bucket has an item below the top.
  unfoldable pub due : List (Node F A) → F.R → Bool
  due [] top = false
  due (head ∷ rest) top = F.less head.priority top

  unfoldable pub next_bucket : Queue F A → ℕ → ℕ
  next_bucket q i = if i + 1 == q.nbuckets then 0 else i + 1

  -- The search through the buckets from `i`, with the bucket's top: the bucket of the item found, or
  -- `none` where a direct search follows, and the top then. `failed`: out of fuel.
  unfoldable pub scan : Queue F A → ℕ → ℕ → F.R → Outcome (Option ℕ × F.R)
  unfolding due next_bucket
  scan q zero i top = failed
  scan q (suc fuel) i top =
      let j = next_bucket q i in
      let top' = F.add top q.cwidth in
      let rest = scan q fuel j top' in
      if due (calendar F A q i) top
      then ok (some i, top)
      else (if j == q.lastbucket then ok (none, top') else rest)

  -- One step of the direct search: the bucket and its priority when they are the lowest so far.
  unfoldable pub lower : List (Node F A) → ℕ → Option (ℕ × F.R) → Option (ℕ × F.R)
  lower [] i best = best
  lower (head ∷ rest) i none = some (i, head.priority)
  lower (head ∷ rest) i (some (j, lowest)) =
      if F.less head.priority lowest then some (i, head.priority) else some (j, lowest)

  -- The lowest of the first `n` buckets.
  unfoldable pub lowest : Queue F A → ℕ → Option (ℕ × F.R)
  unfolding lower
  lowest q zero = none
  lowest q (suc n) = lower (calendar F A q n) n (lowest q n)

  -- The queue after its item `e` is taken out of the bucket `i`, which leaves `rest` there.
  unfoldable pub removed : Queue F A → ℕ → F.R → Node F A → List (Node F A) → Queue F A
  removed q i top e rest = record {
    calq = update q.calq (q.firstsub + i) rest;
    firstsub = q.firstsub;
    nbuckets = q.nbuckets;
    qsize = q.qsize - 1;
    lastbucket = i;
    resize_enabled = q.resize_enabled;
    top_threshold = q.top_threshold;
    bot_threshold = q.bot_threshold;
    lastprio = e.priority;
    buckettop = top;
    cwidth = q.cwidth;
  }

  -- `calendar_process`, with the bucket `i`. `failed`: the bucket is empty, and its head is read all
  -- the same.
  unfoldable pub process :
      Resizer F A → Queue F A → ℕ → F.R → List (Node F A) → Outcome (Option (Node F A) × Queue F A)
  unfolding removed
  process resize q i top [] = failed
  process resize q i top (e ∷ rest) =
      let q1 = removed q i top e rest in
      if below q1.qsize q1.bot_threshold
      then (do q2 ← resize q1 (q1.nbuckets / 2); ok (some e, q2))
      else ok (some e, q1)

  -- The bucket to take from after the search through the buckets, and its top.
  unfoldable pub choose : Queue F A → Option ℕ × F.R → Outcome (ℕ × F.R)
  unfolding lowest
  choose q (some i, top) = ok (i, top)
  choose q (none, top) = elim (lowest q q.nbuckets) [ none ↦ failed | some (i, p) ↦ ok (i, top) ]

  unfoldable pub search : Queue F A → Outcome (ℕ × F.R)
  unfolding scan choose
  search q = scan q q.nbuckets q.lastbucket q.buckettop >>= choose q

  -- `none` is the null pointer of an empty queue.
  unfoldable pub deq_with : Resizer F A → Queue F A → Outcome (Option (Node F A) × Queue F A)
  unfolding search process
  deq_with resize q =
      if q.qsize == 0
      then ok (none, q)
      else (do (i, top) ← search q; process resize q i top (calendar F A q i))
