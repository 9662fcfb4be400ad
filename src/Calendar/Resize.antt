-- ===== src/Calendar/Resize.antt =====
-- `new_width`, `resize` and the operations of multi_thread/src/calqueue.c that end in it.
use linux_fibers.Prelude.{
  ℕ, zero, suc, ◌+◌, ◌-◌, ◌/◌, Bool, true, false, List, [], ◌∷◌, Option, none, some, ltb, leb, ◌==◌,
  if◌then◌else◌,
}
use linux_fibers.Prelude.Results.{Outcome, failed, ok, ◌>>=◌}
use linux_fibers.Reals.{Reals}
use linux_fibers.Calendar.State.{calqspace, Node, Queue, localinit}
use linux_fibers.Calendar.Insert.{Resizer, put_with}
use linux_fibers.Calendar.Dequeue.{deq_with}

module _ (F : Reals) (A : Type 0) where
  -- How many items `new_width` samples.
  unfoldable pub nsamples : ℕ → ℕ
  nsamples qsize =
      let n = if leb qsize 5 then qsize else 5 + qsize / 10 in if ltb 25 n then 25 else n

  -- The item that the pointer points to.
  abbrev pub present : Option (Node F A) → Outcome (Node F A)
  present none = failed
  present (some e) = ok e

  -- `n` items taken out, in order. `failed`: an item is missing.
  unfoldable pub sample : Resizer F A → ℕ → Queue F A → Outcome (List (Node F A) × Queue F A)
  sample r zero q = ok ([], q)
  sample r (suc n) q = do
    (e, q1) ← deq_with F A r q
    e ← present e
    (rest, q2) ← sample r n q1
    ok (e ∷ rest, q2)

  -- The distances between neighbours, added to `sum`.
  unfoldable pub gaps : F.R → Node F A → List (Node F A) → F.R
  gaps sum last [] = sum
  gaps sum last (e ∷ rest) = gaps (F.add sum (F.sub e.priority last.priority)) e rest

  -- The distances below `limit`, added to `sum`, and how many they are.
  unfoldable pub small_gaps : F.R → F.R × ℕ → Node F A → List (Node F A) → F.R × ℕ
  small_gaps limit sum last [] = sum
  small_gaps limit (sum, j) last (e ∷ rest) =
      let d = F.sub e.priority last.priority in
      small_gaps limit (if F.less d limit then (F.add sum d, j + 1) else (sum, j)) e rest

  -- The items of a list put into the queue, in order.
  unfoldable pub put_all : Resizer F A → List (Node F A) → Queue F A → Outcome (Queue F A)
  put_all r [] q = ok q
  put_all r (e ∷ rest) q = do q1 ← put_with F A r e q; put_all r rest q1

  -- The width from a sample.
  unfoldable pub width_of : List (Node F A) → F.R
  unfolding gaps small_gaps
  width_of [] = F.decimal 1 0
  width_of (e ∷ rest) =
      let n = count rest in
      let average = F.div (gaps (F.decimal 0 0) e rest) (F.decimal n 0) in
      let limit = F.mul average (F.decimal 2 0) in
      let (sum, j) = small_gaps limit (F.decimal 0 0, 0) e rest in
      F.mul (F.div sum (F.decimal j 0)) (F.decimal 3 0)
    where
      count : List (Node F A) → ℕ
      count [] = 0
      count (e ∷ rest) = suc (count rest)

  abbrev pub switched : Bool → Queue F A → Queue F A
  switched b q = record q { resize_enabled = b }

  unfoldable pub new_width : Resizer F A → Queue F A → Outcome (F.R × Queue F A)
  unfolding sample put_all width_of nsamples
  new_width r q = if ltb q.qsize 2 then ok (F.decimal 1 0, q) else (do
    (temp, q1) ← sample r (nsamples q.qsize) (switched false q)
    q2 ← put_all r temp q1
    ok (
      width_of temp,
      record q2 {
        lastbucket = q.lastbucket;
        lastprio = q.lastprio;
        buckettop = q.buckettop;
        resize_enabled = true;
      },
    ))

  -- The old buckets below `n`, from the last one on, put into the new calendar.
  unfoldable pub copy : Resizer F A → ℕ → ℕ → Queue F A → Outcome (Queue F A)
  unfolding put_all
  copy r base zero q = ok q
  copy r base (suc n) q = do q1 ← put_all r (q.calq (base + n)) q; copy r base n q1

  -- `resize` where it is enabled.
  unfoldable pub rebuild : Resizer F A → Queue F A → ℕ → Outcome (Queue F A)
  unfolding new_width localinit copy
  rebuild r q newsize = do
    (bwidth, q1) ← new_width r q
    q2 ←
        localinit F A (if q1.firstsub == 0 then calqspace - newsize else 0) newsize bwidth
          q1.lastprio q1
    copy r q1.firstsub q1.nbuckets q2

  -- `resize` calls `calqueue_put` and `calqueue_deq`, which call `resize`: at most `depth` such calls
  -- inside one another that do anything.
  unfoldable pub resize : ℕ → Resizer F A
  unfolding rebuild
  resize zero q newsize = if q.resize_enabled then failed else ok q
  resize (suc depth) q newsize =
      let rebuilt = rebuild (resize depth) q newsize in if q.resize_enabled then rebuilt else ok q
