-- ===== src/Calendar/Insert.antt =====
-- `calqueue_put` of multi_thread/src/calqueue.c.
use linux_fibers.Prelude.{
  ℕ, ◌+◌, ◌*◌, Bool, List, [], ◌∷◌, Option, none, some, update, ltb, ◌&&◌, if◌then◌else◌,
}
use linux_fibers.Prelude.Results.{Outcome, outside, ok}
use linux_fibers.Reals.{Reals}
use linux_fibers.Calendar.State.{maxnbuckets, bucket_index, Node, Queue, calendar}

module _ (F : Reals) (A : Type 0) where
  -- The walk behind a node that stays in front: past the nodes that are not later.
  unfoldable pub walk : Node F A → List (Node F A) → List (Node F A)
  walk new [] = new ∷ []
  walk new (next ∷ rest) =
      if F.less_eq next.priority new.priority then next ∷ walk new rest else new ∷ next ∷ rest

  unfoldable pub place : Node F A → List (Node F A) → List (Node F A)
  unfolding walk
  place new [] = new ∷ []
  place new (head ∷ rest) =
      if F.less new.priority head.priority then new ∷ head ∷ rest else head ∷ walk new rest

  -- The bucket of a priority; `none`: its index is below 0.
  unfoldable pub bucket_of : Queue F A → F.R → Option ℕ
  unfolding bucket_index
  bucket_of q priority = bucket_index (F.truncate (F.div priority q.cwidth)) q.nbuckets

  -- The new entry in the bucket `i`, and the size updated.
  unfoldable pub insert : ℕ → Node F A → Queue F A → Queue F A
  unfolding place
  insert i new q = record {
    calq = update q.calq (q.firstsub + i) (place new (calendar F A q i));
    firstsub = q.firstsub;
    nbuckets = q.nbuckets;
    qsize = q.qsize + 1;
    lastbucket = q.lastbucket;
    resize_enabled = q.resize_enabled;
    top_threshold = q.top_threshold;
    bot_threshold = q.bot_threshold;
    lastprio = q.lastprio;
    buckettop = q.buckettop;
    cwidth = q.cwidth;
  }

  -- More items than the threshold, and more buckets are possible.
  abbrev pub must_grow : Queue F A → Bool
  must_grow q = ltb q.top_threshold q.qsize && ltb q.nbuckets maxnbuckets

  -- `resize` with the new number of buckets is a parameter: it calls `calqueue_put` in turn.
  abbrev pub Resizer : Type 0
  Resizer = Queue F A → ℕ → Outcome (Queue F A)

  unfoldable pub put_with : Resizer → Node F A → Queue F A → Outcome (Queue F A)
  unfolding bucket_of insert
  put_with resize new q = elim (bucket_of q new.priority) [
    | none ↦ outside
    | some i ↦
        let q1 = insert i new q in if must_grow q1 then resize q1 (2 * q1.nbuckets) else ok q1
  ]
