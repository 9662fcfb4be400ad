-- ===== src/Calendar/Searching.antt =====
-- The two searches of `calqueue_deq` in multi_thread/src/calqueue.c.
use linux_fibers.Prelude.{
  ℕ, zero, suc, ◌+◌, ◌-◌, ◌/◌, ◌≤◌, ◌<◌, ◌≡◌, refl, ap, subst, true, false, List, [], ◌∷◌, Option,
  none, some, inl, inr, Bool-cases, Option-cases, length, ltb, if◌then◌else◌, if_same, ◌==◌, arith,
}
use linux_fibers.Prelude.Results.{gives, Gives, Yields-bind, Yields-if}
use linux_fibers.Reals.{Reals}
use linux_fibers.Calendar.State.{Node, Queue, calendar, contents, gather}
use linux_fibers.Calendar.Insert.{Resizer}
use linux_fibers.Calendar.Dequeue.{
  due, next_bucket, scan, lower, lowest, choose, search, process, removed, deq_with,
}
use linux_fibers.Calendar.Shape.{Chains, Shape}
use linux_fibers.Calendar.Taking.{Quiet, Lacks, removed-Lacks}

module _ (F : Reals) (A : Type 0) (K : Chains F A) where
  -- The bucket `i` of the calendar has an item.
  abbrev pub HasItem : Queue F A → ℕ → Type 0
  HasItem q i =
      (i < q.nbuckets) × (e : Node F A) × (rest : List (Node F A)) × (calendar F A q i ≡ e ∷ rest)

  -- The bucket that a search names, if it names one, has an item.
  abbrev pub Named : Queue F A → Option ℕ × F.R → Type 0
  Named q (none, top) = Unit
  Named q (some i, top) = HasItem q i

  due_head :
      (l : List (Node F A)) (top : F.R)
      → due F A l top ≡ true
      → (e : Node F A) × (rest : List (Node F A)) × (l ≡ e ∷ rest)
  unfolding due
  due_head [] top h = ground arith
  due_head (e ∷ rest) top h = (e, rest, refl)

  -- How many buckets there are from `i` until the search is round.
  unfoldable ahead : Queue F A → ℕ → ℕ
  ahead q i = if ltb i q.lastbucket then q.lastbucket - i else q.nbuckets - i + q.lastbucket

  next_ahead :
      (q : Queue F A) (i : ℕ)
      → i < q.nbuckets
      → q.lastbucket < q.nbuckets
      → (next_bucket F A q i == q.lastbucket) ≡ false
      → suc (ahead q (next_bucket F A q i)) ≤ ahead q i
  unfolding ahead next_bucket
  next_ahead q i lt last ne = ground arith

  next_bucket-lt : (q : Queue F A) (i : ℕ) → i < q.nbuckets → next_bucket F A q i < q.nbuckets
  unfolding next_bucket
  next_bucket-lt q i lt = ground arith

  ahead_pos : (q : Queue F A) (i : ℕ) → i < q.nbuckets → 0 < ahead q i
  unfolding ahead
  ahead_pos q i lt = ground arith

  -- The search ends, and names a bucket with an item where it names one.
  scan_ends :
      (q : Queue F A) (fuel i : ℕ) (top : F.R)
      → i < q.nbuckets
      → q.lastbucket < q.nbuckets
      → ahead q i ≤ fuel
      → Gives (Named q) (scan F A q fuel i top)
  unfolding scan
  scan_ends q zero i top lt last enough = absurd (omega (arith, ahead_pos q i lt))
  scan_ends q (suc fuel) i top lt last enough =
      let j = next_bucket F A q i in
      Yields-if (due F A (calendar F A q i) top)
        (λ e. let (a, b, there) = due_head (calendar F A q i) top e in gives (lt, a, b, there))
        (λ e.
          Yields-if (j == q.lastbucket) (λ round. gives tt)
            (λ ne.
              scan_ends q fuel j (F.add top q.cwidth) (next_bucket-lt q i lt) last
                (omega (arith, next_ahead q i lt last ne))))

  -- What the direct search through the first `n` buckets comes to.
  abbrev Lowest : Queue F A → ℕ → Option (ℕ × F.R) → Type 0
  Lowest q n none = gather F A q.calq q.firstsub n ≡ []
  Lowest q n (some (i, p)) =
      (i < n) × (e : Node F A) × (rest : List (Node F A)) × (calendar F A q i ≡ e ∷ rest)

  lower_lem :
      (q : Queue F A) (n : ℕ) (l : List (Node F A)) (best : Option (ℕ × F.R))
      → calendar F A q n ≡ l
      → Lowest q n best
      → Lowest q (suc n) (lower F A l n best)
  unfolding lower gather
  lower_lem q n [] none e h = rw (h, e) refl
  lower_lem q n [] (some (i, p)) e (lt, a, b, there) = (omega arith, a, b, there)
  lower_lem q n (head ∷ rest) none e h = (omega arith, head, rest, e)
  lower_lem q n (head ∷ rest) (some (i, p)) e (lt, a, b, there) =
      elim (Bool-cases (F.less head.priority p)) [
        | inl h ↦ rw h (omega arith, head, rest, e)
        | inr h ↦ rw h (omega arith, a, b, there)
      ]

  lowest_lem : (q : Queue F A) (n : ℕ) → Lowest q n (lowest F A q n)
  unfolding lowest gather
  lowest_lem q zero = refl
  lowest_lem q (suc n) = lower_lem q n (calendar F A q n) (lowest F A q n) refl (lowest_lem q n)

  -- The direct search finds a bucket with an item.
  pub choose_finds :
      (q : Queue F A) (top : F.R)
      → Shape F A K q
      → 0 < q.qsize
      → Gives (λ r. HasItem q r.0) (choose F A q (none, top))
  unfolding choose
  choose_finds q top s pos =
      let low = lowest_lem q q.nbuckets in
      elim (Option-cases (lowest F A q q.nbuckets)) [
        | inl e ↦
            let nothing : contents F A q ≡ [] = subst (Lowest q q.nbuckets) e low in
            absurd (omega (arith, s.counted, ap length nothing))
        | inr ((i, p), e) ↦ rw (e, choose) (gives (subst (Lowest q q.nbuckets) e low))
      ]

  -- A queue with items has a bucket to take from.
  pub search_finds :
      (q : Queue F A) → Shape F A K q → 0 < q.qsize → Gives (λ r. HasItem q r.0) (search F A q)
  unfolding search ahead
  search_finds q s pos =
      Yields-bind
        (scan_ends q q.nbuckets q.lastbucket q.buckettop s.last s.last (ground (arith, s.last)))
        (λ found named. after found named)
    where
      after :
          (found : Option ℕ × F.R) → Named q found → Gives (λ r. HasItem q r.0) (choose F A q found)
      after (some i, top) named = gives named
      after (none, top) named = choose_finds q top s pos

  -- What a dequeue with `resize_enabled` off makes of a queue with items.
  abbrev pub Takes : Queue F A → Option (Node F A) × Queue F A → Type 0
  Takes q r = (e : Node F A) × (r.0 ≡ some e) × Lacks F A K q e r.1

  process-Takes :
      (r : Resizer F A) (q : Queue F A) (i : ℕ) (top : F.R) (l : List (Node F A))
      → Quiet F A K r
      → q.resize_enabled ≡ false
      → Shape F A K q
      → (i < q.nbuckets) × (e : Node F A) × (rest : List (Node F A)) × (l ≡ e ∷ rest)
      → calendar F A q i ≡ l
      → Gives (Takes q) (process F A r q i top l)
  unfolding process removed
  process-Takes r q i top [] quiet off s (lt, e, rest, there) same = absurd (ground arith)
  process-Takes r q i top (e ∷ rest) quiet off s there same =
      let q1 = removed F A q i top e rest in
      rw (quiet q1 (q.nbuckets / 2) off, if_same _)
        (gives (e, refl, removed-Lacks F A K q i top e rest s there.0 same))

  pub deq-Takes :
      (r : Resizer F A) (q : Queue F A)
      → Quiet F A K r
      → q.resize_enabled ≡ false
      → Shape F A K q
      → 0 < q.qsize
      → Gives (Takes q) (deq_with F A r q)
  unfolding deq_with
  deq-Takes r q quiet off s pos =
      let nonempty : (q.qsize == 0) ≡ false = ground arith in
      rw nonempty (
        Yields-bind (search_finds q s pos)
          (λ found there. process-Takes r q found.0 found.1 _ quiet off s there refl))
