-- ===== src/Calendar/Lowest.antt =====
-- The direct search of `calqueue_deq` in multi_thread/src/calqueue.c, through chains in order.
use mathlib.Core.List.{head-eq_of_cons-eq}
use linux_fibers.Prelude.{
  ℕ, zero, suc, ◌<◌, ◌≡◌, refl, sym, ap, ◌∙◌, subst, List, [], ◌∷◌, Option, none, some, inl, inr,
  Bool-cases, Option-cases, length, arith,
}
use linux_fibers.Prelude.Results.{gives, Gives}
use linux_fibers.Reals.{Reals}
use linux_fibers.Calendar.State.{Node, Queue, calendar, contents, gather}
use linux_fibers.Calendar.Dequeue.{lower, lowest, choose}
use linux_fibers.Calendar.Shape.{Shape}
use linux_fibers.Calendar.Order.{IsOrder, Each-append, From, From-trans, Sorted, in_order}

module _ (F : Reals) (A : Type 0) (L : IsOrder F) where
  From-head :
      (head : Node F A) (rest : List (Node F A))
      → Sorted F A (head ∷ rest)
      → From F A head.priority (head ∷ rest)
  From-head head rest s = (L.less_eq_refl head.priority, s.0)

  -- What the direct search through the first `n` buckets finds.
  abbrev Lowest : Queue F A → ℕ → Option (ℕ × F.R) → Type 0
  Lowest q n none = gather F A q.calq q.firstsub n ≡ []
  Lowest q n (some (i, p)) =
      ((e : Node F A) (rest : List (Node F A)) → calendar F A q i ≡ e ∷ rest → e.priority ≡ p)
      × From F A p (gather F A q.calq q.firstsub n)

  lower-Lowest :
      (q : Queue F A) (n : ℕ) (l : List (Node F A)) (best : Option (ℕ × F.R))
      → Sorted F A l
      → calendar F A q n ≡ l
      → Lowest q n best
      → Lowest q (suc n) (lower F A l n best)
  unfolding lower gather
  lower-Lowest q n [] none s e h = rw (h, e) refl
  lower-Lowest q n [] (some (i, p)) s e h =
      (h.0, Each-append F A _ (gather F A q.calq q.firstsub n) _ h.1 (rw e tt))
  lower-Lowest q n (head ∷ rest) none s e h = (
    λ e' rest' k. ap (λ x. x.priority) (head-eq_of_cons-eq (sym k ∙ e)),
    rw (h, e) (From-head head rest s),
  )
  lower-Lowest q n (head ∷ rest) (some (i, p)) s e h = elim (Bool-cases (F.less head.priority p)) [
    | inl b ↦ rw b (
      λ e' rest' k. ap (λ x. x.priority) (head-eq_of_cons-eq (sym k ∙ e)),
      Each-append F A _ (gather F A q.calq q.firstsub n) _
          (From-trans F A L head.priority p _ (L.less-less_eq head.priority p b) h.1)
          (rw e (From-head head rest s)),
    )
    | inr b ↦ rw b (
      h.0,
      Each-append F A _ (gather F A q.calq q.firstsub n) _ h.1 (
          rw e (
            From-trans F A L p head.priority (head ∷ rest) (L.not_less head.priority p b)
              (From-head head rest s))),
    )
  ]

  lowest-Lowest :
      (q : Queue F A) (n : ℕ)
      → ((i : ℕ) → i < n → Sorted F A (calendar F A q i))
      → Lowest q n (lowest F A q n)
  unfolding lowest gather
  lowest-Lowest q zero sorted = refl
  lowest-Lowest q (suc n) sorted =
      lower-Lowest q n (calendar F A q n) (lowest F A q n) (sorted n (omega arith)) refl
        (lowest-Lowest q n (λ i lt. sorted i (omega arith)))

  -- The first item of the bucket `i` is before no other item of the queue.
  abbrev pub FirstLowest : Queue F A → ℕ → Type 0
  FirstLowest q i =
      (e : Node F A) (rest : List (Node F A))
      → calendar F A q i ≡ e ∷ rest
      → From F A e.priority (contents F A q)

  pub choose-lowest :
      (q : Queue F A) (top : F.R)
      → Shape F A (in_order F A L) q
      → 0 < q.qsize
      → Gives (λ r. FirstLowest q r.0) (choose F A q (none, top))
  unfolding choose
  choose-lowest q top s pos =
      let low = lowest-Lowest q q.nbuckets (λ i lt. s.chains i lt) in
      elim (Option-cases (lowest F A q q.nbuckets)) [
        | inl h ↦
            let nothing : contents F A q ≡ [] = subst (Lowest q q.nbuckets) h low in
            absurd (omega (arith, s.counted, ap length nothing))
        | inr ((i, p), h) ↦
            let (first, from) = subst (Lowest q q.nbuckets) h low in
            rw (h, choose)
              (gives
                (λ e rest k. subst (λ x. From F A x (contents F A q)) (sym (first e rest k)) from))
      ]
