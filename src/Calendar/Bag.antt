-- ===== src/Calendar/Bag.antt =====
-- The items in a queue of multi_thread/src/calqueue.c, in no order, before and after an insertion or
-- a removal with the resize that it may end in.
use mathlib.Core.List.{Perm}
use mathlib.Core.List.Perm
use linux_fibers.Prelude.{
  ℕ, suc, ◌+◌, ◌*◌, ◌/◌, ◌≤◌, ◌<◌, ◌≡◌, refl, ◌∙◌, subst, true, false, List, [], ◌∷◌, Option, some,
  none, ◌-◌, ◌⊎◌, inl, inr, Option-cases, length, ◌==◌, arith,
}
use linux_fibers.Prelude.Results.{
  gives, leaves, Yields, Gives, GivesOrLeaves, Yields-bind, Yields-if, Yields-map, Yields-leaving,
}
use linux_fibers.Prelude.Bags.{length-perm}
use linux_fibers.Reals.{Reals}
use linux_fibers.Calendar.State.{
  calqspace, maxnbuckets, below, minus, Node, Queue, calendar, contents,
}
use linux_fibers.Calendar.Insert.{bucket_of, must_grow, insert, put_with}
use linux_fibers.Calendar.Dequeue.{removed, search, process, deq_with}
use linux_fibers.Calendar.Resize.{resize}
use linux_fibers.Calendar.Shape.{
  Chains, IsSize, IsSize-le, IsSize-double, IsSize-half, Shape, insert_adds,
}
use linux_fibers.Calendar.Taking.{put_outside, put_in_bucket, removed-Lacks}
use linux_fibers.Calendar.Searching.{HasItem}
use linux_fibers.Calendar.Rebuilding.{rebuild_keeps, resize-Quiet}

module _ (F : Reals) (A : Type 0) (K : Chains F A) where
  -- The queue is well-formed, is of a size that fits, and holds the items of `bag`.
  pub record Holds (q : Queue F A) (bag : List (Node F A)) : Type 0 where
    pub shape : Shape F A K q
    pub enabled : q.resize_enabled ≡ true
    pub fits : (q.qsize ≤ 2 * q.nbuckets) ⊎ (q.nbuckets ≡ maxnbuckets)
    pub items : Perm (contents F A q) bag

  resized :
      (d n : ℕ) (q : Queue F A) (bag : List (Node F A))
      → Shape F A K q
      → q.resize_enabled ≡ true
      → IsSize n
      → q.nbuckets + n ≤ calqspace
      → q.qsize ≤ 2 * n
      → Perm (contents F A q) bag
      → GivesOrLeaves (λ q'. Holds q' bag) (resize F A (suc d) q n)
  unfolding resize
  resized d n q bag s on size beside fits p =
      Yields-if q.resize_enabled
        (λ e.
          Yields-map
            (rebuild_keeps F A K (resize F A d) q n (resize-Quiet F A K d) on s size beside fits)
            (λ q' b. record {
              shape = b.shape;
              enabled = b.enabled;
              fits =
                  inl (omega (arith, b.nbuckets, b.shape.counted, length-perm b.items, s.counted));
              items = Perm.trans b.items p;
            }))
        (λ off. absurd (ground (arith, on)))

  -- When an insertion may leave the calendar: the index of the item's bucket is below 0, or a resize
  -- is due, in which this may happen to any item.
  abbrev pub MayLeave : Queue F A → F.R → Type 0
  MayLeave q p =
      (bucket_of F A q p ≡ none) ⊎ ((q.top_threshold ≤ q.qsize) × (q.nbuckets < maxnbuckets))

  pub put-Holds :
      (d : ℕ) (new : Node F A) (q : Queue F A) (bag : List (Node F A))
      → Holds q bag
      → Yields
          (MayLeave q new.priority)
          (λ q'. Holds q' (new ∷ bag))
          (put_with F A (resize F A (suc d)) new q)
  unfolding insert
  put-Holds d new q bag h = elim (Option-cases (bucket_of F A q new.priority)) [
    | inl e ↦ rw (put_outside F A K (resize F A (suc d)) new q e) (leaves (inl e))
    | inr (i, e) ↦
        let q1 = insert F A i new q in
        let b = insert_adds F A K i new q h.shape e in
        let p = Perm.trans b.items (Perm.cons new h.items) in
        let max = IsSize-le q.nbuckets h.shape.size in
        rw (put_in_bucket F A K (resize F A (suc d)) i new q e) (
          Yields-if (must_grow F A q1)
            (λ over.
              let less : q.nbuckets < maxnbuckets = ground arith in
              let size = IsSize-double q.nbuckets h.shape.size less in
              Yields-leaving
                (resized d (2 * q.nbuckets) q1 (new ∷ bag) b.shape (b.enabled ∙ h.enabled) size
                  (ground (arith, IsSize-le (2 * q.nbuckets) size)) (ground (arith, h.fits)) p)
                (λ l. inr (ground arith, less)))
            (λ under. gives (record {
              shape = b.shape;
              enabled = b.enabled ∙ h.enabled;
              fits = ground (arith, h.shape.top, max);
              items = p;
            })))
  ]

  -- The item taken out, of which `P` holds, and the queue without it.
  abbrev pub Leaves : (Node F A → Type 0) → List (Node F A) → Option (Node F A) × Queue F A → Type 0
  Leaves P bag r =
      (e : Node F A) × (rest : List (Node F A)) × (r.0 ≡ some e)
      × P e
      × Perm bag (e ∷ rest)
      × Holds r.1 rest

  -- `P` holds of the first item of the bucket `i`, which has one.
  abbrev pub First : (Node F A → Type 0) → Queue F A → ℕ → Type 0
  First P q i =
      HasItem F A K q i
      × ((e : Node F A) (rest : List (Node F A)) → calendar F A q i ≡ e ∷ rest → P e)

  -- A resize is due once an item is taken out.
  abbrev pub MustShrink : Queue F A → Type 0
  MustShrink q = below (q.qsize - 1) q.bot_threshold ≡ true

  few_left :
      (q : Queue F A) (n : ℕ)
      → Shape F A K q
      → below n q.bot_threshold ≡ true
      → (2 < q.nbuckets) × (n + 2 < q.nbuckets / 2)
  unfolding below minus
  few_left q n s under =
      let under' : below n (minus (q.nbuckets / 2) 2) ≡ true =
        subst (λ b. below n b ≡ true) s.bot under in
      ground arith

  process-Leaves :
      (P : Node F A → Type 0) (d : ℕ) (q : Queue F A) (i : ℕ) (top : F.R) (l bag : List (Node F A))
      → Holds q bag
      → First P q i
      → calendar F A q i ≡ l
      → Yields (MustShrink q) (Leaves P bag) (process F A (resize F A (suc d)) q i top l)
  unfolding process
  process-Leaves P d q i top [] bag h ((lt, e, rest, there), first) same = absurd (ground arith)
  process-Leaves P d q i top (e ∷ rest) bag h (there, first) same =
      let q1 = removed F A q i top e rest in
      let (b, p) = removed-Lacks F A K q i top e rest h.shape there.0 same in
      let kept = Perm.trans (Perm.symm h.items) (Perm.symm p) in
      let one_less : q.qsize ≡ suc (length (contents F A q1)) =
        omega (arith, h.shape.counted, length-perm p) in
      Yields-if (below q1.qsize q1.bot_threshold)
        (λ under.
          let few = few_left q q1.qsize h.shape under in
          let (size, half) = IsSize-half q.nbuckets h.shape.size few.0 in
          Yields-bind
            (Yields-leaving
              (resized d (q.nbuckets / 2) q1 (contents F A q1) b.shape (b.enabled ∙ h.enabled) size
                (omega (arith, IsSize-le q.nbuckets h.shape.size)) (omega arith) (Perm.refl _))
              (λ l. under))
            (λ q2 k. gives (e, contents F A q1, refl, first e rest same, kept, k)))
        (λ enough. gives (
          e,
          contents F A q1,
          refl,
          first e rest same,
          kept,
          record {
            shape = b.shape;
            enabled = b.enabled ∙ h.enabled;
            fits = ground (arith, h.fits);
            items = Perm.refl _;
          },
        ))

  pub get-Leaves :
      (P : Node F A → Type 0) (d : ℕ) (q : Queue F A) (bag : List (Node F A))
      → Holds q bag
      → 0 < length bag
      → Gives (λ r. First P q r.0) (search F A q)
      → Yields (MustShrink q) (Leaves P bag) (deq_with F A (resize F A (suc d)) q)
  unfolding deq_with
  get-Leaves P d q bag h pos found =
      let some_items : 0 < q.qsize = omega (arith, h.shape.counted, length-perm h.items) in
      let nonempty : (q.qsize == 0) ≡ false = ground arith in
      rw nonempty (
        Yields-bind (Yields-leaving found (λ l. absurd l))
          (λ r there. process-Leaves P d q r.0 r.1 _ bag h there refl))
