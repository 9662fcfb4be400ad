-- ===== src/Calendar/Rebuilding.antt =====
-- `resize` of multi_thread/src/calqueue.c: the items of a calendar moved to one of another size.
use mathlib.Core.List.{Perm, append_assoc, append-nil}
use mathlib.Core.List.Perm
use linux_fibers.Prelude.{
  ℕ, zero, suc, ◌+◌, ◌-◌, ◌*◌, ◌≤◌, ◌<◌, ◌≡◌, refl, sym, ap, ◌∙◌, true, false, [], ◌++◌, ◌⊎◌, inl,
  inr, Option-cases, length, ltb, ◌==◌, if◌then◌else◌, arith,
}
use linux_fibers.Prelude.Results.{gives, leaves, GivesOrLeaves, Yields-bind, Yields-map}
use linux_fibers.Prelude.Bags.{length-perm, length-append}
use linux_fibers.Reals.{Reals}
use linux_fibers.Calendar.State.{
  calqspace, Queue, contents, gather, bucket_index, cleared, localinit,
}
use linux_fibers.Calendar.Insert.{Resizer}
use linux_fibers.Calendar.Resize.{copy, rebuild, resize}
use linux_fibers.Calendar.Gather.{gather-ext, gather-cleared, cleared-nil}
use linux_fibers.Calendar.Shape.{
  Chains, bucket_index-lt, IsSize, IsSize-pos, IsSize-le, Shape, Becomes, Becomes-trans,
}
use linux_fibers.Calendar.Taking.{Quiet, put_all_adds}
use linux_fibers.Calendar.Width.{new_width_keeps}

-- Where a new calendar of `n` buckets starts, beside one that starts at `f`.
abbrev new_base : ℕ → ℕ → ℕ
new_base f n = if f == 0 then calqspace - n else 0

new_base_place : (f n : ℕ) → IsSize n → (new_base f n ≡ 0) ⊎ (new_base f n + n ≡ calqspace)
new_base_place f n size = ground (arith, IsSize-le n size)

new_base_beside :
    (f m n j : ℕ)
    → (f ≡ 0) ⊎ (f + m ≡ calqspace)
    → m + n ≤ calqspace
    → j < m
    → (f + j < new_base f n) ⊎ (new_base f n + n ≤ f + j)
new_base_beside f m n j place beside lt = ground arith

module _ (F : Reals) (A : Type 0) (K : Chains F A) where
  -- The chains from `base` on, `n` of them, are not of the calendar of `q`.
  abbrev Apart : ℕ → ℕ → Queue F A → Type 0
  Apart base n q = (j : ℕ) → j < n → (base + j < q.firstsub) ⊎ (q.firstsub + q.nbuckets ≤ base + j)

  copy_adds :
      (r : Resizer F A) (base n : ℕ) (q : Queue F A)
      → Shape F A K q
      → Apart base n q
      → q.qsize + length (gather F A q.calq base n) ≤ q.top_threshold
      → GivesOrLeaves
          (Becomes F A K q (gather F A q.calq base n ++ contents F A q))
          (copy F A r base n q)
  unfolding copy gather
  copy_adds r base zero q s apart room = gives (record {
    shape = s;
    firstsub = refl;
    nbuckets = refl;
    enabled = refl;
    outside = λ j out. refl;
    items = Perm.refl _;
  })
  copy_adds r base (suc n) q s apart room =
      let l = q.calq (base + n) in
      let before = gather F A q.calq base n in
      let both : length (before ++ l) ≡ length before + length l = length-append before l in
      Yields-bind (put_all_adds F A K r l q s (inr (omega (arith, both)))) (λ q1 b.
        let same : gather F A q1.calq base n ≡ before =
          gather-ext F A q1.calq q.calq base n
            (λ j lt. b.outside (base + j) (apart j (omega arith))) in
        let size : length (gather F A q1.calq base n) ≡ length before = ap length same in
        let items : length (contents F A q1) ≡ length l + length (contents F A q) =
          length-perm b.items ∙ length-append l (contents F A q) in
        Yields-map
          (copy_adds r base n q1 b.shape
            (λ j lt. rw (b.firstsub, b.nbuckets) (apart j (omega arith)))
            (omega (
              arith, both, size, items, s.counted, b.shape.counted, s.top, b.shape.top, b.nbuckets,
            )))
          (λ q2 b2.
            Becomes-trans F A K q q1 q2 _ _ _ b b2 (
              rw (same, append_assoc before l (contents F A q)) (Perm.append_left before b.items))))

  -- A new calendar is well-formed and empty.
  pub record Fresh (base n : ℕ) (q q' : Queue F A) : Type 0 where
    pub shape : Shape F A K q'
    pub firstsub : q'.firstsub ≡ base
    pub nbuckets : q'.nbuckets ≡ n
    pub enabled : q'.resize_enabled ≡ q.resize_enabled
    pub outside : (j : ℕ) → (j < base) ⊎ (base + n ≤ j) → q'.calq j ≡ q.calq j
    pub nothing : contents F A q' ≡ []

  pub localinit-Fresh :
      (base n : ℕ) (w p : F.R) (q : Queue F A)
      → IsSize n
      → (base ≡ 0) ⊎ (base + n ≡ calqspace)
      → GivesOrLeaves (Fresh base n q) (localinit F A base n w p q)
  unfolding localinit cleared
  localinit-Fresh base n w p q size place =
      let inside : ltb calqspace (base + n) ≡ false = ground (arith, IsSize-le n size) in
      let year = F.truncate_long (F.div p w) in
      elim (Option-cases (bucket_index year n)) [
        | inl e ↦ rw (inside, e, localinit) (leaves tt)
        | inr (i, e) ↦
            rw (inside, e, localinit)
              (gives (record {
                shape = record {
                  size = size;
                  place = place;
                  last = bucket_index-lt year n i (IsSize-pos n size) e;
                  top = refl;
                  bot = refl;
                  chains = λ i lt. rw (cleared-nil F A q.calq base n i lt) (K.ok_nil w n i);
                  counted = sym (ap length (gather-cleared F A q.calq base n n (omega arith)));
                };
                firstsub = refl;
                nbuckets = refl;
                enabled = refl;
                outside = λ j out. ground arith;
                nothing = gather-cleared F A q.calq base n n (omega arith);
              }))
      ]

  -- What a resize to `n` buckets makes of the queue.
  pub record Rebuilt (q : Queue F A) (n : ℕ) (q' : Queue F A) : Type 0 where
    pub shape : Shape F A K q'
    pub nbuckets : q'.nbuckets ≡ n
    pub enabled : q'.resize_enabled ≡ true
    pub items : Perm (contents F A q') (contents F A q)

  pub rebuild_keeps :
      (r : Resizer F A) (q : Queue F A) (n : ℕ)
      → Quiet F A K r
      → q.resize_enabled ≡ true
      → Shape F A K q
      → IsSize n
      → q.nbuckets + n ≤ calqspace
      → q.qsize ≤ 2 * n
      → GivesOrLeaves (Rebuilt q n) (rebuild F A r q n)
  unfolding rebuild
  rebuild_keeps r q n quiet on s size beside fits =
      Yields-bind (new_width_keeps F A K r q quiet on s) (λ w b.
        let q1 = w.1 in
        let base = new_base q1.firstsub n in
        let side : (j : ℕ)
            → j < q1.nbuckets
            → (q1.firstsub + j < base) ⊎ (base + n ≤ q1.firstsub + j) =
          λ j lt.
            new_base_beside q1.firstsub q1.nbuckets n j b.shape.place (omega (arith, b.nbuckets))
              lt in
        Yields-bind
          (localinit-Fresh base n w.0 q1.lastprio q1 size (new_base_place q1.firstsub n size))
          (λ q2 c.
            let old : gather F A q2.calq q1.firstsub q1.nbuckets ≡ contents F A q1 =
              gather-ext F A q2.calq q1.calq q1.firstsub q1.nbuckets
                (λ j lt. c.outside (q1.firstsub + j) (side j lt)) in
            Yields-map
              (copy_adds r q1.firstsub q1.nbuckets q2 c.shape
                (λ j lt. rw (c.firstsub, c.nbuckets) (side j lt))
                (omega (
                  arith,
                  c.shape.counted,
                  ap length c.nothing,
                  ap length old,
                  c.shape.top,
                  c.nbuckets,
                  b.shape.counted,
                  length-perm b.items,
                  s.counted,
                )))
              (λ q3 d. record {
                shape = d.shape;
                nbuckets = d.nbuckets ∙ c.nbuckets;
                enabled = d.enabled ∙ c.enabled ∙ b.enabled ∙ on;
                items =
                    Perm.trans d.items (rw (old, c.nothing, append-nil (contents F A q1)) b.items);
              })))

  pub resize-Quiet : (d : ℕ) → Quiet F A K (resize F A d)
  unfolding resize
  resize-Quiet zero q n off = rw off refl
  resize-Quiet (suc d) q n off = rw off refl
