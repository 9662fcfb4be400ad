-- ===== src/Calendar/Taking.antt =====
-- What single steps of multi_thread/src/calqueue.c do to the items of a queue: one item taken out of
-- a bucket, and items put in while the number of buckets stays.
use mathlib.Core.List.{Perm}
use mathlib.Core.List.Perm
use linux_fibers.Prelude.{
  ℕ, suc, ◌+◌, ◌*◌, ◌≤◌, ◌<◌, ◌≡◌, refl, ◌∙◌, subst, false, List, [], ◌∷◌, ◌++◌, none, some,
  if◌then◌else◌, ◌⊎◌, inl, inr, update, length, Option-cases, if_same, arith,
}
use linux_fibers.Prelude.Bags.{length-perm, perm_front}
use linux_fibers.Prelude.Results.{outside, ok, gives, leaves, GivesOrLeaves, Yields-map}
use linux_fibers.Reals.{Reals}
use linux_fibers.Calendar.State.{Node, Queue, calendar, contents, gather}
use linux_fibers.Calendar.Insert.{Resizer, bucket_of, insert, must_grow, put_with}
use linux_fibers.Calendar.Dequeue.{removed}
use linux_fibers.Calendar.Resize.{put_all}
use linux_fibers.Calendar.Gather.{gather-ext, gather-update, update-each}
use linux_fibers.Calendar.Shape.{Chains, Shape, Becomes, Becomes-trans, insert_adds}

module _ (F : Reals) (A : Type 0) (K : Chains F A) where
  -- It does nothing while `resize_enabled` is off.
  abbrev pub Quiet : Resizer F A → Type 0
  Quiet r = (q : Queue F A) (n : ℕ) → q.resize_enabled ≡ false → r q n ≡ ok q

  -- `q'` is `q` without the item `e`.
  abbrev pub Lacks : Queue F A → Node F A → Queue F A → Type 0
  Lacks q e q' = Becomes F A K q (contents F A q') q' × Perm (e ∷ contents F A q') (contents F A q)

  pub removed-Lacks :
      (q : Queue F A) (i : ℕ) (top : F.R) (e : Node F A) (rest : List (Node F A))
      → Shape F A K q
      → i < q.nbuckets
      → calendar F A q i ≡ e ∷ rest
      → Lacks q e (removed F A q i top e rest)
  unfolding removed
  removed-Lacks q i top e rest s lt there =
      let f = update q.calq (q.firstsub + i) rest in
      let now : f (q.firstsub + i) ≡ rest = ground arith in
      let same : gather F A (update f (q.firstsub + i) (e ∷ rest)) q.firstsub q.nbuckets
          ≡ contents F A q =
        gather-ext F A (update f (q.firstsub + i) (e ∷ rest)) q.calq q.firstsub q.nbuckets
          (λ j below. ground (arith, there)) in
      let p : Perm (contents F A q) (e ∷ gather F A f q.firstsub q.nbuckets) =
        subst (λ l. Perm l (e ∷ gather F A f q.firstsub q.nbuckets)) same
          (gather-update F A f q.firstsub q.nbuckets i e (e ∷ rest) lt
            (rw now (Perm.refl (e ∷ rest)))) in
      (
        record {
          shape = record {
            size = s.size;
            place = s.place;
            last = lt;
            top = s.top;
            bot = s.bot;
            chains =
                update-each F A (K.Ok q.cwidth q.nbuckets) q.calq q.firstsub q.nbuckets i rest
                  (K.ok_tail q.cwidth q.nbuckets i e rest
                    (subst (K.Ok q.cwidth q.nbuckets i) there (s.chains i lt)))
                  s.chains;
            counted = omega (arith, s.counted, length-perm p);
          };
          firstsub = refl;
          nbuckets = refl;
          enabled = refl;
          outside = λ j out. ground arith;
          items = Perm.refl _;
        },
        Perm.symm p,
      )

  -- No resize happens while `m` items are put into `q`.
  abbrev pub Roomy : Resizer F A → Queue F A → ℕ → Type 0
  Roomy r q m = (Quiet r × (q.resize_enabled ≡ false)) ⊎ (q.qsize + m ≤ q.top_threshold)

  -- An item whose index is below 0.
  pub put_outside :
      (r : Resizer F A) (new : Node F A) (q : Queue F A)
      → bucket_of F A q new.priority ≡ none
      → put_with F A r new q ≡ outside
  unfolding put_with
  put_outside r new q e = rw (e, put_with) refl

  -- An item with a bucket.
  pub put_in_bucket :
      (r : Resizer F A) (i : ℕ) (new : Node F A) (q : Queue F A)
      → bucket_of F A q new.priority ≡ some i
      → put_with F A r new q ≡ (
          if must_grow F A (insert F A i new q)
          then r (insert F A i new q) (2 * (insert F A i new q).nbuckets)
          else ok (insert F A i new q))
  unfolding put_with
  put_in_bucket r i new q e = rw (e, put_with) refl

  pub put_adds :
      (r : Resizer F A) (i : ℕ) (new : Node F A) (q : Queue F A)
      → bucket_of F A q new.priority ≡ some i
      → Roomy r q 1
      → put_with F A r new q ≡ ok (insert F A i new q)
  unfolding insert
  put_adds r i new q e (inl (quiet, off)) =
      put_in_bucket r i new q e ∙ rw (quiet (insert F A i new q) (2 * q.nbuckets) off) (if_same _)
  put_adds r i new q e (inr fits) = put_in_bucket r i new q e ∙ ground arith

  Roomy-one : (r : Resizer F A) (q : Queue F A) (m : ℕ) → Roomy r q (suc m) → Roomy r q 1
  Roomy-one r q m (inl quiet) = inl quiet
  Roomy-one r q m (inr fits) = inr (omega arith)

  Roomy-insert :
      (r : Resizer F A) (i : ℕ) (new : Node F A) (q : Queue F A) (m : ℕ)
      → Roomy r q (suc m)
      → Roomy r (insert F A i new q) m
  unfolding insert
  Roomy-insert r i new q m (inl (quiet, off)) = inl (quiet, off)
  Roomy-insert r i new q m (inr fits) = inr (omega arith)

  pub put_all_adds :
      (r : Resizer F A) (l : List (Node F A)) (q : Queue F A)
      → Shape F A K q
      → Roomy r q (length l)
      → GivesOrLeaves (Becomes F A K q (l ++ contents F A q)) (put_all F A r l q)
  unfolding put_all
  put_all_adds r [] q s room = gives (record {
    shape = s;
    firstsub = refl;
    nbuckets = refl;
    enabled = refl;
    outside = λ j out. refl;
    items = Perm.refl _;
  })
  put_all_adds r (new ∷ rest) q s room = elim (Option-cases (bucket_of F A q new.priority)) [
    | inl e ↦ rw (put_outside r new q e, put_all) (leaves tt)
    | inr (i, e) ↦
        let q1 = insert F A i new q in
        let b = insert_adds F A K i new q s e in
        rw (put_adds r i new q e (Roomy-one r q (length rest) room), put_all)
          (Yields-map (put_all_adds r rest q1 b.shape (Roomy-insert r i new q (length rest) room))
            λ q2 b2. Becomes-trans F A K q q1 q2 _ _ _ b b2 (perm_front new rest _ _ b.items))
  ]
