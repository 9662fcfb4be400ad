-- ===== src/Calendar/Width.antt =====
-- The sample that `new_width` of multi_thread/src/calqueue.c takes, and puts back.
use mathlib.Core.List.{Perm}
use mathlib.Core.List.Perm
use linux_fibers.Prelude.{
  ℕ, zero, suc, ◌≤◌, ◌≡◌, refl, sym, ◌∙◌, true, false, List, ◌++◌, inl, ltb, arith,
}
use linux_fibers.Prelude.Results.{gives, GivesOrLeaves, Yields-bind, Yields-if, Yields-leaving}
use linux_fibers.Prelude.Bags.{length-perm}
use linux_fibers.Reals.{Reals}
use linux_fibers.Calendar.State.{Node, Queue, contents}
use linux_fibers.Calendar.Insert.{Resizer}
use linux_fibers.Calendar.Resize.{nsamples, sample, switched, new_width}
use linux_fibers.Calendar.Shape.{Chains, Shape, Becomes, Becomes-trans}
use linux_fibers.Calendar.Taking.{Quiet, put_all_adds}
use linux_fibers.Calendar.Searching.{deq-Takes}

module _ (F : Reals) (A : Type 0) (K : Chains F A) where
  -- The items `r.0` are taken out of `q`, which leaves `r.1`.
  abbrev Sampled : Queue F A → List (Node F A) × Queue F A → Type 0
  Sampled q r =
      Becomes F A K q (contents F A r.1) r.1 × Perm (r.0 ++ contents F A r.1) (contents F A q)

  sample_takes :
      (r : Resizer F A) (n : ℕ) (q : Queue F A)
      → Quiet F A K r
      → q.resize_enabled ≡ false
      → Shape F A K q
      → n ≤ q.qsize
      → GivesOrLeaves (Sampled q) (sample F A r n q)
  unfolding sample
  sample_takes r zero q quiet off s enough = gives (
    record {
      shape = s;
      firstsub = refl;
      nbuckets = refl;
      enabled = refl;
      outside = λ j out. refl;
      items = Perm.refl _;
    },
    Perm.refl _,
  )
  sample_takes r (suc n) q quiet off s enough =
      Yields-bind (Yields-leaving (deq-Takes F A K r q quiet off s (omega arith)) (λ l. tt)) (λ a h.
        let (e, is, (b, p)) = h in
        let fewer : n ≤ a.1.qsize = omega (arith, s.counted, b.shape.counted, length-perm p) in
        rw is (
          Yields-bind (sample_takes r n a.1 quiet (b.enabled ∙ off) b.shape fewer) (λ l k. gives (
            Becomes-trans F A K q a.1 l.1 _ _ _ b k.0 (Perm.refl _),
            Perm.trans (Perm.cons e k.1) p,
          ))))

  nsamples-le : (n : ℕ) → (ltb n 2) ≡ false → nsamples F A n ≤ n
  unfolding nsamples
  nsamples-le n h = ground arith

  Shape-switched : (q : Queue F A) → Shape F A K q → Shape F A K (switched F A false q)
  Shape-switched q s = record {
    size = s.size;
    place = s.place;
    last = s.last;
    top = s.top;
    bot = s.bot;
    chains = s.chains;
    counted = s.counted;
  }

  pub new_width_keeps :
      (r : Resizer F A) (q : Queue F A)
      → Quiet F A K r
      → q.resize_enabled ≡ true
      → Shape F A K q
      → GivesOrLeaves (λ w. Becomes F A K q (contents F A q) w.1) (new_width F A r q)
  unfolding new_width
  new_width_keeps r q quiet on s =
      let q0 = switched F A false q in
      Yields-if (ltb q.qsize 2)
        (λ few. gives (record {
          shape = s;
          firstsub = refl;
          nbuckets = refl;
          enabled = refl;
          outside = λ j out. refl;
          items = Perm.refl _;
        }))
        (λ many.
          Yields-bind
            (sample_takes r (nsamples F A q.qsize) q0 quiet refl (Shape-switched q s)
              (nsamples-le q.qsize many))
            (λ t h.
              Yields-bind (put_all_adds F A K r t.0 t.1 h.0.shape (inl (quiet, h.0.enabled)))
                (λ q2 k.
                  let b = Becomes-trans F A K q0 t.1 q2 _ _ _ h.0 k h.1 in
                  gives (record {
                    shape = record {
                      size = b.shape.size;
                      place = b.shape.place;
                      last = rw b.nbuckets s.last;
                      top = b.shape.top;
                      bot = b.shape.bot;
                      chains = b.shape.chains;
                      counted = b.shape.counted;
                    };
                    firstsub = b.firstsub;
                    nbuckets = b.nbuckets;
                    enabled = sym on;
                    outside = b.outside;
                    items = b.items;
                  }))))
