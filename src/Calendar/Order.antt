-- ===== src/Calendar/Order.antt =====
-- The order of the items in the chains of multi_thread/src/calqueue.c.
use linux_fibers.Prelude.{
  ℕ, zero, suc, ◌+◌, ◌<◌, ◌≡◌, refl, true, false, List, [], ◌∷◌, ◌++◌, inl, inr, Bool-cases, arith,
}
use mathlib.Core.List.{Perm}
use linux_fibers.Prelude.{not, sym, ◌∙◌, subst, ◌==◌, ==_iff}
use linux_fibers.Prelude.Bags.{count, weight-perm}
use linux_fibers.Reals.{Reals}
use linux_fibers.Calendar.State.{Node, gather}
use linux_fibers.Calendar.Insert.{walk, place}
use linux_fibers.Calendar.Shape.{Chains}

-- The comparisons of numbers, none of them a NaN.
pub record IsOrder (F : Reals) : Type 0 where
  pub less_irrefl : (x : F.R) → F.less x x ≡ false
  pub less_eq_refl : (x : F.R) → F.less_eq x x ≡ true
  pub less_eq_trans :
      (x y z : F.R) → F.less_eq x y ≡ true → F.less_eq y z ≡ true → F.less_eq x z ≡ true
  pub less_eq_total : (x y : F.R) → F.less_eq x y ≡ false → F.less_eq y x ≡ true
  pub less-less_eq : (x y : F.R) → F.less x y ≡ true → F.less_eq x y ≡ true
  pub not_less : (x y : F.R) → F.less x y ≡ false → F.less_eq y x ≡ true
  pub less_eq_less : (x y z : F.R) → F.less_eq x y ≡ true → F.less y z ≡ true → F.less x z ≡ true

module _ (F : Reals) (A : Type 0) where
  abbrev pub Each : (Node F A → Type 0) → List (Node F A) → Type 0
  Each P [] = Unit
  Each P (e ∷ rest) = P e × Each P rest

  pub Each-map :
      (P Q : Node F A → Type 0) (l : List (Node F A))
      → ((e : Node F A) → P e → Q e)
      → Each P l
      → Each Q l
  Each-map P Q [] f h = tt
  Each-map P Q (e ∷ rest) f h = (f e h.0, Each-map P Q rest f h.1)

  pub Each-zip :
      (P Q R : Node F A → Type 0) (l : List (Node F A))
      → ((e : Node F A) → P e → Q e → R e)
      → Each P l
      → Each Q l
      → Each R l
  Each-zip P Q R [] f hp hq = tt
  Each-zip P Q R (e ∷ rest) f hp hq = (f e hp.0 hq.0, Each-zip P Q R rest f hp.1 hq.1)

  pub Each-append :
      (P : Node F A → Type 0) (a b : List (Node F A)) → Each P a → Each P b → Each P (a ++ b)
  Each-append P [] b ha hb = hb
  Each-append P (e ∷ a) b ha hb = (ha.0, Each-append P a b ha.1 hb)

  Each-parts :
      (P : Node F A → Type 0) (a b : List (Node F A)) → Each P (a ++ b) → Each P a × Each P b
  Each-parts P [] b h = (tt, h)
  Each-parts P (e ∷ a) b h = let (ha, hb) = Each-parts P a b h.1 in ((h.0, ha), hb)

  pub Each-gather :
      (P : Node F A → Type 0) (f : ℕ → List (Node F A)) (base n : ℕ)
      → ((i : ℕ) → i < n → Each P (f (base + i)))
      → Each P (gather F A f base n)
  unfolding gather
  Each-gather P f base zero h = tt
  Each-gather P f base (suc n) h =
      Each-append P (gather F A f base n) (f (base + n))
        (Each-gather P f base n (λ i lt. h i (omega arith))) (h n (omega arith))

  pub Each-chain :
      (P : Node F A → Type 0) (f : ℕ → List (Node F A)) (base n i : ℕ)
      → i < n
      → Each P (gather F A f base n)
      → Each P (f (base + i))
  unfolding gather
  Each-chain P f base zero i lt h = absurd (omega arith)
  Each-chain P f base (suc n) i lt h =
      let (before, last) = Each-parts P (gather F A f base n) (f (base + n)) h in
      elim (Bool-cases (i == n)) [
        | inl same ↦ subst (λ k. Each P (f (base + k))) (sym ((==_iff i n).0 same)) last
        | inr other ↦ Each-chain P f base n i (ground arith) before
      ]

  -- No item is before `p`.
  abbrev pub From : F.R → List (Node F A) → Type 0
  From p = Each (λ e. F.less_eq p e.priority ≡ true)

  -- How many items are before `p`.
  abbrev count_before : F.R → List (Node F A) → ℕ
  count_before p = count (λ e. not (F.less_eq p e.priority))

  none_before : (p : F.R) (l : List (Node F A)) → From p l → count_before p l ≡ 0
  none_before p [] h = refl
  none_before p (e ∷ rest) h = rw h.0 (omega (arith, none_before p rest h.1))

  all-From : (p : F.R) (l : List (Node F A)) → count_before p l ≡ 0 → From p l
  all-From p [] h = tt
  all-From p (e ∷ rest) h = (ground arith, all-From p rest (ground arith))

  pub From-perm : (p : F.R) (a b : List (Node F A)) → Perm a b → From p a → From p b
  From-perm p a b m h = all-From p b (sym (weight-perm _ m) ∙ none_before p a h)

  abbrev pub Sorted : List (Node F A) → Type 0
  Sorted [] = Unit
  Sorted (e ∷ rest) = From e.priority rest × Sorted rest

  module _ (L : IsOrder F) where
    pub From-trans : (p r : F.R) (l : List (Node F A)) → F.less_eq p r ≡ true → From r l → From p l
    From-trans p r l le = Each-map _ _ l (λ e h. L.less_eq_trans p r e.priority le h)

    walk-Each :
        (P : Node F A → Type 0) (new : Node F A) (l : List (Node F A))
        → P new
        → Each P l
        → Each P (walk F A new l)
    unfolding walk
    walk-Each P new [] hn h = (hn, tt)
    walk-Each P new (next ∷ rest) hn h = elim (Bool-cases (F.less_eq next.priority new.priority)) [
      | inl e ↦ rw e (h.0, walk-Each P new rest hn h.1)
      | inr e ↦ rw e (hn, h)
    ]

    walk-Sorted : (new : Node F A) (l : List (Node F A)) → Sorted l → Sorted (walk F A new l)
    unfolding walk
    walk-Sorted new [] s = (tt, tt)
    walk-Sorted new (next ∷ rest) s = elim (Bool-cases (F.less_eq next.priority new.priority)) [
      | inl e ↦ rw e (walk-Each _ new rest e s.0, walk-Sorted new rest s.1)
      | inr e ↦
          let before = L.less_eq_total next.priority new.priority e in
          rw e ((before, From-trans new.priority next.priority rest before s.0), s)
    ]

    pub place-Sorted : (new : Node F A) (l : List (Node F A)) → Sorted l → Sorted (place F A new l)
    unfolding place
    place-Sorted new [] s = (tt, tt)
    place-Sorted new (head ∷ rest) s = elim (Bool-cases (F.less new.priority head.priority)) [
      | inl e ↦
          let before = L.less-less_eq new.priority head.priority e in
          rw e ((before, From-trans new.priority head.priority rest before s.0), s)
      | inr e ↦ rw e (
        walk-Each _ new rest (L.not_less new.priority head.priority e) s.0,
        walk-Sorted new rest s.1,
      )
    ]

    -- The operations keep the chains in order.
    abbrev pub in_order : Chains F A
    in_order = record {
      Ok = λ w n i l. Sorted l;
      ok_nil = λ w n i. tt;
      ok_tail = λ w n i e rest h. h.1;
      ok_place = λ w n i new l h. place-Sorted new l h;
    }
