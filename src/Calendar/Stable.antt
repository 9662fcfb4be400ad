-- ===== src/Calendar/Stable.antt =====
-- Where `calqueue_put` of multi_thread/src/calqueue.c puts an item among those of equal priority.
use linux_fibers.Prelude.{
  ◌≡◌, refl, ap, true, false, List, [], ◌∷◌, ◌++◌, Bool-cases, inl, inr, if◌then◌else◌, arith,
}
use linux_fibers.Reals.{Reals}
use linux_fibers.Calendar.State.{Node}
use linux_fibers.Calendar.Insert.{walk, place}
use linux_fibers.Calendar.Order.{IsOrder, From, Sorted}

module _ (F : Reals) (A : Type 0) where
  -- The items not after the priority `p`, in their order.
  abbrev pub early : F.R → List (Node F A) → List (Node F A)
  early p [] = []
  early p (e ∷ rest) = let l = early p rest in if F.less_eq e.priority p then e ∷ l else l

  -- The items after the priority `p`, in their order.
  abbrev pub late : F.R → List (Node F A) → List (Node F A)
  late p [] = []
  late p (e ∷ rest) = let l = late p rest in if F.less_eq e.priority p then l else e ∷ l

  module _ (L : IsOrder F) where
    -- Items from `r` on, which is after `p`.
    all_late :
        (p r : F.R) (l : List (Node F A))
        → F.less_eq r p ≡ false
        → From F A r l
        → (early p l ≡ []) × (late p l ≡ l)
    all_late p r [] after from = (refl, refl)
    all_late p r (e ∷ rest) after from =
        let (none_early, rest_late) = all_late p r rest after from.1 in
        elim (Bool-cases (F.less_eq e.priority p)) [
          | inl le ↦ absurd (ground (arith, after, L.less_eq_trans r e.priority p from.0 le))
          | inr gt ↦ rw (gt, none_early, rest_late) (refl, refl)
        ]

    not_before : (x y : F.R) → F.less x y ≡ true → F.less_eq y x ≡ false
    not_before x y lt = elim (Bool-cases (F.less_eq y x)) [
      | inl le ↦ absurd (ground (arith, L.less_eq_less y x y le lt, L.less_irrefl y))
      | inr gt ↦ gt
    ]

    walk-split :
        (new : Node F A) (l : List (Node F A))
        → Sorted F A l
        → walk F A new l ≡ early new.priority l ++ new ∷ late new.priority l
    unfolding walk
    walk-split new [] s = refl
    walk-split new (next ∷ rest) s = elim (Bool-cases (F.less_eq next.priority new.priority)) [
      | inl le ↦ rw le (ap (λ l. next ∷ l) (walk-split new rest s.1))
      | inr gt ↦
          let (none_early, rest_late) = all_late new.priority next.priority rest gt s.0 in
          rw (gt, none_early, rest_late) refl
    ]

    -- An item put into a chain in order comes behind all items of an earlier or of the same priority,
    -- and before all of a later one, and these keep their order in the chain.
    pub place-split :
        (new : Node F A) (l : List (Node F A))
        → Sorted F A l
        → place F A new l ≡ early new.priority l ++ new ∷ late new.priority l
    unfolding place
    place-split new [] s = refl
    place-split new (head ∷ rest) s = elim (Bool-cases (F.less new.priority head.priority)) [
      | inl lt ↦
          let gt = not_before new.priority head.priority lt in
          let (none_early, rest_late) = all_late new.priority head.priority rest gt s.0 in
          rw (lt, gt, none_early, rest_late) refl
      | inr ge ↦
          let le = L.not_less new.priority head.priority ge in
          rw (ge, le) (ap (λ l. head ∷ l) (walk-split new rest s.1))
    ]
