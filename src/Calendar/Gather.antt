-- ===== src/Calendar/Gather.antt =====
-- The items of neighbouring chains of multi_thread/src/calqueue.c, taken together.
use mathlib.Core.List.{Perm}
use mathlib.Core.List.Perm
use linux_fibers.Prelude.{
  ℕ, zero, suc, ◌+◌, ◌≤◌, ◌<◌, ◌≡◌, refl, subst, List, [], ◌∷◌, inl, inr, update, ◌==◌, Bool-cases,
  arith,
}
use linux_fibers.Prelude.Bags.{perm_front}
use linux_fibers.Reals.{Reals}
use linux_fibers.Calendar.State.{Node, gather, cleared}

module _ (F : Reals) (A : Type 0) where
  -- Chains that agree from `base` on, `n` of them.
  pub gather-ext :
      (f g : ℕ → List (Node F A)) (base n : ℕ)
      → ((i : ℕ) → i < n → f (base + i) ≡ g (base + i))
      → gather F A f base n ≡ gather F A g base n
  unfolding gather
  gather-ext f g base zero same = refl
  gather-ext f g base (suc n) same =
      rw (same n (omega arith), gather-ext f g base n (λ i lt. same i (omega arith))) refl

  -- A property of each of the chains, after one of them is replaced.
  pub update-each :
      (P : ℕ → List (Node F A) → Type 0) (f : ℕ → List (Node F A)) (base n i : ℕ)
      (v : List (Node F A))
      → P i v
      → ((j : ℕ) → j < n → P j (f (base + j)))
      → (j : ℕ) → j < n
      → P j (update f (base + i) v (base + j))
  update-each P f base n i v new old j lt = elim (Bool-cases (base + i == base + j)) [
    | inl e ↦ let same : i ≡ j = ground arith in rw e (subst (λ k. P k v) same new)
    | inr e ↦ rw e (old j lt)
  ]

  -- A chain with one item more, at one place.
  pub gather-update :
      (f : ℕ → List (Node F A)) (base n i : ℕ) (x : Node F A) (v : List (Node F A))
      → i < n
      → Perm v (x ∷ f (base + i))
      → Perm (gather F A (update f (base + i) v) base n) (x ∷ gather F A f base n)
  unfolding gather
  gather-update f base zero i x v lt p = absurd (omega arith)
  gather-update f base (suc n) i x v lt p = elim (Bool-cases (i == n)) [
    | inl e ↦
        let here : i ≡ n = ground arith in
        let before : gather F A (update f (base + i) v) base n ≡ gather F A f base n =
          gather-ext (update f (base + i) v) f base n (λ j below. ground arith) in
        let new : update f (base + i) v (base + n) ≡ v = ground arith in
        rw (before, new)
          (perm_front x (gather F A f base n) v (f (base + n))
            (subst (λ k. Perm v (x ∷ f (base + k))) here p))
    | inr e ↦
        let old : update f (base + i) v (base + n) ≡ f (base + n) = ground arith in
        rw old (Perm.append_right (f (base + n)) (gather-update f base n i x v (ground arith) p))
  ]

  pub cleared-nil :
      (f : ℕ → List (Node F A)) (base n i : ℕ) → i < n → cleared F A f base n (base + i) ≡ []
  unfolding cleared
  cleared-nil f base n i lt = ground arith

  pub gather-cleared :
      (f : ℕ → List (Node F A)) (base m n : ℕ)
      → n ≤ m
      → gather F A (cleared F A f base m) base n ≡ []
  unfolding gather cleared
  gather-cleared f base m zero h = refl
  gather-cleared f base m (suc n) h = ground (arith, gather-cleared f base m n)
