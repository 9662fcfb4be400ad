-- ===== src/Ult/Ownership.antt =====
-- What a step of a thread of multi_thread/src/ult.c may do to the locks of fibers.
use linux_fibers.Prelude.{
  ℕ, ◌+◌, ◌≡◌, ◌<◌, refl, Bool, true, false, ◌||◌, ◌==◌, if◌then◌else◌, update, arith, Bool-cases,
  inl, inr,
}
use linux_fibers.Ult.Steps.{Place, Machine, initial}
use linux_fibers.Ult.Owners.{
  owns, mentions, apart, IsOwned, owns-update, mentions-update, apart-update, owned_before,
  owned_after,
}

module _ (running : ℕ → Bool) (ult_id : ℕ) (place : ℕ → Place)
    (v : IsOwned running ult_id place) where
  -- A step that locks and unlocks nothing.
  pub kept :
      (t : ℕ) (p : Place)
      → ((h : ℕ) → owns p h ≡ owns (place t) h)
      → ((h : ℕ) → mentions p h ≡ true → mentions (place t) h ≡ true)
      → ((h : ℕ) → owns p h ≡ true → mentions p h ≡ true)
      → apart p ≡ true
      → IsOwned running ult_id (update place t p)
  kept t p same knows own two = record {
    known =
        λ u f h. ground (arith, mentions-update place t u f p, knows f, v.known t f, v.known u f);
    owned = λ u f h.
        ground
          (arith, mentions-update place t u f p, owns-update place t u f p, own f, v.owned u f);
    flagged =
        λ u f h. ground (arith, owns-update place t u f p, same f, v.flagged t f, v.flagged u f);
    one = λ u w f h k.
        v.one u w f (owned_before place t u f p (λ o. ground (arith, same f)) h)
          (owned_before place t w f p (λ o. ground (arith, same f)) k);
    separate = λ u. apart-update place t u p two (v.separate u);
    held = λ f h.
        let (u, o) = v.held f h in (u, owned_after place t u f p (λ m. ground (arith, same f)) o);
  }

  -- A thread locks the fiber `g`, whose flag is not set.
  pub acquired :
      (t g : ℕ) (p : Place)
      → running g ≡ false
      → g < ult_id
      → ((h : ℕ) → owns p h ≡ (owns (place t) h || g == h))
      → ((h : ℕ) → mentions p h ≡ true → (mentions (place t) h || g == h) ≡ true)
      → ((h : ℕ) → owns p h ≡ true → mentions p h ≡ true)
      → apart p ≡ true
      → IsOwned (update running g true) ult_id (update place t p)
  acquired t g p free low more knows own two = record {
    known =
        λ u f h. ground (arith, mentions-update place t u f p, knows f, v.known t f, v.known u f);
    owned = λ u f h.
        ground
          (arith, mentions-update place t u f p, owns-update place t u f p, own f, v.owned u f);
    flagged =
        λ u f h. ground (arith, owns-update place t u f p, more f, v.flagged t f, v.flagged u f);
    one = λ u w f h k. ground (
      arith,
      owns-update place t u f p,
      owns-update place t w f p,
      more f,
      v.one t w f,
      v.one u t f,
      v.one u w f,
      v.flagged u f,
      v.flagged w f,
    );
    separate = λ u. apart-update place t u p two (v.separate u);
    held = λ f h. elim (Bool-cases (g == f)) [
      | inl e ↦ (t, ground (arith, owns-update place t t f p, more f))
      | inr e ↦
          let (u, o) = v.held f (ground arith) in
          (u, ground (arith, owns-update place t u f p, more f))
    ];
  }

  -- A thread unlocks the fiber `g`, which it owns.
  pub freed :
      (t g : ℕ) (p : Place)
      → owns (place t) g ≡ true
      → ((h : ℕ) → owns p h ≡ (if g == h then false else owns (place t) h))
      → ((h : ℕ) → mentions p h ≡ true → mentions (place t) h ≡ true)
      → ((h : ℕ) → owns p h ≡ true → mentions p h ≡ true)
      → apart p ≡ true
      → IsOwned (update running g false) ult_id (update place t p)
  freed t g p mine less knows own two = record {
    known =
        λ u f h. ground (arith, mentions-update place t u f p, knows f, v.known t f, v.known u f);
    owned = λ u f h.
        ground
          (arith, mentions-update place t u f p, owns-update place t u f p, own f, v.owned u f);
    flagged = λ u f h.
        ground
          (arith, owns-update place t u f p, less f, v.flagged t f, v.flagged u f, v.one u t f);
    one = λ u w f h k.
        v.one u w f (owned_before place t u f p (λ o. ground (arith, less f)) h)
          (owned_before place t w f p (λ o. ground (arith, less f)) k);
    separate = λ u. apart-update place t u p two (v.separate u);
    held = λ f h.
        let (u, o) = v.held f (ground arith) in
        (u, owned_after place t u f p (λ m. ground (arith, less f)) o);
  }

pub initial-IsOwned : IsOwned initial.running initial.ult_id initial.place
unfolding initial
initial-IsOwned = record {
  known = λ t f h. absurd (ground arith);
  owned = λ t f h. absurd (ground arith);
  flagged = λ t f h. absurd (ground arith);
  one = λ t u f h. absurd (ground arith);
  separate = λ t. refl;
  held = λ f h. absurd (ground arith);
}

module _ (s : Machine) (v : IsOwned s.running s.ult_id s.place) where
  -- A new fiber, which nobody has locked.
  pub allocated :
      (t : ℕ) (p : Place)
      → ((h : ℕ) → owns p h ≡ owns (s.place t) h)
      → ((h : ℕ) → mentions p h ≡ true → (mentions (s.place t) h || s.ult_id == h) ≡ true)
      → ((h : ℕ) → owns p h ≡ true → mentions p h ≡ true)
      → apart p ≡ true
      → IsOwned (update s.running s.ult_id false) (s.ult_id + 1) (update s.place t p)
  allocated t p same more own two = record {
    known =
        λ u f h. ground (arith, mentions-update s.place t u f p, more f, v.known t f, v.known u f);
    owned = λ u f h.
        ground
          (arith, mentions-update s.place t u f p, owns-update s.place t u f p, own f, v.owned u f);
    flagged = λ u f h. ground (
      arith,
      owns-update s.place t u f p,
      same f,
      v.flagged t f,
      v.flagged u f,
      v.owned t f,
      v.owned u f,
      v.known t f,
      v.known u f,
    );
    one = λ u w f h k.
        v.one u w f (owned_before s.place t u f p (λ o. ground (arith, same f)) h)
          (owned_before s.place t w f p (λ o. ground (arith, same f)) k);
    separate = λ u. apart-update s.place t u p two (v.separate u);
    held = λ f h.
        let (u, o) = v.held f (ground arith) in
        (u, owned_after s.place t u f p (λ m. ground (arith, same f)) o);
  }
