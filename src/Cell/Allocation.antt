-- ===== src/Cell/Allocation.antt =====
-- The parts of `allocation` and `deallocation` of multi_thread/src/channel.c: the bitmap, the search
-- for a free channel, and the passes over the list.
use linux_fibers.Prelude.{
  ℕ, zero, suc, ◌+◌, ◌≡◌, ◌<◌, ◌≤◌, refl, ap, ◌∙◌, Bool, true, false, List, [], ◌∷◌, none, some,
  length, ◌==◌, if◌then◌else◌, arith, Bool-cases, inl, inr, subst, ==_iff,
}
use linux_fibers.Prelude.Table.{find, Distinct}
use linux_fibers.Reals.{Reals}
use linux_fibers.Cell.State.{Channel, channel_key, check_channel, put_channel}
use linux_fibers.Cell.Channels.{fading_recheck, interference, first_free}
use linux_fibers.Cell.Counting.{is_some, listed_in}

-- Two channels that share their word and their bit are one.
pub check-put_channel :
    (state : ℕ → ℕ → Bool) (i j : ℕ) (b : Bool)
    → check_channel (put_channel state i b) j ≡ (if i == j then b else check_channel state j)
unfolding check_channel put_channel
check-put_channel state i j b = ground arith

-- The search for a free channel stops at the first one.
pub free_channel_found :
    (state : ℕ → ℕ → Bool) (n i k : ℕ)
    → first_free state n i ≡ some k
    → (i ≤ k) × (k < i + n) × (check_channel state k ≡ false)
unfolding first_free
free_channel_found state zero i k e = absurd (ground arith)
free_channel_found state (suc n) i k e = elim (Bool-cases (check_channel state i)) [
  | inl busy ↦
      let (low, high, free) = free_channel_found state n (i + 1) k (rw busy at e) in
      (omega arith, omega arith, free)
  | inr free ↦
      let same : i ≡ k = ground arith in
      (omega arith, omega arith, subst (λ j. check_channel state j ≡ false) same free)
]

pub first_free_before :
    (state : ℕ → ℕ → Bool) (n i k j : ℕ)
    → first_free state n i ≡ some k
    → i ≤ j
    → j < k
    → check_channel state j ≡ true
unfolding first_free
first_free_before state zero i k j e low high = absurd (ground arith)
first_free_before state (suc n) i k j e low high = elim (Bool-cases (check_channel state i)) [
  | inl busy ↦ elim (Bool-cases (i == j)) [
    | inl same ↦ subst (λ j. check_channel state j ≡ true) ((==_iff i j).0 same) busy
    | inr other ↦ first_free_before state n (i + 1) k j (rw busy at e) (ground arith) high
  ]
  | inr free ↦ absurd (ground arith)
]

pub no_free_channel :
    (state : ℕ → ℕ → Bool) (n i j : ℕ)
    → first_free state n i ≡ none
    → i ≤ j
    → j < i + n
    → check_channel state j ≡ true
unfolding first_free
no_free_channel state zero i j e low high = absurd (omega arith)
no_free_channel state (suc n) i j e low high = elim (Bool-cases (check_channel state i)) [
  | inl busy ↦ elim (Bool-cases (i == j)) [
    | inl same ↦ subst (λ j. check_channel state j ≡ true) ((==_iff i j).0 same) busy
    | inr other ↦ no_free_channel state n (i + 1) j (rw busy at e) (ground arith) (omega arith)
  ]
  | inr free ↦ absurd (ground arith)
]

module _ (F : Reals) where
  pub recheck-find :
      (k : ℕ) (cs : List (Channel F)) (seed : F.Seed)
      → listed_in (channel_key F) k (fading_recheck F cs seed).0 ≡ listed_in (channel_key F) k cs
  unfolding fading_recheck find
  recheck-find k [] seed = refl
  recheck-find k (c ∷ cs) seed = elim (Bool-cases (c.channel_id == k)) [
    | inl e ↦ rw e refl
    | inr e ↦ rw e (recheck-find k cs _)
  ]

  pub interference-find :
      (k : ℕ) (cs : List (Channel F)) (summ : F.R) (seed : F.Seed)
      → listed_in (channel_key F) k (interference F cs summ seed).0.0
        ≡ listed_in (channel_key F) k cs
  unfolding interference find
  interference-find k [] summ seed = refl
  interference-find k (c ∷ cs) summ seed = elim (Bool-cases (c.channel_id == k)) [
    | inl e ↦ rw e refl
    | inr e ↦ rw e (interference-find k cs _ _)
  ]

  pub recheck-length :
      (cs : List (Channel F)) (seed : F.Seed) → length (fading_recheck F cs seed).0 ≡ length cs
  unfolding fading_recheck
  recheck-length [] seed = refl
  recheck-length (c ∷ cs) seed = ap suc (recheck-length cs _)

  pub interference-length :
      (cs : List (Channel F)) (summ : F.R) (seed : F.Seed)
      → length (interference F cs summ seed).0.0 ≡ length cs
  unfolding interference
  interference-length [] summ seed = refl
  interference-length (c ∷ cs) summ seed = ap suc (interference-length cs _ _)

  -- No two channels have one number.
  abbrev pub Apart : List (Channel F) → Type 0
  Apart = Distinct (channel_key F)

  pub absent :
      (k : ℕ) (cs : List (Channel F))
      → listed_in (channel_key F) k cs ≡ false
      → find (channel_key F) k cs ≡ none
  absent k cs h = ground arith

  pub recheck-Distinct :
      (cs : List (Channel F)) (seed : F.Seed) → Apart cs → Apart (fading_recheck F cs seed).0
  unfolding fading_recheck
  recheck-Distinct [] seed d = tt
  recheck-Distinct (c ∷ cs) seed d = (
    absent c.channel_id _ (recheck-find c.channel_id cs _ ∙ ap is_some d.0),
    recheck-Distinct cs _ d.1,
  )

  pub interference-Distinct :
      (cs : List (Channel F)) (summ : F.R) (seed : F.Seed)
      → Apart cs
      → Apart (interference F cs summ seed).0.0
  unfolding interference
  interference-Distinct [] summ seed d = tt
  interference-Distinct (c ∷ cs) summ seed d = (
    absent c.channel_id _ (interference-find c.channel_id cs _ _ ∙ ap is_some d.0),
    interference-Distinct cs _ _ d.1,
  )
