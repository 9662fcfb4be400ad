-- ===== src/Calendar/Shape.antt =====
-- The well-formed queues of multi_thread/src/calqueue.c, and an insertion into one.
use native.Mathlib.Nat.{mod-lt, pow-suc, pow-le-pow_right, pow-zero, le-suc_iff}
use mathlib.Core.List.{Perm}
use mathlib.Core.List.Perm
use linux_fibers.Prelude.{
  ℕ, zero, suc, ◌+◌, ◌*◌, ◌/◌, ◌^◌, ◌≤◌, ◌<◌, ◌≡◌, refl, ap, ◌∙◌, List, [], ◌∷◌, ◌⊎◌, inl, inr,
  Bool-cases, length, ℤ, pos, negsuc, some, arith,
}
use linux_fibers.Prelude.Bags.{length-perm}
use linux_fibers.Reals.{Reals}
use linux_fibers.Calendar.State.{
  calqspace, maxnbuckets, minus, bucket_index, Node, Queue, calendar, contents,
}
use linux_fibers.Calendar.Insert.{walk, place, bucket_of, insert}
use linux_fibers.Calendar.Gather.{gather-update, update-each}

-- A number of buckets: a power of two from 2 on, up to `maxnbuckets`.
abbrev pub IsSize : ℕ → Type 0
IsSize n = (k : ℕ) × (k ≤ 14) × (n ≡ 2 * 2 ^ k)

pow_pos : (k : ℕ) → 0 < 2 ^ k
pow_pos k = pow-le-pow_right {n = 2} (omega arith) {i = 0} {j = k} (omega arith)

pub IsSize-pos : (n : ℕ) → IsSize n → 0 < n
IsSize-pos n (k, le, e) = omega (arith, e, pow_pos k)

pub IsSize-le : (n : ℕ) → IsSize n → n ≤ maxnbuckets
IsSize-le n (k, le, e) =
    let bound : 2 ^ k ≤ 16384 = pow-le-pow_right {n = 2} (omega arith) le in omega (arith, e, bound)

pub IsSize-double : (n : ℕ) → IsSize n → n < maxnbuckets → IsSize (2 * n)
IsSize-double n (k, le, e) lt = elim (le-suc_iff.0 le) [
  | inl less ↦ (suc k, omega arith, omega (arith, e, pow-suc 2 k))
  | inr full ↦ let max : n ≡ maxnbuckets = e ∙ ap (λ j. 2 * 2 ^ j) full in absurd (omega arith)
]

pub IsSize-half : (n : ℕ) → IsSize n → 2 < n → IsSize (n / 2) × (2 * (n / 2) ≡ n)
IsSize-half n (zero, le, e) lt = absurd (omega (arith, e, pow-zero 2))
IsSize-half n (suc k, le, e) lt =
    let twice : n ≡ 2 * (2 * 2 ^ k) = omega (arith, e, pow-suc 2 k) in
    ((k, omega arith, omega (arith, twice)), omega (arith, twice))

pub bucket_index-lt : (n : ℤ) (m i : ℕ) → 0 < m → bucket_index n m ≡ some i → i < m
unfolding bucket_index
bucket_index-lt (pos n) m i some_buckets e = ground (arith, mod-lt n some_buckets)
bucket_index-lt (negsuc n) m i some_buckets e = ground arith

module _ (F : Reals) (A : Type 0) where
  -- A property of the chains: of a chain with its bucket, of a calendar with this width and so many
  -- buckets. The operations keep it when these hold.
  pub record Chains : Type 1 where
    pub Ok : F.R → ℕ → ℕ → List (Node F A) → Type 0
    pub ok_nil : (w : F.R) (n i : ℕ) → Ok w n i []
    pub ok_tail :
        (w : F.R) (n i : ℕ) (e : Node F A) (rest : List (Node F A))
        → Ok w n i (e ∷ rest)
        → Ok w n i rest
    pub ok_place :
        (w : F.R) (n i : ℕ) (new : Node F A) (l : List (Node F A))
        → Ok w n i l
        → Ok w n i (place F A new l)

  -- The property of every chain.
  abbrev pub any_chains : Chains
  any_chains = record {
    Ok = λ w n i l. Unit;
    ok_nil = λ w n i. tt;
    ok_tail = λ w n i e rest h. tt;
    ok_place = λ w n i new l h. tt;
  }

module _ (F : Reals) (A : Type 0) (K : Chains F A) where
  pub record Shape (q : Queue F A) : Type 0 where
    pub size : IsSize q.nbuckets
    pub place : (q.firstsub ≡ 0) ⊎ (q.firstsub + q.nbuckets ≡ calqspace)
    pub last : q.lastbucket < q.nbuckets
    pub top : q.top_threshold ≡ 2 * q.nbuckets
    pub bot : q.bot_threshold ≡ minus (q.nbuckets / 2) 2
    pub chains : (i : ℕ) → i < q.nbuckets → K.Ok q.cwidth q.nbuckets i (calendar F A q i)
    pub counted : q.qsize ≡ length (contents F A q)

  -- What becomes of the queue `q`: well-formed, with these items, in the same place, and nothing
  -- outside its calendar has changed.
  pub record Becomes (q : Queue F A) (all : List (Node F A)) (q' : Queue F A) : Type 0 where
    pub shape : Shape q'
    pub firstsub : q'.firstsub ≡ q.firstsub
    pub nbuckets : q'.nbuckets ≡ q.nbuckets
    pub enabled : q'.resize_enabled ≡ q.resize_enabled
    pub outside : (j : ℕ) → (j < q.firstsub) ⊎ (q.firstsub + q.nbuckets ≤ j) → q'.calq j ≡ q.calq j
    pub items : Perm (contents F A q') all

  pub Becomes-trans :
      (q q1 q2 : Queue F A) (l1 l2 l : List (Node F A))
      → Becomes q l1 q1
      → Becomes q1 l2 q2
      → Perm l2 l
      → Becomes q l q2
  Becomes-trans q q1 q2 l1 l2 l b1 b2 p = record {
    shape = b2.shape;
    firstsub = b2.firstsub ∙ b1.firstsub;
    nbuckets = b2.nbuckets ∙ b1.nbuckets;
    enabled = b2.enabled ∙ b1.enabled;
    outside = λ j out. b2.outside j (rw (b1.firstsub, b1.nbuckets) out) ∙ b1.outside j out;
    items = Perm.trans b2.items p;
  }

  walk-perm : (new : Node F A) (l : List (Node F A)) → Perm (walk F A new l) (new ∷ l)
  unfolding walk
  walk-perm new [] = Perm.refl _
  walk-perm new (next ∷ rest) = elim (Bool-cases (F.less_eq next.priority new.priority)) [
    | inl e ↦ rw e (Perm.trans (Perm.cons next (walk-perm new rest)) (Perm.swap new next rest))
    | inr e ↦ rw e (Perm.refl _)
  ]

  pub place-perm : (new : Node F A) (l : List (Node F A)) → Perm (place F A new l) (new ∷ l)
  unfolding place
  place-perm new [] = Perm.refl _
  place-perm new (head ∷ rest) = elim (Bool-cases (F.less new.priority head.priority)) [
    | inl e ↦ rw e (Perm.refl _)
    | inr e ↦ rw e (Perm.trans (Perm.cons head (walk-perm new rest)) (Perm.swap new head rest))
  ]

  pub bucket_of-lt :
      (q : Queue F A) (p : F.R) (i : ℕ) → Shape q → bucket_of F A q p ≡ some i → i < q.nbuckets
  unfolding bucket_of
  bucket_of-lt q p i s e =
      bucket_index-lt (F.truncate (F.div p q.cwidth)) q.nbuckets i (IsSize-pos q.nbuckets s.size) e

  -- An insertion adds the item.
  pub insert_adds :
      (i : ℕ) (new : Node F A) (q : Queue F A)
      → Shape q
      → bucket_of F A q new.priority ≡ some i
      → Becomes q (new ∷ contents F A q) (insert F A i new q)
  unfolding insert
  insert_adds i new q s e =
      let lt = bucket_of-lt q new.priority i s e in
      let p =
        gather-update F A q.calq q.firstsub q.nbuckets i new (place F A new (calendar F A q i)) lt
          (place-perm new (calendar F A q i)) in
      record {
        shape = record {
          size = s.size;
          place = s.place;
          last = s.last;
          top = s.top;
          bot = s.bot;
          chains =
              update-each F A (K.Ok q.cwidth q.nbuckets) q.calq q.firstsub q.nbuckets i
                (place F A new (calendar F A q i))
                (K.ok_place q.cwidth q.nbuckets i new (calendar F A q i) (s.chains i lt)) s.chains;
          counted = omega (arith, s.counted, length-perm p);
        };
        firstsub = refl;
        nbuckets = refl;
        enabled = refl;
        outside = λ j out. ground arith;
        items = p;
      }
