-- ===== src/Thread/Numbers.antt =====
-- The numbers of the threads of multi_thread/src/thread.c.
use linux_fibers.Prelude.{
  ℕ, ◌+◌, ◌-◌, ◌^◌, ◌≡◌, ◌≢◌, ◌<◌, ◌≤◌, refl, sym, ap, ◌∙◌, Option, none, some, ◌==◌, if◌then◌else◌,
  update, arith, Bool-cases, inl, inr, subst, ==_iff,
}
use linux_fibers.Thread.Steps.{
  Place, starting, looked, working, ended, Program, next_tid, go, swap, step_at, step, initial,
  Reach, at_start, after,
}

-- The number of a thread that has one; 0 is none.
abbrev pub tid_of : Place → ℕ
tid_of starting = 0
tid_of (looked old) = 0
tid_of (working tid) = tid
tid_of (ended tid) = tid

-- Numbers are at most the counter, and no two threads have one number.
record IsNumbered (n : ℕ) (s : Program) : Type 0 where
  counted : s.thread_counter ≤ n
  low : (t : ℕ) → tid_of (s.place t) ≤ s.thread_counter
  one : (t u : ℕ) → tid_of (s.place t) ≢ 0 → tid_of (s.place t) ≡ tid_of (s.place u) → t ≡ u

abbrev Good : ℕ → Option Program → Type 0
Good n none = Unit
Good n (some s) = IsNumbered n s

update_tid :
    (place : ℕ → Place) (t u : ℕ) (p : Place)
    → tid_of (update place t p u) ≡ (if t == u then tid_of p else tid_of (place u))
update_tid place t u p = elim (Bool-cases (t == u)) [ inl e ↦ rw e refl | inr e ↦ rw e refl ]

module _ (n : ℕ) (s : Program) (v : IsNumbered n s) where
  -- A step that gives no number and takes none.
  moved : (t : ℕ) (p : Place) → tid_of p ≡ tid_of (s.place t) → IsNumbered (n + 1) (go t p s)
  unfolding go
  moved t p e =
      let same : (u : ℕ) → tid_of (update s.place t p u) ≡ tid_of (s.place u) = λ u.
        elim (Bool-cases (t == u)) [
          | inl x ↦
              update_tid s.place t u p
              ∙ ap (λ b. if b then tid_of p else tid_of (s.place u)) x
              ∙ e
              ∙ ap (λ w. tid_of (s.place w)) ((==_iff t u).0 x)
          | inr x ↦ ground (arith, update_tid s.place t u p)
        ] in
      record {
        counted = omega (arith, v.counted);
        low = λ u. subst (λ x. x ≤ s.thread_counter) (sym (same u)) (v.low u);
        one = λ u w h k. v.one u w (λ z. h (same u ∙ z)) (sym (same u) ∙ k ∙ same w);
      }

  named :
      (t old : ℕ)
      → n < 2 ^ 32 - 1
      → s.thread_counter ≡ old
      → IsNumbered
          (n + 1)
          (go t (working (next_tid old)) (record s { thread_counter = next_tid old }))
  unfolding go
  named t old small e =
      let c = v.counted in
      let fresh : next_tid old ≡ s.thread_counter + 1 = omega arith in
      let is = λ (u : ℕ). update_tid s.place t u (working (next_tid old)) in
      record {
        counted = omega arith;
        low = λ u. ground (arith, is u, v.low u);
        one = λ u w h k. ground (arith, is u, is w, v.low u, v.low w, v.one u w);
      }

step_at-Good :
    (n : ℕ) (s : Program) (v : IsNumbered n s) (t : ℕ) (q : Place)
    → n < 2 ^ 32 - 1
    → s.place t ≡ q
    → Good (n + 1) (step_at t s q)
unfolding step_at swap
step_at-Good n s v t starting small e = moved n s v t (looked s.thread_counter) (ap tid_of (sym e))
step_at-Good n s v t (looked old) small e = elim (Bool-cases (s.thread_counter == old)) [
  | inl same ↦ elim (Bool-cases s.freed) [
    | inl gone ↦ rw (same, gone) tt
    | inr there ↦
        let w = named n s v t old small ((==_iff _ _).0 same) in
        rw (same, there) (record { counted = w.counted; low = w.low; one = w.one })
  ]
  | inr other ↦ rw other (moved n s v t starting (ap tid_of (sym e)))
]
step_at-Good n s v t (working tid) small e = elim (Bool-cases s.freed) [
  | inl gone ↦ rw gone tt
  | inr there ↦
      let w = moved n s v t (ended tid) (ap tid_of (sym e)) in
      rw there (record { counted = w.counted; low = w.low; one = w.one })
]
step_at-Good n s v t (ended tid) small e = record {
  counted = omega (arith, v.counted);
  low = v.low;
  one = v.one;
}

initial-IsNumbered : IsNumbered 0 initial
unfolding initial
initial-IsNumbered = record {
  counted = omega arith;
  low = λ t. omega arith;
  one = λ t u h e. absurd (h refl);
}

Reach-IsNumbered : {n : ℕ} {s : Program} → Reach n s → n < 2 ^ 32 → IsNumbered n s
unfolding step
Reach-IsNumbered at_start small = initial-IsNumbered
Reach-IsNumbered (after {n = n} {s = s} {s' = s'} r t e) small =
    subst (Good (n + 1)) e
      (step_at-Good n s (Reach-IsNumbered r (omega arith)) t (s.place t) (omega arith) refl)

-- However the threads interleave, within 2 ^ 32 steps of the program: two threads that have been
-- given a number have different ones, and the number of each lies between 1 and the counter.
pub unique_tid :
    {n : ℕ} {s : Program} (r : Reach n s) (t u : ℕ)
    → n < 2 ^ 32
    → t ≢ u
    → tid_of (s.place t) ≢ 0
    → (tid_of (s.place t) ≢ tid_of (s.place u))
      × (1 ≤ tid_of (s.place t))
      × (tid_of (s.place t) ≤ s.thread_counter)
unique_tid r t u small other given =
    let v = Reach-IsNumbered r small in (λ same. other (v.one t u given same), omega arith, v.low t)
