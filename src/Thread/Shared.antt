-- ===== src/Thread/Shared.antt =====
-- The block of arguments that multi_thread/src/thread.c hands to all threads.
use linux_fibers.Prelude.{
  ℕ, ◌≡◌, refl, sym, ap, ◌∙◌, Bool, true, false, Option, none, some, ◌==◌, if◌then◌else◌, update,
  arith, Bool-cases, inl, inr, subst,
}
use linux_fibers.Thread.Steps.{
  Place, starting, looked, working, ended, Program, go, swap, step_at, step, initial, Reach,
  at_start, after,
}

abbrev is_ended : Place → Bool
is_ended (ended tid) = true
is_ended _ = false

-- Who has ended has freed the block.
abbrev Freed : Program → Type 0
Freed s = (t : ℕ) → is_ended (s.place t) ≡ true → s.freed ≡ true

abbrev Good : Option Program → Type 0
Good none = Unit
Good (some s) = Freed s

is_ended-update :
    (place : ℕ → Place) (t u : ℕ) (p : Place)
    → is_ended (update place t p u) ≡ (if t == u then is_ended p else is_ended (place u))
is_ended-update place t u p = elim (Bool-cases (t == u)) [ inl e ↦ rw e refl | inr e ↦ rw e refl ]

going : (s : Program) (t : ℕ) (p : Place) → is_ended p ≡ false → Freed s → Freed (go t p s)
unfolding go
going s t p e v u h = v u (ground (arith, is_ended-update s.place t u p))

step_at-Good : (s : Program) (t : ℕ) (q : Place) → Freed s → Good (step_at t s q)
unfolding step_at swap go
step_at-Good s t starting v = going s t (looked s.thread_counter) refl v
step_at-Good s t (looked old) v = elim (Bool-cases (s.thread_counter == old)) [
  | inl same ↦ elim (Bool-cases s.freed) [
    | inl gone ↦ rw (same, gone) tt
    | inr there ↦ rw (same, there) (λ u h. sym there ∙ going s t (working _) refl v u h)
  ]
  | inr other ↦ rw other (going s t starting refl v)
]
step_at-Good s t (working tid) v = elim (Bool-cases s.freed) [
  | inl gone ↦ rw gone tt
  | inr there ↦ rw there (λ u h. refl)
]
step_at-Good s t (ended tid) v = v

Reach-Freed : {n : ℕ} {s : Program} → Reach n s → Freed s
unfolding step initial
Reach-Freed at_start = λ t h. absurd (ground arith)
Reach-Freed (after {s = s} r t e) = subst Good e (step_at-Good s t (s.place t) (Reach-Freed r))

-- One block of arguments serves all threads of one create_threads, and each of them frees it at the
-- end: once one thread has ended, no other can end without a second free of the block.
pub second_free :
    {n : ℕ} {s : Program} (r : Reach n s) (t u tid tid' : ℕ)
    → s.place t ≡ ended tid
    → s.place u ≡ working tid'
    → step u s ≡ none
unfolding step step_at
second_free r t u tid tid' gone here = let flag = Reach-Freed r t (ap is_ended gone) in ground arith
