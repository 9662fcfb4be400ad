-- ===== src/Hooks/Rollback.antt =====
-- `fh_install_hooks` of multi_thread/Module/proc.c and `fh_remove_hooks`: which hooks are in place.
use linux_fibers.Prelude.{
  sym, ◌∙◌, subst, ltb, leb, ==_iff, ◌&&◌, ◌⊎◌, ℕ, zero, suc, ◌+◌, ◌≡◌, ◌≢◌, ◌<◌, ◌≤◌, true, false,
  ◌==◌, if◌then◌else◌, refl, arith, Bool-cases, inl, inr,
}
use linux_fibers.Hooks.Install.{
  Ftrace, Tracer, install_hook, remove_hook, unwind, install_from, install_hooks, remove_from,
  remove_hooks,
}

-- The hook `j` is in place: filtered and registered.
abbrev pub Installed : Tracer → ℕ → Type 0
Installed s j = (s.filtered j ≡ true) × (s.registered j ≡ true)

abbrev pub Absent : Tracer → ℕ → Type 0
Absent s j = (s.filtered j ≡ false) × (s.registered j ≡ false)

-- A hook can always be taken out.
abbrev pub Removable : Ftrace → Type 0
Removable a = (j : ℕ) → (a.unregister_error j ≡ 0) × (a.remove_filter_error j ≡ 0)

install_hook_other :
    (a : Ftrace) (i j : ℕ) (s : Tracer)
    → i ≢ j
    → ((install_hook a i s).0.filtered j ≡ s.filtered j)
      × ((install_hook a i s).0.registered j ≡ s.registered j)
unfolding install_hook
install_hook_other a i j s h = ground arith

install_hook_done :
    (a : Ftrace) (i : ℕ) (s : Tracer)
    → (install_hook a i s).1 ≡ 0
    → Installed (install_hook a i s).0 i
unfolding install_hook
install_hook_done a i s h = ground arith

install_hook_failed :
    (a : Ftrace) (i : ℕ) (s : Tracer)
    → a.remove_filter_error i ≡ 0
    → Absent s i
    → (install_hook a i s).1 ≢ 0
    → Absent (install_hook a i s).0 i
unfolding install_hook
install_hook_failed a i s r h e = ground arith

remove_hook_lem :
    (a : Ftrace) (i j : ℕ) (s : Tracer)
    → Removable a
    → ((remove_hook a i s).filtered j ≡ (if i == j then false else s.filtered j))
      × ((remove_hook a i s).registered j ≡ (if i == j then false else s.registered j))
unfolding remove_hook
remove_hook_lem a i j s r = ground (arith, r i)

unwind_lem :
    (a : Ftrace) (i j : ℕ) (s : Tracer)
    → Removable a
    → ((unwind a i s).filtered j ≡ (if ltb j i then false else s.filtered j))
      × ((unwind a i s).registered j ≡ (if ltb j i then false else s.registered j))
unfolding unwind
unwind_lem a zero j s r = (ground arith, ground arith)
unwind_lem a (suc i) j s r =
    let (f, g) = unwind_lem a i j (remove_hook a i s) r in
    let (f', g') = remove_hook_lem a i j s r in (ground (arith, f, f'), ground (arith, g, g'))

-- The loop that succeeds leaves each of its hooks installed, and the earlier ones as they were.
install_from_done :
    (a : Ftrace) (n i j : ℕ) (s : Tracer)
    → (install_from a n i s).1 ≡ 0
    → j < i + n
    → (j < i → Installed s j)
    → Installed (install_from a n i s).0 j
unfolding install_from
install_from_done a zero i j s e h before = before (omega arith)
install_from_done a (suc n) i j s e h before = elim (Bool-cases ((install_hook a i s).1 == 0)) [
  | inr bad ↦ absurd (ground arith)
  | inl good ↦ rw good (
      install_from_done a n (i + 1) j (install_hook a i s).0 (rw good at e) (omega arith) (λ lt.
        elim (Bool-cases (i == j)) [
          | inl same ↦
              subst (Installed (install_hook a i s).0) ((==_iff i j).0 same)
                (install_hook_done a i s ((==_iff _ _).0 good))
          | inr other ↦
              let (f, g) = install_hook_other a i j s (ground arith) in
              let (x, y) = before (ground arith) in (f ∙ x, g ∙ y)
        ]))
]

failed_at :
    (a : Ftrace) (i j : ℕ) (s : Tracer)
    → Removable a
    → (install_hook a i s).1 ≢ 0
    → i ≤ j
    → (i ≤ j → Absent s j)
    → Absent (install_hook a i s).0 j
failed_at a i j s r e le after = elim (Bool-cases (i == j)) [
  | inl same ↦
      let p : i ≡ j = (==_iff i j).0 same in
      subst (Absent (install_hook a i s).0) p
        (install_hook_failed a i s (r i).1 (subst (Absent s) (sym p) (after le)) e)
  | inr other ↦
      let (f, g) = install_hook_other a i j s (ground arith) in
      let (x, y) = after le in (f ∙ x, g ∙ y)
]

-- The loop that fails leaves none of its hooks in place.
install_from_failed :
    (a : Ftrace) (n i j : ℕ) (s : Tracer)
    → Removable a
    → (install_from a n i s).1 ≢ 0
    → (i ≤ j → Absent s j)
    → Absent (install_from a n i s).0 j
unfolding install_from
install_from_failed a zero i j s r e after = absurd (e refl)
install_from_failed a (suc n) i j s r e after = elim (Bool-cases ((install_hook a i s).1 == 0)) [
  | inl good ↦ rw good (
      install_from_failed a n (i + 1) j (install_hook a i s).0 r (rw good at e) (λ le.
        let (f, g) = install_hook_other a i j s (omega arith) in
        let (x, y) = after (omega arith) in (f ∙ x, g ∙ y)))
  | inr bad ↦ rw bad (
      let (f, g) = unwind_lem a i j (install_hook a i s).0 r in
      elim (Bool-cases (ltb j i)) [
        | inl before ↦ (f ∙ rw before, g ∙ rw before)
        | inr later ↦
            let (x, y) = failed_at a i j s r (ground arith) (ground arith) after in
            (f ∙ rw later x, g ∙ rw later y)
      ])
]

remove_from_lem :
    (a : Ftrace) (n i j : ℕ) (s : Tracer)
    → Removable a
    → ((remove_from a n i s).filtered j
        ≡ (if leb i j && ltb j (i + n) then false else s.filtered j))
      × ((remove_from a n i s).registered j
          ≡ (if leb i j && ltb j (i + n) then false else s.registered j))
unfolding remove_from
remove_from_lem a zero i j s r = (ground arith, ground arith)
remove_from_lem a (suc n) i j s r =
    let (f, g) = remove_from_lem a n (i + 1) j (remove_hook a i s) r in
    let (f', g') = remove_hook_lem a i j s r in (ground (arith, f, f'), ground (arith, g, g'))

-- If the kernel lets every hook be removed, and no hook is in place, then
-- fh_install_hooks either returns 0 and has filtered and registered each of them, or returns an
-- error and has left none of them filtered or registered.
pub all_or_nothing :
    (a : Ftrace) (count j : ℕ) (s : Tracer)
    → Removable a
    → ((i : ℕ) → Absent s i)
    → j < count
    → (((install_hooks a count s).1 ≡ 0) × Installed (install_hooks a count s).0 j)
      ⊎ (((install_hooks a count s).1 ≢ 0) × Absent (install_hooks a count s).0 j)
unfolding install_hooks
all_or_nothing a count j s r clean lt = elim (Bool-cases ((install_hooks a count s).1 == 0)) [
  | inl good ↦ inl (
    (==_iff _ _).0 good,
    install_from_done a count 0 j s ((==_iff _ _).0 good) (omega arith) (λ h. absurd (omega arith)),
  )
  | inr bad ↦
      let e : (install_from a count 0 s).1 ≢ 0 = ground arith in
      inr (e, install_from_failed a count 0 j s r e (λ _. clean j))
]

-- If the kernel lets every hook be removed, fh_remove_hooks takes the first `count` hooks out and
-- leaves the others as they were, whatever is in place before.
pub remove_hooks_lem :
    (a : Ftrace) (count j : ℕ) (s : Tracer)
    → Removable a
    → ((remove_hooks a count s).filtered j ≡ (if ltb j count then false else s.filtered j))
      × ((remove_hooks a count s).registered j ≡ (if ltb j count then false else s.registered j))
unfolding remove_hooks
remove_hooks_lem a count j s r =
    let (f, g) = remove_from_lem a count 0 j s r in (ground (arith, f), ground (arith, g))
