-- ===== src/Simulation/Starting.antt =====
-- When `main` of multi_thread/src/main.c starts the fibers, and which.
use linux_fibers.Prelude.{
  ℕ, zero, suc, ◌+◌, ◌-◌, ◌%◌, ◌^◌, ◌≤◌, ◌<◌, ◌≡◌, refl, ap, ◌∙◌, Bool, true, false, List, [], ◌∷◌,
  some, length, ltb, leb, ◌==◌, if_both, subst, ◌⊎◌, inl, inr, ℤ, pos, negsuc, arith,
}
use native.Mathlib.Nat.{mod-lt, mod-le}
use linux_fibers.Simulation.Launch.{
  to_unsigned, Errno, einval, erange, other, usage, invalid_number, few_fibers, Plan, Launch,
  gives_up, starts, arguments_from, threads_of, plan, enough, launch, get_random_fiber, fiber_at,
  schedule,
}

to_unsigned-lt : (z : ℤ) → to_unsigned z < 2 ^ 32
unfolding to_unsigned
to_unsigned-lt (pos n) = mod-lt n (omega arith)
to_unsigned-lt (negsuc n) = omega arith

arguments-length : (i n : ℕ) → length (arguments_from i n) ≡ n
unfolding arguments_from
arguments-length i zero = refl
arguments-length i (suc n) = omega (arith, arguments-length (i + 1) n)

fiber_at-arguments_from : (i n k : ℕ) → k < n → fiber_at (arguments_from i n) k ≡ some (i + k + 1)
unfolding fiber_at arguments_from
fiber_at-arguments_from i zero k lt = absurd (omega arith)
fiber_at-arguments_from i (suc n) zero lt = ap some (omega arith)
fiber_at-arguments_from i (suc n) (suc k) lt =
    fiber_at-arguments_from (i + 1) n k (omega arith) ∙ ap some (omega arith)

-- What `main` sets up is sound: there is a processor, there are more fibers than threads with the
-- first one, the array has an entry for each fiber, the fiber at `i` works under the id i + 1, and the
-- countdown starts at their number.
pub record IsSound (p : Plan) : Type 0 where
  pub threads_fewer : p.threads + 1 < p.num_fibers
  pub size : length p.arguments ≡ p.num_fibers
  pub ids : (i : ℕ) → i < p.num_fibers → fiber_at p.arguments i ≡ some (i + 1)
  pub countdown : p.completed_fibers ≡ p.num_fibers
  pub in_range : p.num_fibers < 2 ^ 32

threads_of-le : (cpus : ℕ) → 1 ≤ cpus → threads_of cpus + 1 ≤ cpus
unfolding threads_of
threads_of-le cpus one = ground (arith, mod-le (cpus - 1) (2 ^ 16))

ids_from_one : (n i : ℕ) → i < n → fiber_at (1 ∷ arguments_from 1 (n - 1)) i ≡ some (i + 1)
unfolding fiber_at
ids_from_one n zero lt = refl
ids_from_one n (suc i) lt =
    fiber_at-arguments_from 1 (n - 1) i (omega arith) ∙ ap some (omega arith)

plan-IsSound :
    (n cpus : ℕ) (warned : Bool) → 1 ≤ cpus → cpus < n → n < 2 ^ 32 → IsSound (plan n cpus warned)
unfolding plan threads_of
plan-IsSound n cpus warned one more lt = record {
  threads_fewer = omega (arith, threads_of-le cpus one);
  size = omega (arith, arguments-length 1 (n - 1));
  ids = ids_from_one n;
  countdown = refl;
  in_range = lt;
}

by_errno :
    (P : Launch → Type 0) (errno : Errno) (x y z : Launch)
    → P x
    → P y
    → P z
    → P (elim errno [ einval ↦ x | erange ↦ y | other ↦ z ])
by_errno P einval x y z a b c = a
by_errno P erange x y z a b c = b
by_errno P other x y z a b c = c

abbrev Sound : ℤ → ℕ → ℤ → Plan → Type 0
Sound online argc number p =
    (2 ≤ argc)
    × (p.num_fibers ≡ to_unsigned number)
    × (to_unsigned online < to_unsigned number)
    × IsSound p

-- What is claimed of a start, in the case that there is one.
abbrev IfStarts : (Plan → Type 0) → Launch → Type 0
IfStarts P (gives_up c) = Unit
IfStarts P (starts p) = P p

enough-Sound :
    (online : ℤ) (argc : ℕ) (number : ℤ) (warned : Bool)
    → 1 ≤ to_unsigned online
    → 2 ≤ argc
    → IfStarts (Sound online argc number) (enough (to_unsigned number) (to_unsigned online) warned)
unfolding enough
enough-Sound online argc number warned one two =
    let n = to_unsigned number in
    let cpus = to_unsigned online in
    if_both (IfStarts (Sound online argc number)) (leb n cpus) (λ few. tt)
      (λ many.
        let more : cpus < n = ground arith in
        (two, refl, more, plan-IsSound n cpus warned one more (to_unsigned-lt number)))

launch-Sound :
    (online : ℤ) (argc : ℕ) (number : ℤ) (errno : Errno)
    → IfStarts (Sound online argc number) (launch online argc number errno)
unfolding launch
launch-Sound online argc number errno =
    let P = IfStarts (Sound online argc number) in
    if_both P (ltb (to_unsigned online) 1) (λ none_on. tt)
      (λ some_on.
        if_both P (ltb argc 2) (λ missing. tt)
          (λ given.
            let ok : (warned : Bool) → P (enough (to_unsigned number) (to_unsigned online) warned) =
              λ warned. enough-Sound online argc number warned (ground arith) (ground arith) in
            if_both P (to_unsigned number == 0)
              (λ nought. by_errno P errno _ _ _ tt (ok true) (ok false)) (λ number_on. ok false)))

-- `main` starts fibers only when it was given a number and this number, as an `unsigned int`, is
-- above the number of processors; and then what it sets up is sound.
pub launch-IsSound :
    (online : ℤ) (argc : ℕ) (number : ℤ) (errno : Errno) (p : Plan)
    → launch online argc number errno ≡ starts p
    → (2 ≤ argc)
      × (p.num_fibers ≡ to_unsigned number)
      × (to_unsigned online < to_unsigned number)
      × IsSound p
unfolding launch enough
launch-IsSound online argc number errno p h =
    subst (IfStarts (Sound online argc number)) h (launch-Sound online argc number errno)

-- Every draw of `random` picks one of the fibers.
pub schedule_lem {ℓ} :
    {A : Type ℓ} (fibers : List A) (draw : ℕ)
    → 0 < length fibers
    → (a : A) × (schedule fibers (length fibers) draw ≡ some a)
unfolding schedule get_random_fiber
schedule_lem fibers draw some_fibers = there fibers (draw % length fibers) (mod-lt draw some_fibers)
  where
    there : {A : Type ℓ} (l : List A) (i : ℕ) → i < length l → (a : A) × (fiber_at l i ≡ some a)
    there [] i lt = absurd (omega arith)
    there (x ∷ rest) zero lt = (x, refl)
    there (x ∷ rest) (suc i) lt = there rest i (omega arith)

-- When `sysconf` fails, with -1, `main` does not say so, whatever it was given: with a number it
-- asks for more fibers than an `unsigned int` can count.
pub launch-failed_sysconf :
    (argc : ℕ) (number : ℤ) (errno : Errno)
    → (launch (negsuc 0) argc number errno ≡ gives_up usage)
      ⊎ (launch (negsuc 0) argc number errno ≡ gives_up invalid_number)
      ⊎ (launch (negsuc 0) argc number errno ≡ gives_up (few_fibers 0))
unfolding launch enough to_unsigned
launch-failed_sysconf argc number errno =
    let n = to_unsigned number in
    let few : (w : Bool) → enough n (to_unsigned (negsuc 0)) w ≡ gives_up (few_fibers 0) =
      λ w. ground (arith, to_unsigned-lt number) in
    let P : Launch → Type 0 =
      λ l. (l ≡ gives_up usage) ⊎ (l ≡ gives_up invalid_number) ⊎ (l ≡ gives_up (few_fibers 0)) in
    if_both P (ltb argc 2) (λ missing. inl refl)
      (λ given.
        if_both P (n == 0)
          (λ nought.
            by_errno P errno _ _ _ (inr (inl refl)) (inr (inr (few true))) (inr (inr (few false))))
          (λ number_on. inr (inr (few false))))

-- A number that is too large for `strtoll`, which then returns 2^63 - 1, is not warned of.
pub launch-out_of_range :
    (online : ℤ) (argc : ℕ) (p : Plan)
    → launch online argc (pos (2 ^ 63 - 1)) erange ≡ starts p
    → (p.warned ≡ false) × (p.num_fibers ≡ 2 ^ 32 - 1)
unfolding launch enough to_unsigned plan
launch-out_of_range online argc p h =
    let Q : Plan → Type 0 = λ p. (p.warned ≡ false) × (p.num_fibers ≡ 2 ^ 32 - 1) in
    subst (IfStarts Q) h (
      if_both (IfStarts Q) (ltb (to_unsigned online) 1) (λ none_on. tt)
        (λ some_on.
          if_both (IfStarts Q) (ltb argc 2) (λ missing. tt)
            (λ given.
              if_both (IfStarts Q) (leb (2 ^ 32 - 1) (to_unsigned online)) (λ few. tt)
                (λ many. (refl, refl)))))
