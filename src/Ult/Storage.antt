-- ===== src/Ult/Storage.antt =====
-- `fls_alloc`, `fls_get`, `fls_set` and `fls_free` of multi_thread/src/ult.c: one array for the whole
-- program, and a counter.
use linux_fibers.Prelude.{
  ℕ, ◌+◌, ◌-◌, ◌%◌, ◌^◌, ◌≡◌, ◌≢◌, ◌<◌, ◌≤◌, refl, Bool, true, false, List, [], ◌∷◌, Option, none,
  some, ltb, leb, ◌==◌, sym, if◌then◌else◌, update, length, ℤ, pos, negsuc, arith, ◌∙◌,
}
use linux_fibers.Prelude.{Option-cases, inl, inr, ap}

-- `fls`, of which the places below `max_slots` count, and the bits of `fls_idx`, a `long` that wraps.
pub record Slots : Type 0 where
  pub fls : ℕ → ℕ
  pub fls_idx : ℕ

abbrev pub max_slots : ℕ
max_slots = 4096

-- 64 bits as a `long`.
unfoldable pub signed : ℕ → ℤ
signed x = if ltb x (2 ^ 63) then pos x else negsuc (2 ^ 64 - 1 - x)

-- `ret >= MAX_FLS`
unfoldable pub too_many : ℤ → Bool
too_many (pos n) = leb max_slots n
too_many (negsuc n) = false

-- `__sync_fetch_and_add(&fls_idx, 1)`, one step.
unfoldable pub fls_alloc : Slots → ℤ × Slots
unfolding signed too_many
fls_alloc s =
    let ret = signed s.fls_idx in
    (if too_many ret then negsuc 0 else ret, record s { fls_idx = (s.fls_idx + 1) % 2 ^ 64 })

-- `none`: a place outside the array is read or written.
unfoldable pub fls_get : ℤ → Slots → Option ℕ
fls_get (pos idx) s = if ltb idx max_slots then some (s.fls idx) else none
fls_get (negsuc idx) s = none

unfoldable pub fls_set : ℤ → ℕ → Slots → Option Slots
fls_set (pos idx) value s =
    if ltb idx max_slots then some (record s { fls = update s.fls idx value }) else none
fls_set (negsuc idx) value s = none

-- Nothing is freed.
unfoldable pub fls_free : ℤ → Slots → Bool × Slots
fls_free idx s = (true, s)

-- One call, of any thread.
pub data Call : Type 0 where
  alloc : Call
  set : ℤ → ℕ → Call
  free : ℤ → Call

unfoldable pub call : Call → Slots → Option Slots
unfolding fls_alloc fls_set fls_free
call alloc s = some (fls_alloc s).1
call (set idx value) s = fls_set idx value s
call (free idx) s = some (fls_free idx s).1

-- `none`: one of them writes outside the array.
unfoldable pub calls : List Call → Slots → Option Slots
unfolding call
calls [] s = some s
calls (c ∷ cs) s = elim (call c s) [ none ↦ none | some s1 ↦ calls cs s1 ]

-- The index is `i`.
abbrev is_slot : ℕ → ℤ → Bool
is_slot i (pos n) = i == n
is_slot i (negsuc n) = false

-- No call writes to the slot `i`.
abbrev pub spares : ℕ → List Call → Bool
spares i [] = true
spares i (set idx value ∷ cs) = if is_slot i idx then false else spares i cs
spares i (alloc ∷ cs) = spares i cs
spares i (free idx ∷ cs) = spares i cs

same_slots : {s s' : Slots} → some s ≡ some s' → s ≡ s'
same_slots {s} e = ap (the_slots s) e
  where
    the_slots : Slots → Option Slots → Slots
    the_slots d none = d
    the_slots d (some x) = x

-- The counter does not go down, and the slot `i` keeps its value.
abbrev Keeps : ℕ → ℕ → Slots → Slots → Type 0
Keeps i n s s' = (s.fls_idx ≤ s'.fls_idx) × (s'.fls_idx ≤ s.fls_idx + n) × (s'.fls i ≡ s.fls i)

set-Keeps :
    (i value : ℕ) (idx : ℤ) (s s' : Slots)
    → is_slot i idx ≡ false
    → fls_set idx value s ≡ some s'
    → (s'.fls_idx ≡ s.fls_idx) × (s'.fls i ≡ s.fls i)
unfolding fls_set
set-Keeps i value (pos n) s s' other e =
    let inside : ltb n max_slots ≡ true = ground arith in
    let is : some (record s { fls = update s.fls n value }) ≡ some s' = ground arith in
    let same : record s { fls = update s.fls n value } ≡ s' = same_slots is in
    (sym (ap (λ x. x.fls_idx) same), sym (ap (λ x. x.fls i) same) ∙ ground arith)
set-Keeps i value (negsuc n) s s' other e = absurd (ground arith)

call-Keeps :
    (i : ℕ) (c : Call) (cs : List Call) (s s' : Slots)
    → spares i (c ∷ cs) ≡ true
    → s.fls_idx + 1 < 2 ^ 63
    → call c s ≡ some s'
    → Keeps i 1 s s' × (spares i cs ≡ true)
unfolding call fls_alloc fls_free
call-Keeps i alloc cs s s' spared room e =
    let same = same_slots e in
    let idx : (s.fls_idx + 1) % 2 ^ 64 ≡ s'.fls_idx = ap (λ x. x.fls_idx) same in
    ((omega arith, omega arith, sym (ap (λ x. x.fls i) same)), spared)
call-Keeps i (set idx value) cs s s' spared room e =
    let (counter, kept) = set-Keeps i value idx s s' (ground arith) e in
    ((omega arith, omega arith, kept), ground arith)
call-Keeps i (free idx) cs s s' spared room e =
    let same = same_slots e in
    let counter : s.fls_idx ≡ s'.fls_idx = ap (λ x. x.fls_idx) same in
    ((omega arith, omega arith, sym (ap (λ x. x.fls i) same)), spared)

calls-Keeps :
    (i : ℕ) (cs : List Call) (s s' : Slots)
    → spares i cs ≡ true
    → s.fls_idx + length cs < 2 ^ 63
    → calls cs s ≡ some s'
    → Keeps i (length cs) s s'
unfolding calls
calls-Keeps i [] s s' spared room e =
    let same = same_slots e in
    let counter : s.fls_idx ≡ s'.fls_idx = ap (λ x. x.fls_idx) same in
    (omega arith, omega arith, sym (ap (λ x. x.fls i) same))
calls-Keeps i (c ∷ cs) s s' spared room e = elim (Option-cases (call c s)) [
  | inl stray ↦ absurd (ground (arith, stray))
  | inr (s1, first) ↦
      let (k, left) = call-Keeps i c cs s s1 spared (omega arith) first in
      let rest : calls cs s1 ≡ some s' = ground (arith, first) in
      let (low, high, kept) = calls-Keeps i cs s1 s' left (omega (arith, k.1)) rest in
      (omega (arith, k.0), omega (arith, k.1), kept ∙ k.2)
]

-- The array with the value in its place `i`.
abbrev pub stored : ℕ → ℕ → Slots → Slots
stored i value s = record s { fls = update s.fls i value }

-- A slot that an allocation gives can be set: it is a place of the array. Once a fiber has set it, let
-- other calls follow, none of which sets this slot or writes outside the array, and so few that the
-- counter cannot reach 2 ^ 63: the slot keeps its value, frees of it included, and the next allocation
-- does not give it again.
pub own_slot :
    (s s' : Slots) (i value : ℕ) (cs : List Call)
    → (fls_alloc s).0 ≡ pos i
    → calls cs (stored i value (fls_alloc s).1) ≡ some s'
    → spares i cs ≡ true
    → s.fls_idx + 1 + length cs < 2 ^ 63
    → (fls_set (pos i) value (fls_alloc s).1 ≡ some (stored i value (fls_alloc s).1))
      × (fls_get (pos i) s' ≡ some value)
      × ((fls_alloc s').0 ≢ pos i)
unfolding fls_alloc fls_get fls_set signed too_many
own_slot s s' i value cs first between spared room =
    let low : s.fls_idx ≡ i = ground arith in
    let inside : ltb i max_slots ≡ true = ground arith in
    let (up, down, kept) =
      calls-Keeps i cs (stored i value (fls_alloc s).1) s' spared (omega arith) between in
    (rw inside refl, rw inside (ap some (kept ∙ ground arith)), λ again. ground arith)
