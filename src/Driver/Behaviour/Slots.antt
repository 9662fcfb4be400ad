-- ===== src/Driver/Behaviour/Slots.antt =====
-- Fiber-local storage of multi_thread/Module/fiber_ioctl.c: the allocation of a slot.
use linux_fibers.Prelude.{
  ℕ, zero, suc, ◌+◌, ◌≡◌, ◌<◌, ◌≤◌, ◌≢◌, refl, sym, ap, ◌∙◌, Bool, true, false, some, pos, arith,
  Bool-cases, inl, inr, ◌==◌, ==_iff,
}
use linux_fibers.Prelude.Table.{find, find-modify, find-key}
use linux_fibers.Driver.State.{
  max_fls, bitmap_bits, Fiber, Thread, Process, Kernel, fiber_key, search_process, search_thread,
  update_fiber, put_process,
}
use linux_fibers.Driver.Task.{Task, Outcome, return, minus_one}
use linux_fibers.Driver.Fls.{
  test_bit, first_zero, find_first_zero_bit, take_slot, with_fiber, write_fiber, fls_alloc_in,
  fls_alloc,
}
use linux_fibers.Driver.Behaviour.Resume.{search_process-put_process}

-- The scan stops at the first zero, and finds it if there is one.
first_zero_lem :
    (fuel i j : ℕ) (bit : ℕ → Bool)
    → i ≤ j
    → j < i + fuel
    → bit j ≡ false
    → (first_zero fuel i bit ≤ j)
      × (i ≤ first_zero fuel i bit)
      × (bit (first_zero fuel i bit) ≡ false)
unfolding first_zero
first_zero_lem zero i j bit a b clear = absurd (omega arith)
first_zero_lem (suc fuel) i j bit a b clear = elim (Bool-cases (bit i)) [
  | inr here ↦ rw here (a, omega arith, here)
  | inl taken ↦
      let other : i ≢ j = λ e. ground arith in
      let (x, y, z) = first_zero_lem fuel (i + 1) j bit (omega arith) (omega arith) clear in
      rw taken (x, omega arith, z)
]

-- Every slot below the one found is taken.
first_zero_least :
    (fuel i j : ℕ) (bit : ℕ → Bool) → i ≤ j → j < first_zero fuel i bit → bit j ≡ true
unfolding first_zero
first_zero_least zero i j bit a b = absurd (omega arith)
first_zero_least (suc fuel) i j bit a b = elim (Bool-cases (bit i)) [
  | inr here ↦ absurd (omega (arith, rw here at b))
  | inl taken ↦ elim (Bool-cases (i == j)) [
    | inl same ↦ ap bit (sym ((==_iff i j).0 same)) ∙ taken
    | inr other ↦ first_zero_least fuel (i + 1) j bit (ground arith) (rw taken at b)
  ]
]

-- The calling thread is converted: its process `p`, its entry `t`, and its active fiber `f`.
pub record Located (c : Task) (k : Kernel) (p : Process) (t : Thread) (f : Fiber) : Type 0 where
  pub process : search_process c.tgid k ≡ some p
  pub thread : search_thread c.pid p ≡ some t
  pub fiber : find fiber_key t.active_fiber p.fibers ≡ some f

pub with_fiber_lem :
    (c : Task) (k : Kernel) (p : Process) (t : Thread) (f : Fiber)
    → Located c k p t f
    → (no_process no_thread : Outcome) (body : Process → Fiber → Outcome)
    → with_fiber c k no_process no_thread body ≡ body p f
unfolding with_fiber
with_fiber_lem c k p t f here no_process no_thread body =
    rw (here.process, with_fiber) (rw (here.thread, here.fiber))

-- After a write to the active fiber another call of the thread finds what was written.
pub Located-write_fiber :
    (c d : Task) (k : Kernel) (p : Process) (t : Thread) (f : Fiber) (g : Fiber → Fiber)
    → Located c k p t f
    → d.tgid ≡ c.tgid
    → d.pid ≡ c.pid
    → ((h : Fiber) → (g h).index ≡ h.index)
    → Located d (write_fiber f g p k) (update_fiber f.index g p) t (g f)
unfolding write_fiber
Located-write_fiber c d k p t f g here same_tgid same_pid keeps = record {
  process =
      ap (λ q. search_process q (put_process (update_fiber f.index g p) k)) same_tgid
      ∙ search_process-put_process c.tgid k (update_fiber f.index g p) p
          (unfold update_fiber in refl) here.process;
  thread =
      ap (λ q. search_thread q (update_fiber f.index g p)) same_pid
      ∙ unfold update_fiber search_thread in here.thread;
  fiber = found;
}
  where
    own : f.index ≡ t.active_fiber
    own = find-key fiber_key t.active_fiber p.fibers f here.fiber

    found : find fiber_key t.active_fiber (update_fiber f.index g p).fibers ≡ some (g f)
    found =
        unfold update_fiber in
        (find-modify fiber_key f.index t.active_fiber g p.fibers keeps
          ∙ ground (arith, own, here.fiber))

pub test_bit_low :
    (c : Task) (f : Fiber) (i : ℕ) → i < bitmap_bits → test_bit c f i ≡ f.fls_bitmap i
unfolding test_bit
test_bit_low c f i low = ground arith

fls_alloc_in_lem :
    (c : Task) (k : Kernel) (p : Process) (f : Fiber)
    → find_first_zero_bit c f < bitmap_bits
    → fls_alloc_in c k p f
      ≡ return c
          (pos (find_first_zero_bit c f))
          (write_fiber f (take_slot (find_first_zero_bit c f)) p k)
unfolding fls_alloc_in
fls_alloc_in_lem c k p f low = ground arith

found_slot :
    (c : Task) (f : Fiber) (i : ℕ)
    → i < bitmap_bits
    → f.fls_bitmap i ≡ false
    → (find_first_zero_bit c f ≤ i)
      × (f.fls_bitmap (find_first_zero_bit c f) ≡ false)
      × ((j : ℕ) → j < find_first_zero_bit c f → f.fls_bitmap j ≡ true)
unfolding find_first_zero_bit
found_slot c f i low free =
    let (below, _, zero_bit) =
      first_zero_lem max_fls 0 i (test_bit c f) (omega arith) (omega arith)
        (test_bit_low c f i low ∙ free) in
    (
      below,
      sym (test_bit_low c f _ (omega (arith, below))) ∙ zero_bit,
      λ j h.
          sym (test_bit_low c f j (omega (arith, below, h)))
          ∙ first_zero_least max_fls 0 j (test_bit c f) (omega arith) h,
    )

take_slot_lem :
    (index : ℕ) (f : Fiber)
    → f.fls_bitmap index ≡ false
    → ((take_slot index f).fls_bitmap index ≡ true) × ((take_slot index f).fls_array index ≡ 0)
unfolding take_slot
take_slot_lem index f clear = (ground arith, ground arith)

-- A converted thread of whose active fiber some slot i below 64 is free allocates one: the call
-- returns an index, not above i, whose slot was free while every slot below it was taken; after the
-- call that slot is taken and holds 0.
pub fls_alloc_lem :
    (c : Task) (k : Kernel) (p : Process) (t : Thread) (f : Fiber) (i : ℕ)
    → Located c k p t f
    → i < bitmap_bits
    → f.fls_bitmap i ≡ false
    → (index : ℕ) × (k' : Kernel) × (p' : Process) × (f' : Fiber) × (fls_alloc c k
        ≡ return c (pos index) k')
      × (index ≤ i)
      × (f.fls_bitmap index ≡ false)
      × ((j : ℕ) → j < index → f.fls_bitmap j ≡ true)
      × Located c k' p' t f'
      × (f'.fls_bitmap index ≡ true)
      × (f'.fls_array index ≡ 0)
fls_alloc_lem c k p t f i here low free =
    let index : ℕ = find_first_zero_bit c f in
    let (below, clear, least) = found_slot c f i low free in
    let (taken, zeroed) = take_slot_lem index f clear in
    (
      index,
      write_fiber f (take_slot index) p k,
      update_fiber f.index (take_slot index) p,
      take_slot index f,
      unfold fls_alloc in
          (with_fiber_lem c k p t f here (return c minus_one k) (return c minus_one k)
              (fls_alloc_in c k)
            ∙ fls_alloc_in_lem c k p f (omega (arith, below))),
      below,
      clear,
      least,
      Located-write_fiber c c k p t f (take_slot index) here refl refl
          (λ h. unfold take_slot in refl),
      taken,
      zeroed,
    )
