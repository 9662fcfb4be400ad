-- ===== src/Ult/Tests.antt =====
-- Two threads of multi_thread/src/ult.c: the first converts itself, creates a fiber and goes there,
-- then the second one takes up the fiber that the first has left.
use linux_fibers.Prelude.{
  ℕ, ◌≡◌, ◌≢◌, refl, true, false, Option, none, some, [], ◌∷◌, ◌⊎◌, pos, update, arith,
}
use linux_fibers.Ult.Steps.{
  Place, Machine, work, convert, proceed, go, acquire, ult_lock, ult_unlock, set_jmp, set_jmp_later,
  arriving, long_jmp, allocate, ult_switch_to, begin, begin_outside, step_at, step, initial, Reach,
  at_start,
}
use linux_fibers.Ult.Owners.{owns}
use linux_fibers.Ult.Exclusion.{one_owner}
use linux_fibers.Ult.Contexts.{run, run-Reach, switching, Idle, rest, before, round_trip}
use linux_fibers.Ult.Creation.{creating, ult_creat_lem}
use linux_fibers.Ult.Storage.{
  Slots, signed, too_many, fls_alloc, fls_get, fls_set, fls_free, call, calls, alloc, set, free,
  stored, own_slot,
}

program : Unit {0}
unfolding go acquire ult_lock ult_unlock set_jmp set_jmp_later arriving long_jmp allocate
    ult_switch_to begin begin_outside step_at step initial run signed too_many fls_alloc fls_get
    fls_set fls_free call calls
program = tt

abbrev machine : Option Machine → Machine
machine none = initial
machine (some s) = s

-- The thread 0 executes the fiber 0, with 50 in its registers.
abbrev converted : Machine
converted = machine (run 0 (convert ∷ proceed ∷ proceed ∷ work 50 ∷ []) initial)

reach_converted : Reach converted
unfolding program
reach_converted = run-Reach 0 (convert ∷ proceed ∷ proceed ∷ work 50 ∷ []) converted at_start refl

abbrev created : Machine
created = machine (run 0 (creating 77 88) converted)

reach_created : Reach created
unfolding program
reach_created = run-Reach 0 (creating 77 88) created reach_converted refl

one_owner_example :
    ((created.running 0 ≡ false) × ((t : ℕ) → owns (created.place t) 0 ≡ false))
    ⊎ ((created.running 0 ≡ true)
        × ((t : ℕ) × (owns (created.place t) 0 ≡ true)
            × ((u : ℕ) → owns (created.place u) 0 ≡ true → u ≡ t)))
one_owner_example = one_owner reach_created 0

ult_creat_lem_example :
    (s' : Machine) × (run 0 (creating 77 88) converted ≡ some s')
    × (s'.place 0 ≡ Place.executing 0)
    × (s'.regs 0 ≡ 50)
    × (s'.running 0 ≡ true)
    × (s'.ult_id ≡ 2)
    × (s'.running 1 ≡ false)
    × (s'.context 1 ≡ 88)
unfolding program
ult_creat_lem_example = ult_creat_lem converted reach_converted 0 0 77 88 refl

abbrev left : Machine
left = machine (run 0 (switching 1) created)

abbrev first : Machine
first = machine (step 1 convert left)

abbrev second : Machine
second = machine (step 1 proceed first)

-- The thread 1 executes the fiber 2.
abbrev third : Machine
third = machine (step 1 proceed second)

waits : Idle 0 left third
unfolding program
waits = before refl 1 convert refl (before refl 1 proceed refl (before refl 1 proceed refl rest))

round_trip_example :
    (left.place 0 ≡ Place.executing 1)
    × (left.regs 0 ≡ 88)
    × (s'' : Machine) × (run 1 (switching 0) third ≡ some s'')
    × (s''.place 1 ≡ Place.executing 0)
    × (s''.regs 1 ≡ 50)
unfolding program
round_trip_example =
    round_trip reach_created 0 1 0 1 2 left refl refl (omega arith) refl waits refl refl

abbrev slots : Slots
slots = record { fls = λ _. 0; fls_idx = 2 }

abbrev slots_after : Slots
slots_after = record { fls = update (update (λ _. 0) 2 9) 3 8; fls_idx = 4 }

own_slot_example :
    (fls_set (pos 2) 9 (fls_alloc slots).1 ≡ some (stored 2 9 (fls_alloc slots).1))
    × (fls_get (pos 2) slots_after ≡ some 9)
    × ((fls_alloc slots_after).0 ≢ pos 2)
unfolding program
own_slot_example =
    own_slot slots slots_after 2 9 (alloc ∷ set (pos 3) 8 ∷ free (pos 2) ∷ []) refl refl refl
      (omega arith)
