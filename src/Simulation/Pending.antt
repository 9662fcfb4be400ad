-- ===== src/Simulation/Pending.antt =====
-- The events that wait in the queue of a fiber of multi_thread/src/main.c, counted.
use mathlib.Core.List.{Perm}
use linux_fibers.Prelude.{
  ℕ, ◌≡◌, sym, ◌∙◌, Bool, true, false, List, none, some, ◌==◌, if◌then◌else◌,
}
use linux_fibers.Prelude.Bags.{count, weight-perm}
use linux_fibers.Reals.{Reals}
use linux_fibers.Cell.State.{Cell}
use linux_fibers.Cell.Events.{init, start_call, end_call, unknown, Msg}
use linux_fibers.Cell.Bookkeeping.{held}
use linux_fibers.Cell.Calls.{IsValidCell}

module _ (F : Reals) where
  -- The event starts a call.
  unfoldable pub is_start : Msg F → Bool
  is_start e = elim e.kind [ start_call ↦ true | _ ↦ false ]

  -- The event ends the call on the channel `j`.
  unfoldable pub is_end : ℕ → Msg F → Bool
  is_end j e = elim e.kind [
    | end_call ↦ elim e.channel [ none ↦ false | some ch ↦ ch == j ]
    | _ ↦ false
  ]

  -- The event is none of those that a fiber has after its first one: it starts no call, and ends
  -- none on a channel, or is for another fiber.
  unfoldable pub is_stray : ℕ → Msg F → Bool
  is_stray id e =
      if e.receiver == id
      then elim e.kind [
        | start_call ↦ false
        | end_call ↦ elim e.channel [ none ↦ true | some ch ↦ false ]
        | init ↦ true
        | unknown n ↦ true
      ]
      else true

  -- The cell is valid, one event starts a call, each channel that a call holds has one event that
  -- ends the call, and there are no others.
  pub record IsPending (id : ℕ) (c : Cell F) (bag : List (Msg F)) : Type 0 where
    pub valid : IsValidCell F c
    pub one_start : count is_start bag ≡ 1
    pub one_end : (j : ℕ) → count (is_end j) bag ≡ (if held F j c then 1 else 0)
    pub no_stray : count (is_stray id) bag ≡ 0

  pub IsPending-perm :
      (id : ℕ) (c : Cell F) (a b : List (Msg F)) → Perm a b → IsPending id c a → IsPending id c b
  IsPending-perm id c a b p v = record {
    valid = v.valid;
    one_start = sym (weight-perm _ p) ∙ v.one_start;
    one_end = λ j. sym (weight-perm _ p) ∙ v.one_end j;
    no_stray = sym (weight-perm _ p) ∙ v.no_stray;
  }
