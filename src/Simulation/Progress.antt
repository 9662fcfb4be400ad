-- ===== src/Simulation/Progress.antt =====
-- One event of `main_loop` in multi_thread/src/main.c: the events that wait before and after it.
use linux_fibers.Prelude.{
  ℕ, ◌≡◌, refl, Bool, true, false, List, [], ◌∷◌, Option, none, some, length, ◌==◌, ==_iff,
  if◌then◌else◌, arith, inl, inr,
}
use linux_fibers.Prelude.Table.{find}
use linux_fibers.Prelude.Bags.{count}
use linux_fibers.Reals.{Reals}
use linux_fibers.Cell.State.{Channel, Cell, channel_key}
use linux_fibers.Cell.Events.{
  Kind, init, start_call, end_call, unknown, all_calls, Msg, Answer, pack_event, process_event,
}
use linux_fibers.Cell.Bookkeeping.{held}
use linux_fibers.Cell.Counting.{listed_in}
use linux_fibers.Cell.Calls.{IsValidCell, IsBlocked, IsCarried, call_starts}
use linux_fibers.Cell.Endings.{call_ends, cell_begins}
use linux_fibers.Simulation.Pending.{is_start, is_end, is_stray, IsPending}

module _ (F : Reals) where
  -- The list after these events are put in front of it, one after another.
  abbrev pub added : List (Msg F) → List (Msg F) → List (Msg F)
  added [] bag = bag
  added (e ∷ rest) bag = added rest (e ∷ bag)

  -- The events that wait are those of a cell again, and the end of the work is told only of a cell
  -- with all its calls complete.
  pub record Goes (id : ℕ) (rest : List (Msg F)) (a : Answer F) : Type 0 where
    pub pending : IsPending F id a.cell (added a.events rest)
    pub at_end : a.finished ≡ true → a.cell.complete_calls ≡ all_calls

  module _ (stale : F.R) (garbage : ℕ → ℕ → Bool) (id : ℕ) (c : Cell F) (seed : F.Seed) (e : Msg F)
      (rest : List (Msg F)) (v : IsPending F id c (e ∷ rest)) where
    mine : (e.receiver == id) ≡ true
    unfolding is_stray
    mine = ground (arith, v.no_stray)

    abbrev Step : Type 0
    Step =
        (a : Answer F) × (process_event F stale garbage e (some c) seed ≡ some a) × Goes id rest a

    pub to_fiber : e.receiver ≡ id
    to_fiber = (==_iff e.receiver id).0 mine

    no_stray_left : count (is_stray F id) rest ≡ 0
    no_stray_left = ground (arith, v.no_stray)

    -- The event starts a call: what waits behind it.
    start_left :
        e.kind ≡ start_call
        → (count (is_start F) rest ≡ 0)
          × ((j : ℕ) → count (is_end F j) rest ≡ (if held F j c then 1 else 0))
    unfolding is_start is_end
    start_left k =
        let on : is_start F e ≡ true = rw k refl in
        let off : (j : ℕ) → is_end F j e ≡ false = λ j. rw k refl in
        (ground (arith, v.one_start, on), λ j. ground (arith, v.one_end j, off j))

    -- No channel is free.
    blocked_next :
        e.kind ≡ start_call
        → (a : Answer F) → IsValidCell F a.cell
        → a.finished ≡ false
        → IsBlocked F e.receiver c a
        → Goes id rest a
    unfolding is_start is_end is_stray pack_event
    blocked_next k a valid on (full, x, same, (stamp, next)) =
        let (none_left, ends_left) = start_left k in
        record {
          pending = record {
            valid = valid;
            one_start = rw next (omega (arith, none_left));
            one_end = λ j. rw (next, same) (omega (arith, ends_left j));
            no_stray = rw next (ground (arith, mine, no_stray_left));
          };
          at_end = λ h. absurd (ground (arith, on));
        }

    -- The call gets a channel.
    carried_next :
        e.kind ≡ start_call
        → (a : Answer F) → IsValidCell F a.cell
        → a.finished ≡ false
        → IsCarried F e.receiver c a
        → Goes id rest a
    unfolding is_start is_end is_stray pack_event
    carried_next k a valid on (ch, free, now_held, (stamp, stamp', next)) =
        let (none_left, ends_left) = start_left k in
        record {
          pending = record {
            valid = valid;
            one_start = rw next (omega (arith, none_left));
            one_end = λ j. rw next (ground (arith, ends_left j, now_held j, ends_left ch, free));
            no_stray = rw next (ground (arith, mine, no_stray_left));
          };
          at_end = λ h. absurd (ground (arith, on));
        }

    starts_next : e.kind ≡ start_call → Step
    starts_next k =
        let (a, is, on, valid, how) = call_starts F stale garbage e c seed k v.valid in
        elim how [
          | inl b ↦ (a, is, blocked_next k a valid on b)
          | inr b ↦ (a, is, carried_next k a valid on b)
        ]

    -- The event ends a call: what waits behind it.
    end_left :
        (ch : ℕ)
        → e.kind ≡ end_call
        → e.channel ≡ some ch
        → (held F ch c ≡ true)
          × (count (is_start F) rest ≡ 1)
          × ((j : ℕ)
              → count (is_end F j) rest ≡ (if ch == j then 0 else (if held F j c then 1 else 0)))
    unfolding is_start is_end
    end_left ch k at =
        let off : is_start F e ≡ false = rw k refl in
        let on : (j : ℕ) → is_end F j e ≡ (ch == j) = λ j. rw (k, at) refl in
        let busy : held F ch c ≡ true = ground (arith, v.one_end ch, on ch) in
        (busy, ground (arith, v.one_start, off), λ j. ground (arith, v.one_end j, on j, busy))

    ends_one : (ch : ℕ) → e.kind ≡ end_call → e.channel ≡ some ch → Step
    ends_one ch k at =
        let (busy, one_left, ends_left) = end_left ch k at in
        let (a, is, valid, now_held, none_new, total, on) =
          call_ends F stale garbage e c seed ch k at v.valid busy in
        (
          a,
          is,
          record {
            pending = record {
              valid = valid;
              one_start = rw none_new one_left;
              one_end = λ j. rw none_new (ground (arith, ends_left j, now_held j));
              no_stray = rw none_new no_stray_left;
            };
            at_end = λ h. ground (arith, on, total);
          },
        )

    not_stray : is_stray F id e ≡ false
    not_stray = ground (arith, v.no_stray)

    by_channel : (ch : Option ℕ) → e.kind ≡ end_call → e.channel ≡ ch → Step
    unfolding is_stray
    by_channel none k at = absurd (ground (arith, not_stray, mine, k, at))
    by_channel (some ch) k at = ends_one ch k at

    by_kind : (k : Kind) → e.kind ≡ k → Step
    unfolding is_stray
    by_kind init k = absurd (ground (arith, not_stray, mine, k))
    by_kind start_call k = starts_next k
    by_kind end_call k = by_channel e.channel k refl
    by_kind (unknown n) k = absurd (ground (arith, not_stray, mine, k))

    -- Any event that waits.
    pub goes_on : Step
    goes_on = by_kind e.kind refl

  held_none : (j : ℕ) (c : Cell F) → length c.channels ≡ 0 → held F j c ≡ false
  unfolding find
  held_none j c = nobody c.channels
    where
      nobody : (xs : List (Channel F)) → length xs ≡ 0 → listed_in (channel_key F) j xs ≡ false
      nobody [] h = refl
      nobody (x ∷ xs) h = absurd (omega arith)

  -- The first event of a fiber.
  pub first_goes_on :
      (stale : F.R) (garbage : ℕ → ℕ → Bool) (id : ℕ) (seed : F.Seed) (e : Msg F)
      → e.kind ≡ init
      → e.receiver ≡ id
      → (a : Answer F) × (process_event F stale garbage e none seed ≡ some a)
        × IsPending F id a.cell (added a.events [])
        × (a.finished ≡ false)
  unfolding is_start is_end is_stray pack_event
  first_goes_on stale garbage id seed e k to =
      let (a, is, valid, free, on, stamp, next) = cell_begins F stale garbage e none seed k in
      (
        a,
        is,
        record {
          valid = valid;
          one_start = rw next refl;
          one_end = λ j.
              rw (next, held_none j a.cell (omega (arith, valid.counter, valid.size, free))) refl;
          no_stray = rw next (ground (arith, to));
        },
        on,
      )
