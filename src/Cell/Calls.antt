-- ===== src/Cell/Calls.antt =====
-- A cell of multi_thread/src/model.c, its counters, channels and events, when a call arrives.
use linux_fibers.Prelude.{
  ℕ, ◌+◌, ◌-◌, ◌%◌, ◌≡◌, ◌≢◌, refl, Bool, true, false, List, [], ◌∷◌, none, some, length,
  if◌then◌else◌, ◌==◌, arith, Bool-cases, ◌⊎◌, inl, inr, ==_iff,
}
use linux_fibers.Reals.{Reals}
use linux_fibers.Cell.State.{Cell}
use linux_fibers.Cell.Channels.{allocation, recompute_ta}
use linux_fibers.Cell.Events.{
  start_call, end_call, width, all_channels, up, Msg, Answer, pack_event, executed, next_call,
  starts, process_event,
}
use linux_fibers.Cell.Bookkeeping.{held, IsAgreed, allocated_cell, allocation_lem}

module _ (F : Reals) where
  -- Free channels and held ones are all channels, and every call that arrived is complete, was
  -- blocked, or holds a channel, counted in 32 bits.
  pub record IsValidCell (c : Cell F) : Type 0 where
    pub agreed : IsAgreed F c
    pub counter : c.channel_counter + length c.channels ≡ c.channels_per_cell
    pub size : c.channels_per_cell ≡ all_channels
    pub calls :
        c.arriving_calls ≡ (c.complete_calls + c.blocked_on_setup + length c.channels) % width

  -- Only the next call is put into the queue.
  abbrev pub StartsNext : ℕ → List (Msg F) → Type 0
  StartsNext me events = (stamp : F.R) × (events ≡ pack_event F me start_call stamp none ∷ [])

  -- The event that ends the call on the channel `ch` is put into the queue, then the next call.
  abbrev pub EndsAt : ℕ → ℕ → List (Msg F) → Type 0
  EndsAt me ch events =
      (stamp : F.R) × (next : F.R) × (events
        ≡ pack_event F me end_call stamp (some ch) ∷ pack_event F me start_call next none ∷ [])

  -- No channel is free: the call is counted as blocked, and no channel changes hands.
  abbrev pub IsBlocked : ℕ → Cell F → Answer F → Type 0
  IsBlocked me s a =
      (s.channel_counter ≡ 0)
      × (a.cell.blocked_on_setup ≡ up s.blocked_on_setup)
      × (a.cell.channels ≡ s.channels)
      × StartsNext me a.events

  -- The call holds a channel that nobody held before, and no other channel changes hands.
  abbrev pub IsCarried : ℕ → Cell F → Answer F → Type 0
  IsCarried me s a =
      (ch : ℕ) × (held F ch s ≡ false)
      × ((j : ℕ) → held F j a.cell ≡ (if ch == j then true else held F j s))
      × EndsAt me ch a.events

  module _ (stale : F.R) (me : ℕ) (now : F.R) (s : Cell F) (seed : F.Seed) (v : IsValidCell s) where
    abbrev arrived : Cell F
    arrived = record s { arriving_calls = up s.arriving_calls }

    blocked :
        s.channel_counter ≡ 0
        → (a : Answer F) × (starts F stale me now s seed ≡ some a)
          × (a.finished ≡ false)
          × IsValidCell a.cell
          × IsBlocked me s a
    unfolding starts next_call
    blocked full =
        let s1 : Cell F = record arrived { blocked_on_setup = up s.blocked_on_setup } in
        (
          next_call F me now s1 [] seed,
          ground arith,
          refl,
          record {
            agreed = record {
              bits_agree = v.agreed.bits_agree;
              distinct = v.agreed.distinct;
              in_range = v.agreed.in_range;
            };
            counter = v.counter;
            size = v.size;
            calls = omega (arith, v.calls);
          },
          (full, refl, refl, (F.add now (F.expent (recompute_ta F s.ref_ta now) seed).0, refl)),
        )

    abbrev serving : Cell F
    serving = record arrived { channel_counter = s.channel_counter - 1 }

    -- A call that gets a channel.
    served :
        (ch : ℕ) (s2 : Cell F) (seed2 : F.Seed)
        → (s.channel_counter == 0) ≡ false
        → allocation F stale serving (F.expent s.ta_duration seed).1 ≡ some ((ch, s2), seed2)
        → starts F stale me now s seed
          ≡ some (
              next_call F me now s2
                (pack_event F me end_call (F.add now (F.expent s.ta_duration seed).0) (some ch)
                  ∷ [])
                seed2)
    unfolding starts
    served ch s2 seed2 room e = rw (room, e) refl

    carried :
        s.channel_counter ≢ 0
        → (a : Answer F) × (starts F stale me now s seed ≡ some a)
          × (a.finished ≡ false)
          × IsValidCell a.cell
          × IsCarried me s a
    unfolding starts next_call
    carried room =
        let (duration, seed1) = F.expent s.ta_duration seed in
        let s1 : Cell F = serving in
        let (ch, seed2, e, low, nobody, lowest, now_on) =
          allocation_lem F stale s1 seed1
            (record {
              bits_agree = v.agreed.bits_agree;
              distinct = v.agreed.distinct;
              in_range = v.agreed.in_range;
            })
            (omega (arith, v.counter)) in
        let s2 : Cell F = allocated_cell F ch stale s1 seed1 in
        (
          next_call F me now s2 (pack_event F me end_call (F.add now duration) (some ch) ∷ [])
              seed2,
          served ch s2 seed2 (ground arith) e,
          refl,
          record {
            agreed = record {
              bits_agree = now_on.agreed.bits_agree;
              distinct = now_on.agreed.distinct;
              in_range = now_on.agreed.in_range;
            };
            counter = omega (arith, v.counter, now_on.one_more);
            size = v.size;
            calls = omega (arith, v.calls, now_on.one_more);
          },
          (
            ch,
            nobody,
            now_on.now_held,
            (F.add now duration, F.add now (F.expent (recompute_ta F s2.ref_ta now) seed2).0, refl),
          ),
        )

  -- A call arrives in a valid cell: the program goes on, the cell is valid again, and either no
  -- channel was free, and the call is counted as blocked and no channel changes hands, or the call
  -- holds a channel that nobody held before, no other channel changes hands, and the event that will
  -- free this channel is put into the queue. In both cases the next call is put into it, last.
  pub call_starts :
      (stale : F.R) (garbage : ℕ → ℕ → Bool) (msg : Msg F) (s : Cell F) (seed : F.Seed)
      → msg.kind ≡ start_call
      → IsValidCell s
      → (a : Answer F) × (process_event F stale garbage msg (some s) seed ≡ some a)
        × (a.finished ≡ false)
        × IsValidCell a.cell
        × (IsBlocked msg.receiver s a ⊎ IsCarried msg.receiver s a)
  unfolding process_event executed
  call_starts stale garbage msg s seed is_start v =
      let t : Cell F = executed F msg.timestamp s in
      let w : IsValidCell t = record {
        agreed = record {
          bits_agree = v.agreed.bits_agree;
          distinct = v.agreed.distinct;
          in_range = v.agreed.in_range;
        };
        counter = v.counter;
        size = v.size;
        calls = v.calls;
      } in
      elim (Bool-cases (s.channel_counter == 0)) [
        | inl full ↦
            let zero_free : s.channel_counter ≡ 0 = (==_iff _ _).0 full in
            let (a, e, on, x, y) = blocked stale msg.receiver msg.timestamp t seed w zero_free in
            (a, rw is_start e, on, x, inl y)
        | inr room ↦
            let (a, e, on, x, y) =
              carried stale msg.receiver msg.timestamp t seed w (ground arith) in
            (a, rw is_start e, on, x, inr y)
      ]
