-- ===== src/Cell/Endings.antt =====
-- A cell of multi_thread/src/model.c when it begins, and when a call ends.
use linux_fibers.Prelude.{
  ℕ, ◌≡◌, refl, Bool, true, false, [], ◌∷◌, Option, none, some, ◌==◌, if◌then◌else◌, arith,
}
use linux_fibers.Prelude.Table.{find}
use linux_fibers.Reals.{Reals}
use linux_fibers.Cell.State.{Cell, check_channel}
use linux_fibers.Cell.Channels.{deallocation}
use linux_fibers.Cell.Events.{
  init, start_call, end_call, all_calls, up, Msg, Answer, pack_event, new_cell, executed, ends,
  process_event,
}
use linux_fibers.Cell.Bookkeeping.{held}
use linux_fibers.Cell.Release.{deallocated_cell, deallocation_lem}
use linux_fibers.Cell.Calls.{IsValidCell}

module _ (F : Reals) where
  abbrev completed : Cell F → Cell F
  completed s = record s {
    channel_counter = up s.channel_counter;
    complete_calls = up s.complete_calls;
  }

  ended :
      (ch : ℕ) (s s2 : Cell F) (seed seed' : F.Seed)
      → deallocation F ch (completed s) seed ≡ some (s2, seed')
      → ends F (some ch) s seed
        ≡ some (record {
          finished = s2.complete_calls == all_calls;
          cell = s2;
          events = [];
          seed = seed';
        })
  unfolding ends
  ended ch s s2 seed seed' e = rw (e, ends) refl

  -- The call that holds a channel of a valid cell ends: the program goes on, the cell is valid again,
  -- the channel is held by nobody and no other one changes hands, no event is put into the queue, one
  -- more call is complete, and the event loop is told to stop exactly when 15000 calls are complete.
  pub call_ends :
      (stale : F.R) (garbage : ℕ → ℕ → Bool) (msg : Msg F) (s : Cell F) (seed : F.Seed) (ch : ℕ)
      → msg.kind ≡ end_call
      → msg.channel ≡ some ch
      → IsValidCell F s
      → held F ch s ≡ true
      → (a : Answer F) × (process_event F stale garbage msg (some s) seed ≡ some a)
        × IsValidCell F a.cell
        × ((j : ℕ) → held F j a.cell ≡ (if ch == j then false else held F j s))
        × (a.events ≡ [])
        × (a.cell.complete_calls ≡ up s.complete_calls)
        × (a.finished ≡ (up s.complete_calls == all_calls))
  unfolding process_event executed ends
  call_ends stale garbage msg s seed ch is_end on v busy =
      let t : Cell F = executed F msg.timestamp s in
      let t1 : Cell F = completed t in
      let (seed', e, off) =
        deallocation_lem F ch t1 seed
          (record {
            bits_agree = v.agreed.bits_agree;
            distinct = v.agreed.distinct;
            in_range = v.agreed.in_range;
          })
          busy in
      let s2 : Cell F = deallocated_cell F ch t1 seed in
      (
        record {
          finished = up s.complete_calls == all_calls;
          cell = s2;
          events = [];
          seed = seed';
        },
        rw (is_end, on) (ended ch t s2 seed seed' e),
        record {
          agreed = off.agreed;
          counter = omega (arith, v.counter, v.size, off.one_less);
          size = v.size;
          calls = omega (arith, v.calls, off.one_less);
        },
        off.now_held,
        refl,
        refl,
        refl,
      )

  pub new_cell-IsValidCell : (garbage : ℕ → ℕ → Bool) → IsValidCell F (new_cell F garbage)
  unfolding new_cell check_channel find
  new_cell-IsValidCell garbage = record {
    agreed = record {
      bits_agree = λ i lt. ground arith;
      distinct = tt;
      in_range = λ i h. absurd (ground arith);
    };
    counter = refl;
    size = refl;
    calls = refl;
  }

  -- The first event of a fiber, whatever the memory of the bitmap held before, makes a valid cell with
  -- 1000 free channels and puts the first call into the queue.
  pub cell_begins :
      (stale : F.R) (garbage : ℕ → ℕ → Bool) (msg : Msg F) (state : Option (Cell F)) (seed : F.Seed)
      → msg.kind ≡ init
      → (a : Answer F) × (process_event F stale garbage msg state seed ≡ some a)
        × IsValidCell F a.cell
        × (a.cell.channel_counter ≡ 1000)
        × (a.finished ≡ false)
        × (stamp : F.R) × (a.events ≡ pack_event F msg.receiver start_call stamp none ∷ [])
  unfolding process_event new_cell
  cell_begins stale garbage msg state seed is_init = (
    record {
      finished = false;
      cell = new_cell F garbage;
      events =
          pack_event F msg.receiver start_call (F.mul (F.decimal 20 0) (F.random seed).0) none ∷ [];
      seed = (F.random seed).1;
    },
    rw is_init refl,
    new_cell-IsValidCell garbage,
    refl,
    refl,
    F.mul (F.decimal 20 0) (F.random seed).0,
    refl,
  )
