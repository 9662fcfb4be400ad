-- ===== src/Cell/Tests.antt =====
-- A cell of multi_thread/src/model.c with whole numbers in place of `double`, before its first call
-- and with one call.
use linux_fibers.Prelude.{
  ℕ, ◌≡◌, ◌<◌, refl, Bool, true, false, [], ◌∷◌, none, some, ◌⊎◌, length, ◌==◌, if◌then◌else◌, ◌&&◌,
  arith,
}
use linux_fibers.Prelude.Table.{find}
use linux_fibers.Reals.Examples.{whole}
use linux_fibers.Cell.State.{Cell, check_channel}
use linux_fibers.Cell.Channels.{allocation, deallocation}
use linux_fibers.Cell.Events.{init, start_call, end_call, Msg, Answer, new_cell, process_event}
use linux_fibers.Cell.Bookkeeping.{held, IsAgreed}
use linux_fibers.Cell.Release.{deallocation-allocation}
use linux_fibers.Cell.Calls.{IsValidCell, IsBlocked, IsCarried, call_starts}
use linux_fibers.Cell.Endings.{new_cell-IsValidCell, call_ends}

abbrev garbage : ℕ → ℕ → Bool
garbage word bit = true

abbrev empty_cell : Cell whole
empty_cell = new_cell whole garbage

abbrev first : Msg whole
first = record { sender = 1; receiver = 1; kind = init; timestamp = 0; channel = none }

abbrev begins : Msg whole
begins = record { sender = 1; receiver = 1; kind = start_call; timestamp = 5; channel = none }

abbrev ends : Msg whole
ends = record { sender = 1; receiver = 1; kind = end_call; timestamp = 9; channel = some 0 }

call_starts_example :
    (a : Answer whole) × (process_event whole 0 garbage begins (some empty_cell) 4 ≡ some a)
    × (a.finished ≡ false)
    × IsValidCell whole a.cell
    × (IsBlocked whole 1 empty_cell a ⊎ IsCarried whole 1 empty_cell a)
call_starts_example =
    call_starts whole 0 garbage begins empty_cell 4 refl (new_cell-IsValidCell whole garbage)

-- The cell with one call, on channel 0.
abbrev busy_cell : Cell whole
busy_cell = record {
  channel_counter = 999;
  arriving_calls = 1;
  complete_calls = 0;
  blocked_on_setup = 0;
  executed_events = 2;
  lvt = 5;
  ta = 0;
  ref_ta = 0;
  ta_duration = 60;
  ta_change = 150;
  channels_per_cell = 1000;
  channel_state = λ word bit. word == 0 && bit == 0;
  channels = record { channel_id = 0; fading = 1; power = 3 } ∷ [];
}

busy_cell-IsAgreed : IsAgreed whole busy_cell
unfolding check_channel find
busy_cell-IsAgreed = record {
  bits_agree = λ i lt. ground arith;
  distinct = (refl, tt);
  in_range = λ i h. ground arith;
}

call_ends_example :
    (a : Answer whole) × (process_event whole 0 garbage ends (some busy_cell) 4 ≡ some a)
    × IsValidCell whole a.cell
    × ((j : ℕ) → held whole j a.cell ≡ (if 0 == j then false else held whole j busy_cell))
    × (a.events ≡ [])
    × (a.cell.complete_calls ≡ 1)
    × (a.finished ≡ false)
unfolding find
call_ends_example =
    call_ends whole 0 garbage ends busy_cell 4 0 refl refl
      (record { agreed = busy_cell-IsAgreed; counter = refl; size = refl; calls = refl }) refl

deallocation-allocation_example :
    (index : ℕ) × (seed2 : ℕ) × (seed3 : ℕ) × (c' : Cell whole) × (c'' : Cell whole) × (allocation
        whole 0 busy_cell 4
      ≡ some ((index, c'), seed2))
    × (deallocation whole index c' 6 ≡ some (c'', seed3))
    × ((j : ℕ) → held whole j c'' ≡ held whole j busy_cell)
    × ((j : ℕ)
        → j < 1000
        → check_channel c''.channel_state j ≡ check_channel busy_cell.channel_state j)
    × (length c''.channels ≡ 1)
deallocation-allocation_example =
    deallocation-allocation whole 0 busy_cell 4 6 busy_cell-IsAgreed (omega arith)
