-- ===== src/Cell/Events.antt =====
-- `ProcessEvent` of multi_thread/src/model.c.
use linux_fibers.Prelude.{
  ℕ, ◌+◌, ◌-◌, ◌%◌, ◌^◌, Bool, false, List, [], ◌∷◌, ◌++◌, Option, none, some, ltb, ◌==◌,
  if◌then◌else◌,
}
use linux_fibers.Reals.{Reals}
use linux_fibers.Cell.State.{Cell}
use linux_fibers.Cell.Channels.{allocation, deallocation, recompute_ta}

-- `type` of a message
pub data Kind : Type 0 where
  init : Kind
  start_call : Kind
  end_call : Kind
  unknown : ℕ → Kind

-- `unsigned int`
abbrev pub width : ℕ
width = 2 ^ 32

-- `COMPLETE_CALLS` and `CHANNELS_PER_CELL`
abbrev pub all_calls : ℕ
all_calls = 15000

abbrev pub all_channels : ℕ
all_channels = 1000

abbrev pub up : ℕ → ℕ
up n = (n + 1) % width

module _ (F : Reals) where
  -- `msg_t`. The channel is read only of an event that ends a call: `none` is -1.
  pub record Msg : Type 0 where
    pub sender : ℕ
    pub receiver : ℕ
    pub kind : Kind
    pub timestamp : F.R
    pub channel : Option ℕ

  -- What an event comes to: the value returned is 1 for `finished`, the state after it, the events
  -- that it put into the queue, in order, and the random numbers' state.
  pub record Answer : Type 0 where
    pub finished : Bool
    pub cell : Cell F
    pub events : List Msg
    pub seed : F.Seed

  unfoldable pub pack_event : ℕ → Kind → F.R → Option ℕ → Msg
  pack_event cell kind stamp ch = record {
    sender = cell;
    receiver = cell;
    kind = kind;
    timestamp = stamp;
    channel = ch;
  }

  -- The cell that `INIT` makes. `malloc` leaves `garbage` in the words that are not cleared: the loop
  -- clears 1000 / 32 + 1 = 32 of them.
  unfoldable pub new_cell : (ℕ → ℕ → Bool) → Cell F
  new_cell garbage = record {
    channel_counter = all_channels;
    arriving_calls = 0;
    complete_calls = 0;
    blocked_on_setup = 0;
    executed_events = 0;
    lvt = F.decimal 0 0;
    ta = F.decimal 16 2;
    ref_ta = F.decimal 16 2;
    ta_duration = F.decimal 60 0;
    ta_change = F.decimal 150 0;
    channels_per_cell = all_channels;
    channel_state = λ word bit. if ltb word 32 then false else garbage word bit;
    channels = [];
  }

  -- What comes before the switch, where there is a state.
  unfoldable pub executed : F.R → Cell F → Cell F
  executed now s = record s { lvt = now; executed_events = up s.executed_events }

  -- The next call: the new interarrival time, and the event with which it starts.
  unfoldable pub next_call : ℕ → F.R → Cell F → List Msg → F.Seed → Answer
  unfolding pack_event
  next_call me now s events seed =
      let ta = recompute_ta F s.ref_ta now in
      let (delay, seed') = F.expent ta seed in
      let stamp = F.add now delay in
      record {
        finished = false;
        cell = record s { ta = ta };
        events = events ++ (pack_event me start_call stamp none ∷ []);
        seed = seed';
      }

  -- `START_CALL`; `stale` is as in `allocation`. The end of the call is drawn before the channel.
  unfoldable pub starts : F.R → ℕ → F.R → Cell F → F.Seed → Option Answer
  unfolding next_call pack_event
  starts stale me now s seed =
      let s1 : Cell F = record s { arriving_calls = up s.arriving_calls } in
      if s1.channel_counter == 0
      then some (next_call me now (record s1 { blocked_on_setup = up s1.blocked_on_setup }) [] seed)
      else (let (duration, seed1) = F.expent s1.ta_duration seed in
          let stamp = F.add now duration in
          elim (allocation F stale (record s1 { channel_counter = s1.channel_counter - 1 }) seed1) [
            | none ↦ none
            | some ((ch, s2), seed2) ↦
                some (next_call me now s2 (pack_event me end_call stamp (some ch) ∷ []) seed2)
          ])

  -- `END_CALL`
  unfoldable pub ends : Option ℕ → Cell F → F.Seed → Option Answer
  ends channel s seed =
      let s1 : Cell F = record s {
        channel_counter = up s.channel_counter;
        complete_calls = up s.complete_calls;
      } in
      elim channel [
        | none ↦ none
        | some ch ↦ elim (deallocation F ch s1 seed) [
          | none ↦ none
          | some (s2, seed1) ↦ some (record {
            finished = s2.complete_calls == all_calls;
            cell = s2;
            events = [];
            seed = seed1;
          })
        ]
      ]

  -- `none`: the program aborts, or reads a state that is not there.
  unfoldable pub process_event :
      F.R → (ℕ → ℕ → Bool) → Msg → Option (Cell F) → F.Seed → Option Answer
  unfolding starts ends executed new_cell pack_event
  process_event stale garbage msg state seed = elim msg.kind [
    | init ↦
        let (draw, seed1) = F.random seed in
        let stamp = F.mul (F.decimal 20 0) draw in
        some (record {
          finished = false;
          cell = new_cell garbage;
          events = pack_event msg.receiver start_call stamp none ∷ [];
          seed = seed1;
        })
    | start_call ↦ elim state [
      | none ↦ none
      | some s ↦ starts stale msg.receiver msg.timestamp (executed msg.timestamp s) seed
    ]
    | end_call ↦ elim state [
      | none ↦ none
      | some s ↦ ends msg.channel (executed msg.timestamp s) seed
    ]
    | unknown n ↦ none
  ]
