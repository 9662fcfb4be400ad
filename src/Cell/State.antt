-- ===== src/Cell/State.antt =====
-- The records of multi_thread/src/model.h and its macros for the bitmap of channels.
use linux_fibers.Prelude.{ℕ, ◌/◌, ◌%◌, Bool, ◌&&◌, List, ◌==◌, if◌then◌else◌}
use linux_fibers.Reals.{Reals}

module _ (F : Reals) where
  -- `channel`, with its `sir_data_per_cell`.
  pub record Channel : Type 0 where
    pub channel_id : ℕ
    pub fading : F.R
    pub power : F.R

  -- `lp_state_type`, without the fields that are never used. `channels` is the linked list from its
  -- head along `prev`; `channel_state` holds the bit of a word.
  pub record Cell : Type 0 where
    pub channel_counter : ℕ
    pub arriving_calls : ℕ
    pub complete_calls : ℕ
    pub blocked_on_setup : ℕ
    pub executed_events : ℕ
    pub lvt : F.R
    pub ta : F.R
    pub ref_ta : F.R
    pub ta_duration : F.R
    pub ta_change : F.R
    pub channels_per_cell : ℕ
    pub channel_state : ℕ → ℕ → Bool
    pub channels : List Channel

  abbrev pub channel_key : Channel → ℕ
  channel_key c = c.channel_id

-- `BITS`
abbrev pub bits : ℕ
bits = 32

-- `CHECK_CHANNEL`
unfoldable pub check_channel : (ℕ → ℕ → Bool) → ℕ → Bool
check_channel state i = state (i / bits) (i % bits)

-- `SET_CHANNEL` and `RESET_CHANNEL`
unfoldable pub put_channel : (ℕ → ℕ → Bool) → ℕ → Bool → ℕ → ℕ → Bool
put_channel state i b word bit = if word == i / bits && bit == i % bits then b else state word bit
