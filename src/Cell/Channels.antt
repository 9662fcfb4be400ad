-- ===== src/Cell/Channels.antt =====
-- `allocation`, `deallocation` and `recompute_ta` of multi_thread/src/channel.c.
use linux_fibers.Prelude.{
  ℕ, zero, suc, ◌+◌, ◌*◌, ◌%◌, Bool, true, false, List, [], ◌∷◌, Option, none, some, ltb,
  if◌then◌else◌, ℤ, pos, negsuc,
}
use linux_fibers.Prelude.Table.{find, remove}
use linux_fibers.Reals.{Reals}
use linux_fibers.Cell.State.{Channel, Cell, channel_key, check_channel, put_channel}

-- The first free channel from `i` on, with `n` left to look at.
unfoldable pub first_free : (ℕ → ℕ → Bool) → ℕ → ℕ → Option ℕ
unfolding check_channel
first_free state zero i = none
first_free state (suc n) i =
    let rest = first_free state n (i + 1) in if check_channel state i then rest else some i

module _ (F : Reals) where
  unfoldable pub fading_recheck : List (Channel F) → F.Seed → List (Channel F) × F.Seed
  fading_recheck [] seed = ([], seed)
  fading_recheck (c ∷ cs) seed =
      let (fading, seed1) = F.expent (F.decimal 1 0) seed in
      let (cs', seed2) = fading_recheck cs seed1 in (record c { fading = fading } ∷ cs', seed2)

  -- `generate_cross_path_gain` and `generate_path_gain`, by their constant.
  unfoldable pub generate_gain : F.R → F.Seed → F.R × F.Seed
  generate_gain constant seed =
      let (draw, seed1) = F.random seed in
      (F.mul constant (F.pow_ten (F.div (F.mul (F.decimal 10 0) draw) (F.decimal 10 0))), seed1)

  -- The loop over the other channels, with the sum so far.
  unfoldable pub interference : List (Channel F) → F.R → F.Seed → (List (Channel F) × F.R) × F.Seed
  unfolding generate_gain
  interference [] summ seed = (([], summ), seed)
  interference (c ∷ cs) summ seed =
      let (fading, seed1) = F.expent (F.decimal 1 0) seed in
      let (gain, seed2) = generate_gain (F.decimal 5 14) seed1 in
      let ((cs', total), seed3) =
        interference cs (F.add summ (F.mul (F.mul gain c.power) fading)) seed2 in
      ((record c { fading = fading } ∷ cs', total), seed3)

  -- The power of the new channel between `MIN_POWER` and `MAX_POWER`, one test after the other.
  unfoldable pub clamp : F.R → F.R
  clamp p =
      let low = if F.less p (F.decimal 3 0) then F.decimal 3 0 else p in
      if F.less (F.decimal 3000 0) low then F.decimal 3000 0 else low

  -- The new channel for the sum of the others. With nothing to add up its `fading` is not set here:
  -- the memory of `malloc` holds `stale`.
  unfoldable pub new_channel : ℕ → F.R → F.R → F.Seed → Channel F × F.Seed
  unfolding generate_gain clamp
  new_channel index stale summ seed =
      if F.is_zero summ
      then (record { channel_id = index; fading = stale; power = F.decimal 3 0 }, seed)
      else (let (fading, seed1) = F.expent (F.decimal 1 0) seed in
          let (gain, seed2) = generate_gain (F.decimal 1 10) seed1 in
          (
            record {
              channel_id = index;
              fading = fading;
              power = clamp (F.div (F.mul (F.decimal 10 0) summ) (F.mul gain fading));
            },
            seed2,
          ))

  -- `none`: there is no free channel, and the program aborts. `stale` is what `malloc` leaves in the
  -- `fading` of the new channel.
  unfoldable pub allocation : F.R → Cell F → F.Seed → Option ((ℕ × Cell F) × F.Seed)
  unfolding first_free interference new_channel fading_recheck put_channel
  allocation stale p seed = elim (first_free p.channel_state p.channels_per_cell 0) [
    | none ↦ none
    | some index ↦
        let ((others, summ), seed1) = interference p.channels (F.decimal 0 0) seed in
        let (c, seed2) = new_channel index stale summ seed1 in
        let (all, seed3) = fading_recheck (c ∷ others) seed2 in
        some (
          (
            index,
            record p { channel_state = put_channel p.channel_state index true; channels = all },
          ),
          seed3,
        )
  ]

  -- `none`: the channel is not in the list, and the program aborts.
  unfoldable pub deallocation : ℕ → Cell F → F.Seed → Option (Cell F × F.Seed)
  unfolding fading_recheck put_channel
  deallocation ch p seed = elim (find (channel_key F) ch p.channels) [
    | none ↦ none
    | some _ ↦
        let (all, seed1) = fading_recheck (remove (channel_key F) ch p.channels) seed in
        some
          (record p { channel_state = put_channel p.channel_state ch false; channels = all }, seed1)
  ]

  -- A time before 0, of which the remainder is not above 0, is taken as 0: both are early in the
  -- morning.
  unfoldable after_midnight : ℤ → ℕ
  after_midnight (pos n) = n
  after_midnight (negsuc n) = 0

  -- With the times of day in seconds; 8.5 hours are 30600.
  unfoldable pub recompute_ta : F.R → F.R → F.R
  unfolding after_midnight
  recompute_ta ref_ta time_now =
      let now = after_midnight (F.truncate time_now) % (7 * 24 * 3600) in
      let hour = now % (24 * 3600) in
      if ltb (5 * 24 * 3600) now
      then F.mul ref_ta (F.decimal 5 0)
      else if ltb hour 30600
      then F.mul ref_ta (F.decimal 4 0)
      else if ltb hour (13 * 3600)
      then F.mul ref_ta (F.decimal 8 1)
      else if ltb hour (15 * 3600)
      then F.mul ref_ta (F.decimal 25 1)
      else if ltb hour (19 * 3600)
      then F.mul ref_ta (F.decimal 2 0)
      else if ltb hour (21 * 3600)
      then F.mul ref_ta (F.decimal 22 1)
      else F.mul ref_ta (F.decimal 45 1)
