-- ===== src/Cell/Release.antt =====
-- `deallocation` of multi_thread/src/channel.c, on the bitmap and the list of channels.
use linux_fibers.Prelude.{
  ℕ, ◌+◌, ◌≡◌, ◌<◌, sym, ap, ◌∙◌, true, false, some, length, ◌==◌, if◌then◌else◌, arith, Bool-cases,
  ==_iff, inl, inr,
}
use linux_fibers.Prelude.Table.{remove, find-remove, remove-Distinct}
use linux_fibers.Reals.{Reals}
use linux_fibers.Cell.State.{Cell, channel_key, check_channel, put_channel}
use linux_fibers.Cell.Channels.{fading_recheck, allocation, deallocation}
use linux_fibers.Cell.Counting.{is_some, length-remove}
use linux_fibers.Cell.Allocation.{check-put_channel, recheck-find, recheck-length, recheck-Distinct}
use linux_fibers.Cell.Bookkeeping.{held, IsAgreed, allocated_cell, allocation_lem}

module _ (F : Reals) where
  -- What a deallocation of the channel `ch` makes of the cell.
  pub record IsDeallocated (ch : ℕ) (c c' : Cell F) : Type 0 where
    pub agreed : IsAgreed F c'
    pub one_less : length c'.channels + 1 ≡ length c.channels
    pub now_held : (j : ℕ) → held F j c' ≡ (if ch == j then false else held F j c)

  abbrev pub deallocated_cell : ℕ → Cell F → F.Seed → Cell F
  deallocated_cell ch c seed = record c {
    channel_state = put_channel c.channel_state ch false;
    channels = (fading_recheck F (remove (channel_key F) ch c.channels) seed).0;
  }

  deallocated-held :
      (ch : ℕ) (c : Cell F) (seed : F.Seed) (j : ℕ)
      → IsAgreed F c
      → held F j (deallocated_cell ch c seed) ≡ (if ch == j then false else held F j c)
  deallocated-held ch c seed j v =
      recheck-find F j (remove (channel_key F) ch c.channels) seed
      ∙ ap is_some (find-remove (channel_key F) ch j c.channels v.distinct)
      ∙ ground arith

  -- A channel that a call holds is given back without an abort: afterwards bitmap and list agree, with
  -- one call less, and exactly this channel is no longer held.
  pub deallocation_lem :
      (ch : ℕ) (c : Cell F) (seed : F.Seed)
      → IsAgreed F c
      → held F ch c ≡ true
      → (seed' : F.Seed) × (deallocation F ch c seed ≡ some (deallocated_cell ch c seed, seed'))
        × IsDeallocated ch c (deallocated_cell ch c seed)
  unfolding deallocation
  deallocation_lem ch c seed v busy =
      let after = deallocated-held ch c seed in
      (
        (fading_recheck F (remove (channel_key F) ch c.channels) seed).1,
        ground arith,
        record {
          agreed = record {
            bits_agree = λ j h.
                check-put_channel c.channel_state ch j false
                ∙ ap (λ b. if ch == j then false else b) (v.bits_agree j h)
                ∙ sym (after j v);
            distinct =
                recheck-Distinct F _ seed
                  (remove-Distinct (channel_key F) ch c.channels v.distinct);
            in_range = λ j h. ground (arith, after j v, v.in_range j);
          };
          one_less =
              ap (λ n. n + 1) (recheck-length F (remove (channel_key F) ch c.channels) seed)
              ∙ length-remove (channel_key F) ch c.channels busy;
          now_held = λ j. after j v;
        },
      )

  -- A channel that is allocated and given back at once: neither step aborts, and the bits of all
  -- channels and the calls that hold one are again what they were.
  pub deallocation-allocation :
      (stale : F.R) (c : Cell F) (seed seed1 : F.Seed)
      → IsAgreed F c
      → length c.channels < c.channels_per_cell
      → (index : ℕ) × (seed2 : F.Seed) × (seed3 : F.Seed) × (c' : Cell F) × (c'' : Cell F)
        × (allocation F stale c seed ≡ some ((index, c'), seed2))
        × (deallocation F index c' seed1 ≡ some (c'', seed3))
        × ((j : ℕ) → held F j c'' ≡ held F j c)
        × ((j : ℕ)
            → j < c.channels_per_cell
            → check_channel c''.channel_state j ≡ check_channel c.channel_state j)
        × (length c''.channels ≡ length c.channels)
  deallocation-allocation stale c seed seed1 v room =
      let (index, seed2, e, low, nobody, lowest, on) = allocation_lem F stale c seed v room in
      let c' : Cell F = allocated_cell F index stale c seed in
      let (seed3, e', off) =
        deallocation_lem index c' seed1 on.agreed (on.now_held index ∙ ground arith) in
      let c'' : Cell F = deallocated_cell index c' seed1 in
      let back : (j : ℕ) → held F j c'' ≡ held F j c = λ j. elim (Bool-cases (index == j)) [
        | inl same ↦
            off.now_held j
            ∙ ap (λ b. if b then false else held F j c') same
            ∙ sym nobody
            ∙ ap (λ k. held F k c) ((==_iff index j).0 same)
        | inr other ↦
            off.now_held j
            ∙ ap (λ b. if b then false else held F j c') other
            ∙ on.now_held j
            ∙ ap (λ b. if b then true else held F j c) other
      ] in
      (
        index,
        seed2,
        seed3,
        c',
        c'',
        e,
        e',
        back,
        λ j lt. off.agreed.bits_agree j lt ∙ back j ∙ sym (v.bits_agree j lt),
        omega (arith, on.one_more, off.one_less),
      )
