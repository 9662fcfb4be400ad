-- ===== src/Cell/Bookkeeping.antt =====
-- The bitmap and the list of channels of multi_thread/src/channel.c, and `allocation`.
use linux_fibers.Prelude.{
  ℕ, ◌+◌, ◌≡◌, ◌<◌, refl, sym, ap, ◌∙◌, Bool, true, false, List, ◌∷◌, some, length, ◌==◌,
  if◌then◌else◌, arith, Option-cases, inl, inr,
}
use linux_fibers.Prelude.Table.{find}
use linux_fibers.Reals.{Reals}
use linux_fibers.Cell.State.{Channel, Cell, channel_key, check_channel, put_channel}
use linux_fibers.Cell.Channels.{fading_recheck, interference, new_channel, first_free, allocation}
use linux_fibers.Cell.Counting.{listed_in, pigeonhole}
use linux_fibers.Cell.Allocation.{
  Apart, absent, check-put_channel, free_channel_found, first_free_before, no_free_channel,
  recheck-find, interference-find, recheck-length, interference-length, recheck-Distinct,
  interference-Distinct,
}

module _ (F : Reals) where
  -- Whether a call holds the channel `i`.
  abbrev pub held : ℕ → Cell F → Bool
  held i c = listed_in (channel_key F) i c.channels

  -- The bit of a channel is set where a call holds it, no two calls hold one channel, and all
  -- channels are below `channels_per_cell`.
  pub record IsAgreed (c : Cell F) : Type 0 where
    pub bits_agree : (i : ℕ) → i < c.channels_per_cell → check_channel c.channel_state i ≡ held i c
    pub distinct : Apart F c.channels
    pub in_range : (i : ℕ) → held i c ≡ true → i < c.channels_per_cell

  -- What an allocation of the channel `index` makes of the cell.
  pub record IsAllocated (index : ℕ) (c c' : Cell F) : Type 0 where
    pub agreed : IsAgreed c'
    pub one_more : length c'.channels ≡ length c.channels + 1
    pub now_held : (j : ℕ) → held j c' ≡ (if index == j then true else held j c)

  new_channel_id :
      (index : ℕ) (stale summ : F.R) (seed : F.Seed)
      → (new_channel F index stale summ seed).0.channel_id ≡ index
  unfolding new_channel
  new_channel_id index stale summ seed = ground arith

  -- The channels after an allocation.
  abbrev allocated_channels : ℕ → F.R → Cell F → F.Seed → List (Channel F)
  allocated_channels index stale c seed =
      let ((others, summ), seed1) = interference F c.channels (F.decimal 0 0) seed in
      let (new, seed2) = new_channel F index stale summ seed1 in
      (fading_recheck F (new ∷ others) seed2).0

  abbrev allocated_seed : ℕ → F.R → Cell F → F.Seed → F.Seed
  allocated_seed index stale c seed =
      let ((others, summ), seed1) = interference F c.channels (F.decimal 0 0) seed in
      let (new, seed2) = new_channel F index stale summ seed1 in
      (fading_recheck F (new ∷ others) seed2).1

  module _ (index : ℕ) (stale : F.R) (c : Cell F) (seed : F.Seed) (v : IsAgreed c) where
    allocated-held :
        (j : ℕ)
        → listed_in (channel_key F) j (allocated_channels index stale c seed)
          ≡ (if index == j then true else held j c)
    unfolding find
    allocated-held j =
        let i = interference F c.channels (F.decimal 0 0) seed in
        let n = new_channel F index stale i.0.1 i.1 in
        let id = new_channel_id index stale i.0.1 i.1 in
        recheck-find F j (n.0 ∷ i.0.0) n.1
        ∙ ground (arith, id, interference-find F j c.channels (F.decimal 0 0) seed)

    allocated-Apart : held index c ≡ false → Apart F (allocated_channels index stale c seed)
    allocated-Apart free =
        let i = interference F c.channels (F.decimal 0 0) seed in
        let n = new_channel F index stale i.0.1 i.1 in
        let id = new_channel_id index stale i.0.1 i.1 in
        recheck-Distinct F (n.0 ∷ i.0.0) n.1 (
          absent F n.0.channel_id i.0.0 (
              interference-find F n.0.channel_id c.channels (F.decimal 0 0) seed
              ∙ ap (λ k. held k c) id
              ∙ free),
          interference-Distinct F c.channels (F.decimal 0 0) seed v.distinct,
        )

    allocated-length : length (allocated_channels index stale c seed) ≡ length c.channels + 1
    allocated-length =
        let i = interference F c.channels (F.decimal 0 0) seed in
        let n = new_channel F index stale i.0.1 i.1 in
        recheck-length F (n.0 ∷ i.0.0) n.1
        ∙ omega (arith, interference-length F c.channels (F.decimal 0 0) seed)

  abbrev pub allocated_cell : ℕ → F.R → Cell F → F.Seed → Cell F
  allocated_cell index stale c seed = record c {
    channel_state = put_channel c.channel_state index true;
    channels = allocated_channels index stale c seed;
  }

  -- The channel that an allocation finds while there is one.
  found :
      (c : Cell F)
      → IsAgreed c
      → length c.channels < c.channels_per_cell
      → (index : ℕ) × (first_free c.channel_state c.channels_per_cell 0 ≡ some index)
  found c v room = elim (Option-cases (first_free c.channel_state c.channels_per_cell 0)) [
    | inr there ↦ there
    | inl e ↦
        let full = pigeonhole (channel_key F) c.channels_per_cell c.channels (λ i lt.
          sym (v.bits_agree i lt)
          ∙ no_free_channel c.channel_state c.channels_per_cell 0 i e (omega arith)
              (omega arith)) in
        absurd (omega arith)
  ]

  -- While fewer calls are held than the cell has channels, allocation does not abort: it gives the
  -- lowest channel that no call holds, and afterwards bitmap and list agree, with one call more, and
  -- exactly this channel newly held.
  pub allocation_lem :
      (stale : F.R) (c : Cell F) (seed : F.Seed)
      → IsAgreed c
      → length c.channels < c.channels_per_cell
      → (index : ℕ) × (seed' : F.Seed) × (allocation F stale c seed
          ≡ some ((index, allocated_cell index stale c seed), seed'))
        × (index < c.channels_per_cell)
        × (held index c ≡ false)
        × ((j : ℕ) → j < index → held j c ≡ true)
        × IsAllocated index c (allocated_cell index stale c seed)
  unfolding allocation
  allocation_lem stale c seed v room =
      let (index, there) = found c v room in
      let (low, high, free) =
        free_channel_found c.channel_state c.channels_per_cell 0 index there in
      let lt : index < c.channels_per_cell = omega arith in
      let nobody : held index c ≡ false = sym (v.bits_agree index lt) ∙ free in
      (
        index,
        allocated_seed index stale c seed,
        rw (there, allocation) refl,
        lt,
        nobody,
        λ j below.
            sym (v.bits_agree j (omega arith))
            ∙ first_free_before c.channel_state c.channels_per_cell 0 index j there (omega arith)
                below,
        record {
          agreed = record {
            bits_agree = λ j h.
                check-put_channel c.channel_state index j true
                ∙ ap (λ b. if index == j then true else b) (v.bits_agree j h)
                ∙ sym (allocated-held index stale c seed v j);
            distinct = allocated-Apart index stale c seed v nobody;
            in_range = λ j h. ground (arith, allocated-held index stale c seed v j, v.in_range j);
          };
          one_more = allocated-length index stale c seed v;
          now_held = allocated-held index stale c seed v;
        },
      )
