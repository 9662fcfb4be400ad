-- ===== src/Driver/Behaviour/Values.antt =====
-- Fiber-local storage of multi_thread/Module/fiber_ioctl.c: write, read and free a slot.
use linux_fibers.Prelude.{ℕ, ◌≡◌, ◌<◌, refl, sym, ap, ◌∙◌, true, false, some, pos, arith}
use linux_fibers.Driver.State.{
  bitmap_bits, Fiber, Thread, Process, Kernel, search_process, search_thread, update_fiber,
}
use linux_fibers.Driver.Task.{Task, done, return, minus_one}
use linux_fibers.Driver.Fls.{
  write_slot, write_fiber, fls_alloc, fls_free_in, fls_free, fls_get_in, with_fls_arg,
  fls_get_value, fls_set_in, fls_set_value,
}
use linux_fibers.Driver.Behaviour.Slots.{
  Located, fls_alloc_lem, Located-write_fiber, with_fiber_lem, test_bit_low,
}

-- A converted thread stores a value in a taken slot, below 64, of its active fiber, and reads the
-- slot: the write returns 0, and the read returns 1 and gives that value back.
pub get-set :
    (c d : Task) (k : Kernel) (p : Process) (t : Thread) (f : Fiber) (index value old : ℕ)
    → Located c k p t f
    → index < bitmap_bits
    → f.fls_bitmap index ≡ true
    → c.args_allocated ≡ true
    → c.fls_arg ≡ some (record { fls_index = index; fls_data = value })
    → d.args_allocated ≡ true
    → d.fls_arg ≡ some (record { fls_index = index; fls_data = old })
    → d.copied_to_user ≡ true
    → d.tgid ≡ c.tgid
    → d.pid ≡ c.pid
    → (k' : Kernel) × (fls_set_value c k ≡ return c (pos 0) k')
      × (fls_get_value d k'
          ≡ done
              (record {
                ret = pos 1;
                regs = d.user_regs;
                fxregs = d.fxregs;
                fls_out = some (record { fls_index = index; fls_data = value });
              })
              k')
get-set c d k p t f index value old here low taken a e a' e' copied same_tgid same_pid =
    let k' : Kernel = write_fiber f (write_slot index value) p k in
    let f' : Fiber = write_slot index value f in
    (
      k',
      unfold fls_set_value with_fls_arg in
          rw (a, e)
            (with_fiber_lem c k p t f here (return c minus_one k) (return c (pos 0) k)
                (fls_set_in c (record { fls_index = index; fls_data = value }) k)
              ∙ unfold fls_set_in in ground (arith, test_bit_low c f index)),
      unfold fls_get_value with_fls_arg in
          rw (a', e')
            (with_fiber_lem d k' (update_fiber f.index (write_slot index value) p) t f'
                (Located-write_fiber c d k p t f (write_slot index value) here same_tgid same_pid
                  (λ h. unfold write_slot in refl))
                (return d minus_one k') (return d minus_one k')
                (fls_get_in d (record { fls_index = index; fls_data = old }) k')
              ∙ unfold fls_get_in write_slot in ground (arith, test_bit_low d f' index)),
    )

-- The first slot that a fiber allocates is never freed: on a fiber with no slot taken the allocation
-- returns 0, and freeing slot 0 then answers 0 and leaves the state, with the slot taken, as it is.
pub first_slot_stays :
    (c d : Task) (k : Kernel) (p : Process) (t : Thread) (f : Fiber)
    → Located c k p t f
    → ((i : ℕ) → i < bitmap_bits → f.fls_bitmap i ≡ false)
    → d.tgid ≡ c.tgid
    → d.pid ≡ c.pid
    → (k' : Kernel) × (p' : Process) × (f' : Fiber) × (fls_alloc c k ≡ return c (pos 0) k')
      × Located c k' p' t f'
      × (f'.fls_bitmap 0 ≡ true)
      × (fls_free d 0 k' ≡ return d (pos 0) k')
first_slot_stays c d k p t f here empty same_tgid same_pid =
    let (index, k', p', f', e, below, clear, least, here', taken, _) =
      fls_alloc_lem c k p t f 0 here (omega arith) (empty 0 (omega arith)) in
    let zero_index : index ≡ 0 = omega (arith, below) in
    (
      k',
      p',
      f',
      e ∙ ap (λ i. return c (pos i) k') zero_index,
      here',
      ap f'.fls_bitmap (sym zero_index) ∙ taken,
      unfold fls_free in
          (with_fiber_lem d k' p' t f'
              (record {
                process = ap (λ q. search_process q k') same_tgid ∙ here'.process;
                thread = ap (λ q. search_thread q p') same_pid ∙ here'.thread;
                fiber = here'.fiber;
              })
              (return d (pos 0) k') (return d (pos 0) k') (fls_free_in d 0 k')
            ∙ unfold fls_free_in in refl),
    )
