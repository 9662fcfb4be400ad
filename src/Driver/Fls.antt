-- ===== src/Driver/Fls.antt =====
-- `my_ioctl` of multi_thread/Module/fiber_ioctl.c on `FLSALLOC`, `FLSFREE`, `FLSGETVALUE` and
-- `FLSSETVALUE`. An index is an `unsigned long` here: a negative `long` is one from 2 ^ 63 on.
use linux_fibers.Prelude.{
  ℕ, zero, suc, ◌+◌, Bool, false, not, ◌&&◌, none, some, pos, ltb, ◌==◌, if◌then◌else◌, update,
}
use linux_fibers.Prelude.Table.{find}
use linux_fibers.Driver.State.{
  max_fls, bitmap_bits, Fiber, Process, Kernel, fiber_key, search_process, search_thread,
  update_fiber, put_process,
}
use linux_fibers.Driver.Task.{
  Task, FlsArg, Outcome, done, oops, stray, return, minus_one, minus_enomem,
}

-- `test_bit(i, fiber->fls_bitmap)` reads any bit of memory from the start of the bitmap on.
unfoldable pub test_bit : Task → Fiber → ℕ → Bool
test_bit c f i = if ltb i bitmap_bits then f.fls_bitmap i else c.stray_bit i

-- The first `i` from `i` on, below `i` plus the fuel, whose bit is zero; otherwise that sum.
unfoldable pub first_zero : ℕ → ℕ → (ℕ → Bool) → ℕ
first_zero zero i bit = i
first_zero (suc fuel) i bit = let rest = first_zero fuel (i + 1) bit in if bit i then rest else i

-- `find_first_zero_bit(fiber->fls_bitmap, MAX_FLS)`
unfoldable pub find_first_zero_bit : Task → Fiber → ℕ
unfolding first_zero test_bit
find_first_zero_bit c f = first_zero max_fls 0 (test_bit c f)

-- `change_bit(index, fiber->fls_bitmap)` and `fiber->fls_array[index] = 0`
unfoldable pub take_slot : ℕ → Fiber → Fiber
take_slot index f = record f {
  fls_bitmap = update f.fls_bitmap index (not (f.fls_bitmap index));
  fls_array = update f.fls_array index 0;
}

-- `clear_bit(index, fiber->fls_bitmap)`
unfoldable pub clear_slot : ℕ → Fiber → Fiber
clear_slot index f = record f { fls_bitmap = update f.fls_bitmap index false }

-- `fiber->fls_array[index] = value`
unfoldable pub write_slot : ℕ → ℕ → Fiber → Fiber
write_slot index value f = record f { fls_array = update f.fls_array index value }

-- The search for the process, the thread and its active fiber, with which the four requests begin.
-- The first two outcomes are those without a process and without a thread.
unfoldable pub with_fiber :
    Task → Kernel → Outcome → Outcome → (Process → Fiber → Outcome) → Outcome
with_fiber c k no_process no_thread body = elim (search_process c.tgid k) [
  | none ↦ no_process
  | some p ↦ elim (search_thread c.pid p) [
    | none ↦ no_thread
    | some t ↦ elim (find fiber_key t.active_fiber p.fibers) [ none ↦ oops | some f ↦ body p f ]
  ]
]

-- A write to the active fiber.
unfoldable pub write_fiber : Fiber → (Fiber → Fiber) → Process → Kernel → Kernel
write_fiber f g p k = put_process (update_fiber f.index g p) k

unfoldable pub fls_alloc_in : Task → Kernel → Process → Fiber → Outcome
fls_alloc_in c k p f =
    let index : ℕ = find_first_zero_bit c f in
    if index == max_fls
    then return c minus_one k
    else if ltb index bitmap_bits
    then return c (pos index) (write_fiber f (take_slot index) p k)
    else stray

unfoldable pub fls_alloc : Task → Kernel → Outcome
unfolding with_fiber fls_alloc_in
fls_alloc c k = with_fiber c k (return c minus_one k) (return c minus_one k) (fls_alloc_in c k)

-- The guard `index > 0 && index < MAX_FLS` compares signed numbers: no negative one passes it.
unfoldable pub fls_free_in : Task → ℕ → Kernel → Process → Fiber → Outcome
fls_free_in c index k p f =
    if ltb 0 index && ltb index max_fls
    then if ltb index bitmap_bits
      then return c (pos 1) (write_fiber f (clear_slot index) p k)
      else stray
    else return c (pos 0) k

unfoldable pub fls_free : Task → ℕ → Kernel → Outcome
unfolding with_fiber fls_free_in
fls_free c index k =
    with_fiber c k (return c (pos 0) k) (return c (pos 0) k) (fls_free_in c index k)

-- `copy_to_user` gives the caller the index and the value back.
unfoldable pub fls_get_in : Task → FlsArg → Kernel → Process → Fiber → Outcome
fls_get_in c args k p f =
    if test_bit c f args.fls_index
    then if ltb args.fls_index max_fls
      then if c.copied_to_user
        then done
            (record {
              ret = pos 1;
              regs = c.user_regs;
              fxregs = c.fxregs;
              fls_out = some (record args { fls_data = f.fls_array args.fls_index });
            })
            k
        else return c minus_one k
      else stray
    else return c minus_one k

-- `kzalloc` and `copy_from_user` of the caller's `fls_arg_t`.
unfoldable pub with_fls_arg : Task → Kernel → (FlsArg → Outcome) → Outcome
with_fls_arg c k body =
    if c.args_allocated
    then elim c.fls_arg [ none ↦ return c minus_one k | some args ↦ body args ]
    else return c minus_enomem k

unfoldable pub fls_get_value : Task → Kernel → Outcome
unfolding with_fls_arg with_fiber fls_get_in
fls_get_value c k =
    with_fls_arg c k
      (λ args. with_fiber c k (return c minus_one k) (return c minus_one k) (fls_get_in c args k))

-- The request answers 0 whether or not the slot is taken.
unfoldable pub fls_set_in : Task → FlsArg → Kernel → Process → Fiber → Outcome
fls_set_in c args k p f =
    if test_bit c f args.fls_index
    then if ltb args.fls_index max_fls
      then return c (pos 0) (write_fiber f (write_slot args.fls_index args.fls_data) p k)
      else stray
    else return c (pos 0) k

unfoldable pub fls_set_value : Task → Kernel → Outcome
unfolding with_fls_arg with_fiber fls_set_in
fls_set_value c k =
    with_fls_arg c k
      (λ args. with_fiber c k (return c minus_one k) (return c (pos 0) k) (fls_set_in c args k))
