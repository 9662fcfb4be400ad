-- ===== src/Single/Local.antt =====
-- `FLSALLOC`, `FLSFREE`, `FLSGETVALUE` and `FLSSETVALUE` in `my_ioctl` of
-- single_thread/Module/fiber_ioctl.c.
use linux_fibers.Prelude.{ℕ, Bool, false, not, none, some, pos, ltb, if◌then◌else◌, update}
use linux_fibers.Prelude.Table.{find}
use linux_fibers.Driver.State.{max_fls, bitmap_bits}
use linux_fibers.Driver.Task.{FlsArg, minus_one}
use linux_fibers.Driver.Convert.{to_long}
use linux_fibers.Driver.Fls.{first_zero}
use linux_fibers.Single.Types.{
  Fiber, Process, Kernel, fiber_key, Task, Outcome, oops, stray, return, search_process,
  search_thread, update_fiber, put_process,
}

unfoldable pub test_bit : Task → Fiber → ℕ → Bool
test_bit c f i = if ltb i bitmap_bits then f.fls_bitmap i else c.stray_bit i

unfoldable pub find_first_zero_bit : Task → Fiber → ℕ
unfolding test_bit
find_first_zero_bit c f = first_zero max_fls 0 (test_bit c f)

unfoldable pub take_slot : ℕ → Fiber → Fiber
take_slot index f = record f {
  fls_bitmap = update f.fls_bitmap index (not (f.fls_bitmap index));
  fls_array = update f.fls_array index 0;
}

unfoldable pub clear_slot : ℕ → Fiber → Fiber
clear_slot index f = record f { fls_bitmap = update f.fls_bitmap index false }

unfoldable pub write_slot : ℕ → ℕ → Fiber → Fiber
write_slot index value f = record f { fls_array = update f.fls_array index value }

-- The search with which the four requests begin.
unfoldable pub with_fiber :
    Task → Kernel → Outcome → Outcome → (Process → Fiber → Outcome) → Outcome
with_fiber c k no_process no_thread body = elim (search_process c.tgid k) [
  | none ↦ no_process
  | some p ↦ elim (search_thread c.pid p) [
    | none ↦ no_thread
    | some t ↦ elim (find fiber_key t.active_fiber p.fibers) [ none ↦ oops | some f ↦ body p f ]
  ]
]

unfoldable pub write_fiber : Fiber → (Fiber → Fiber) → Process → Kernel → Kernel
write_fiber f g p k = put_process (update_fiber f.index g p) k

-- That no bit is zero is not checked.
unfoldable pub fls_alloc_in : Task → Kernel → Process → Fiber → Outcome
fls_alloc_in c k p f =
    let index : ℕ = find_first_zero_bit c f in
    if ltb index bitmap_bits
    then return c (pos index) (write_fiber f (take_slot index) p k)
    else stray

unfoldable pub fls_alloc : Task → Kernel → Outcome
unfolding with_fiber fls_alloc_in
fls_alloc c k = with_fiber c k (return c minus_one k) (return c minus_one k) (fls_alloc_in c k)

unfoldable pub fls_free_in : Task → ℕ → Kernel → Process → Fiber → Outcome
fls_free_in c index k p f =
    if ltb index bitmap_bits then return c (pos 1) (write_fiber f (clear_slot index) p k) else stray

unfoldable pub fls_free : Task → ℕ → Kernel → Outcome
unfolding with_fiber fls_free_in
fls_free c index k =
    with_fiber c k (return c (pos 0) k) (return c (pos 0) k) (fls_free_in c index k)

-- The value itself is the result of the system call.
unfoldable pub fls_get_in : Task → ℕ → Kernel → Process → Fiber → Outcome
fls_get_in c index k p f =
    if test_bit c f index
    then if ltb index max_fls then return c (to_long (f.fls_array index)) k else stray
    else return c minus_one k

unfoldable pub fls_get_value : Task → ℕ → Kernel → Outcome
unfolding with_fiber fls_get_in
fls_get_value c index k =
    with_fiber c k (return c minus_one k) (return c minus_one k) (fls_get_in c index k)

unfoldable pub fls_set_in : Task → FlsArg → Kernel → Process → Fiber → Outcome
fls_set_in c args k p f =
    if test_bit c f args.fls_index
    then if ltb args.fls_index max_fls
      then return c (pos 0) (write_fiber f (write_slot args.fls_index args.fls_data) p k)
      else stray
    else return c (pos 0) k

unfoldable pub fls_set_value : Task → Kernel → Outcome
unfolding with_fiber fls_set_in
fls_set_value c k =
    if c.args_allocated
    then with_fiber c k (return c minus_one k) (return c (pos 0) k) (fls_set_in c c.fls_arg k)
    else oops
