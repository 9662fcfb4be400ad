-- ===== src/Single/Values.antt =====
-- Fiber-local values through the library of single_thread/Library/function_calls.c.
use linux_fibers.Prelude.{ℕ, ◌-◌, ◌^◌, ◌≡◌, ◌≢◌, ◌<◌, ◌≤◌, ap, ◌∙◌, true, some, arith}
use linux_fibers.Prelude.Table.{find}
use linux_fibers.Driver.State.{word, bitmap_bits}
use linux_fibers.Driver.Convert.{to_long}
use linux_fibers.Library.Session.{Session, ioctl_result, to_unsigned_long}
use linux_fibers.Single.Types.{
  Fiber, Thread, Process, Kernel, fiber_key, Task, return, search_process, search_thread,
}
use linux_fibers.Single.Local.{test_bit, with_fiber, fls_get_in, fls_get_value}
use linux_fibers.Single.Module.{my_ioctl}
use linux_fibers.Single.Client.{Client, finished, ensure_open, ioctl, fls_get_value_call}

-- The calling thread is converted: its process, its entry, and its active fiber.
pub record Located (c : Task) (k : Kernel) (p : Process) (t : Thread) (f : Fiber) : Type 0 where
  pub process : search_process c.tgid k ≡ some p
  pub thread : search_thread c.pid p ≡ some t
  pub fiber : find fiber_key t.active_fiber p.fibers ≡ some f

-- What is left of a value on its way through the `long` of the handler and the `int` of `ioctl`.
abbrev pub narrowed : ℕ → ℕ
narrowed v = to_unsigned_long (ioctl_result (to_long v))

got :
    (c : Client) (s : Session) (k : Kernel) (p : Process) (t : Thread) (f : Fiber) (n index : ℕ)
    → s.opened ≡ true
    → s.fd ≡ some n
    → Located c.task k p t f
    → index < bitmap_bits
    → f.fls_bitmap index ≡ true
    → fls_get_value_call c index s k ≡ finished (narrowed (f.fls_array index)) s k
unfolding fls_get_value_call ensure_open ioctl my_ioctl fls_get_value with_fiber fls_get_in test_bit
    return
got c s k p t f n index o d here low taken = ground (arith, here.process, here.thread, here.fiber)

-- With the device open, FlsGetValue on a taken slot below 64 returns the stored value if that is
-- below 2 ^ 31.
pub fls_get_value_small :
    (c : Client) (s : Session) (k : Kernel) (p : Process) (t : Thread) (f : Fiber) (n index : ℕ)
    → s.opened ≡ true
    → s.fd ≡ some n
    → Located c.task k p t f
    → index < bitmap_bits
    → f.fls_bitmap index ≡ true
    → f.fls_array index < 2 ^ 31
    → fls_get_value_call c index s k ≡ finished (f.fls_array index) s k
fls_get_value_small c s k p t f n index o d here low taken small =
    got c s k p t f n index o d here low taken
    ∙ ap (λ v. finished v s k) (unfold to_unsigned_long ioctl_result to_long in ground arith)

narrowed_loses : (v : ℕ) → 2 ^ 31 ≤ v → v < word - 2 ^ 31 → narrowed v ≢ v
unfolding to_unsigned_long ioctl_result to_long
narrowed_loses v big below = ground arith

-- A stored value from 2 ^ 31 on and below 2 ^ 64 - 2 ^ 31, as the address of any block of memory of
-- a 64-bit process may be, is never returned: FlsGetValue on a taken slot below 64, with the device
-- open, returns another value.
pub fls_get_value_loses :
    (c : Client) (s s' : Session) (k k' : Kernel) (p : Process) (t : Thread) (f : Fiber)
    (n index v : ℕ)
    → s.opened ≡ true
    → s.fd ≡ some n
    → Located c.task k p t f
    → index < bitmap_bits
    → f.fls_bitmap index ≡ true
    → 2 ^ 31 ≤ f.fls_array index
    → f.fls_array index < word - 2 ^ 31
    → fls_get_value_call c index s k ≡ finished v s' k'
    → v ≢ f.fls_array index
fls_get_value_loses c s s' k k' p t f n index v o d here low taken big below e same =
    let e' : fls_get_value_call c index s k ≡ finished (narrowed (f.fls_array index)) s k =
      got c s k p t f n index o d here low taken in
    let v_is : narrowed (f.fls_array index) ≡ v = cc in
    narrowed_loses (f.fls_array index) big below (v_is ∙ same)
