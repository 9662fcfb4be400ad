-- ===== src/Single/Client.antt =====
-- The user library of the single-threaded version, single_thread/Library/function_calls.c.
use linux_fibers.Prelude.{
  ℕ, ◌+◌, ◌-◌, ◌%◌, Bool, true, not, Option, none, some, ℤ, negsuc, if◌then◌else◌,
}
use linux_fibers.Driver.State.{word}
use linux_fibers.Library.Session.{Session, ioctl_result, to_unsigned_long, is_minus_one}
use linux_fibers.Single.Types.{Kernel, Task, done, oops, stray}
use linux_fibers.Single.Module.{
  Request, convert_to_fiber, create_fiber, switch_to_fiber, fls_alloc_request, fls_free_request,
  fls_get_request, fls_set_request, my_ioctl,
}

-- What the C library and the kernel answer to one call. `stack` is what the variable `stack` holds
-- after `posix_memalign`, whose result is not looked at.
pub record Client : Type 0 where
  pub open_result : Option ℕ
  pub malloc_result : Bool
  pub stack : ℕ
  pub task : Task

pub data Call (A : Type 0) : Type 0 where
  finished : A → Session → Kernel → Call A
  segfault : Call A
  stuck : Call A

unfoldable pub init_file : Client → Session → Session
init_file c s = elim c.open_result [
  | none ↦ record s { fd = none }
  | some n ↦ record { fd = some n; opened = true }
]

-- `if (done == 0) init_file();`
unfoldable pub ensure_open : Client → Session → Session
unfolding init_file
ensure_open c s = if s.opened then s else init_file c s

-- `ioctl(fd, request)`, with what the caller makes of the `int` that it returns.
unfoldable pub ioctl : {A : Type 0} → Task → Request → Session → Kernel → (ℤ → A) → Call A
ioctl c r s k f = elim s.fd [
  | none ↦ finished (f (negsuc 0)) s k
  | some _ ↦ elim (my_ioctl c r k) [
    | done reply k' ↦ finished (f (ioctl_result reply.ret)) s k'
    | oops ↦ stuck
    | stray ↦ stuck
  ]
]

-- A failure is printed and passed on, here as everywhere below: -1 is the cast of -1.
unfoldable pub convert_thread_to_fiber : Client → Session → Kernel → Call ℕ
convert_thread_to_fiber c s k = ioctl c.task convert_to_fiber (ensure_open c s) k to_unsigned_long

unfoldable pub create_fiber_call : Client → ℕ → ℕ → ℕ → Session → Kernel → Call ℕ
create_fiber_call c stack_size start_address parameter s k =
    if c.malloc_result
    then (let t : Task = c.task in
        ioctl
          (record t {
            create_arg = record {
              stack_pointer = (c.stack + stack_size + (word - 8)) % word;
              start_address = start_address;
              parameter = parameter;
            };
          })
          create_fiber (ensure_open c s) k to_unsigned_long)
    else segfault

unfoldable pub switch_to_fiber_call : Client → ℕ → Session → Kernel → Call (Unit {0})
switch_to_fiber_call c fiber s k =
    ioctl c.task (switch_to_fiber fiber) (ensure_open c s) k (λ _. tt)

unfoldable pub fls_alloc_call : Client → Session → Kernel → Call ℤ
fls_alloc_call c s k = ioctl c.task fls_alloc_request (ensure_open c s) k (λ r. r)

unfoldable pub fls_free_call : Client → ℕ → Session → Kernel → Call Bool
fls_free_call c index s k =
    ioctl c.task (fls_free_request index) (ensure_open c s) k (λ r. not (is_minus_one r))

-- The `int` becomes the `unsigned long`.
unfoldable pub fls_get_value_call : Client → ℕ → Session → Kernel → Call ℕ
fls_get_value_call c index s k =
    ioctl c.task (fls_get_request index) (ensure_open c s) k to_unsigned_long

unfoldable pub fls_set_value_call : Client → ℕ → ℕ → Session → Kernel → Call (Unit {0})
fls_set_value_call c index value s k =
    if c.malloc_result
    then (let t : Task = c.task in
        ioctl (record t { fls_arg = record { fls_index = index; fls_data = value } })
          fls_set_request (ensure_open c s) k (λ _. tt))
    else segfault
