-- ===== src/Library/Calls.antt =====
-- The seven functions of multi_thread/src/function_calls.c. A pointer is its address, NULL is 0.
use linux_fibers.Prelude.{ℕ, ◌+◌, ◌-◌, ◌%◌, Bool, false, not, none, some, ℤ, negsuc, if◌then◌else◌}
use linux_fibers.Driver.State.{word, Kernel}
use linux_fibers.Driver.Task.{Task, Reply}
use linux_fibers.Driver.Ioctl.{
  convert_to_fiber, create_fiber, switch_to_fiber, fls_alloc_request, fls_free_request,
  fls_get_request, fls_set_request,
}
use linux_fibers.Library.Session.{
  Session, Client, Call, finished, segfault, ensure_open, ioctl, to_unsigned_long, is_minus_one,
}

unfoldable pub convert_thread_to_fiber : Client → Session → Kernel → Call ℕ
convert_thread_to_fiber c s k =
    ioctl c.task convert_to_fiber (ensure_open c s) k (word - 1) (λ r _. to_unsigned_long r)

-- `(unsigned long)stack + dwStackSize - 8`
unfoldable pub stack_top : ℕ → ℕ → ℕ
stack_top stack size = (stack + size + (word - 8)) % word

-- `posix_memalign` that fails returns before anything is opened. The kernel reads the arguments
-- from the block of `malloc`.
unfoldable pub create_fiber_call : Client → ℕ → ℕ → ℕ → Session → Kernel → Call ℕ
unfolding stack_top
create_fiber_call c stack_size start_address parameter s k = elim c.memalign_result [
  | none ↦ finished (word - 1) s k
  | some stack ↦
      if c.malloc_result
      then (let t : Task = c.task in
          ioctl
            (record t {
              create_arg = some (record {
                stack_pointer = stack_top stack stack_size;
                start_address = start_address;
                parameter = parameter;
              });
            })
            create_fiber (ensure_open c s) k (word - 1) (λ r _. to_unsigned_long r))
      else segfault
]

unfoldable pub switch_to_fiber_call : Client → ℕ → Session → Kernel → Call (Unit {0})
switch_to_fiber_call c fiber s k =
    ioctl c.task (switch_to_fiber fiber) (ensure_open c s) k tt (λ _ _. tt)

unfoldable pub fls_alloc_call : Client → Session → Kernel → Call ℤ
fls_alloc_call c s k = ioctl c.task fls_alloc_request (ensure_open c s) k (negsuc 0) (λ r _. r)

unfoldable pub fls_free_call : Client → ℕ → Session → Kernel → Call Bool
fls_free_call c index s k =
    ioctl c.task (fls_free_request index) (ensure_open c s) k false (λ r _. not (is_minus_one r))

-- The task whose `ioctl` argument points at an `fls_arg_t` with these fields.
abbrev pub with_arg : Task → ℕ → ℕ → Task
with_arg t index value = record t {
  fls_arg = some (record { fls_index = index; fls_data = value });
}

-- What the caller's `fls_arg_t` holds after the call; the block of `malloc` holds `old` before it.
unfoldable pub read_value : ℕ → ℤ → Reply → ℕ
read_value old r reply =
    if is_minus_one r then 0 else elim reply.fls_out [ none ↦ old | some a ↦ a.fls_data ]

unfoldable pub fls_get_value_call : Client → ℕ → ℕ → Session → Kernel → Call ℕ
unfolding read_value
fls_get_value_call c old index s k =
    if c.malloc_result
    then ioctl (with_arg c.task index old) fls_get_request (ensure_open c s) k 0 (read_value old)
    else segfault

unfoldable pub fls_set_value_call : Client → ℕ → ℕ → Session → Kernel → Call (Unit {0})
fls_set_value_call c index value s k =
    if c.malloc_result
    then ioctl (with_arg c.task index value) fls_set_request (ensure_open c s) k tt (λ _ _. tt)
    else segfault
