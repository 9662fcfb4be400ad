-- ===== src/Library/Session.antt =====
-- The file descriptor of multi_thread/src/function_calls.c, and the system call under each function.
use linux_fibers.Prelude.{
  ℕ, ◌-◌, ◌%◌, ◌^◌, Bool, true, false, Option, none, some, ℤ, pos, negsuc, ltb, ◌==◌, if◌then◌else◌,
}
use linux_fibers.Driver.State.{word, Kernel}
use linux_fibers.Driver.Task.{Task, Reply, Outcome, done, oops, stray}
use linux_fibers.Driver.Ioctl.{Request, my_ioctl}

-- `fd` and `done`. A file descriptor is `none` for -1.
pub record Session : Type 0 where
  pub fd : Option ℕ
  pub opened : Bool

-- What the C library and the kernel answer to one call of the library: `open` on /dev/fiber, whether
-- `malloc` succeeds, the block of `posix_memalign`, and the task that makes the system call.
pub record Client : Type 0 where
  pub open_result : Option ℕ
  pub malloc_result : Bool
  pub memalign_result : Option ℕ
  pub task : Task

-- A call returns, or follows a null pointer of `malloc`, or its request does not return.
pub data Call (A : Type 0) : Type 0 where
  finished : A → Session → Kernel → Call A
  segfault : Call A
  stuck : Call A

unfoldable pub init_file : Client → Session → Session
init_file c s = elim c.open_result [
  | none ↦ record s { fd = none }
  | some n ↦ record { fd = some n; opened = true }
]

-- `if (done == 0) init_file();`
unfoldable pub ensure_open : Client → Session → Session
unfolding init_file
ensure_open c s = if s.opened then s else init_file c s

-- The `int` that `ioctl` gives for the `long` of the handler: -1 for an error number, otherwise the
-- low 32 bits with their sign.
unfoldable pub ioctl_result : ℤ → ℤ
ioctl_result (negsuc n) =
    if ltb n 4095
    then negsuc 0
    else if ltb (n % 2 ^ 32) (2 ^ 31)
    then negsuc (n % 2 ^ 32)
    else pos (2 ^ 32 - 1 - n % 2 ^ 32)
ioctl_result (pos n) =
    if ltb (n % 2 ^ 32) (2 ^ 31) then pos (n % 2 ^ 32) else negsuc (2 ^ 32 - 1 - n % 2 ^ 32)

-- The reply of `ioctl(fd, request)`, the descriptor being -1 or the device.
unfoldable pub after_ioctl : {A : Type 0} → Outcome → Session → (ℤ → Reply → A) → Call A
after_ioctl (done r k) s f = finished (f (ioctl_result r.ret) r) s k
after_ioctl oops s f = stuck
after_ioctl stray s f = stuck

unfoldable pub ioctl :
    {A : Type 0} → Task → Request → Session → Kernel → A → (ℤ → Reply → A) → Call A
unfolding after_ioctl
ioctl c r s k bad_descriptor f = elim s.fd [
  | none ↦ finished bad_descriptor s k
  | some _ ↦ after_ioctl (my_ioctl c r k) s f
]

-- The cast `(unsigned long)` of an `int`.
unfoldable pub to_unsigned_long : ℤ → ℕ
to_unsigned_long (pos n) = n
to_unsigned_long (negsuc n) = word - 1 - n

abbrev pub is_minus_one : ℤ → Bool
is_minus_one (pos n) = false
is_minus_one (negsuc n) = n == 0
