-- ===== src/Driver/Task.antt =====
-- What a handler of multi_thread/Module/fiber_ioctl.c reads from the kernel around it, and what it
-- gives back: the calling task, the answers of `kzalloc`, `copy_from_user`, `copy_to_user` and
-- `getnstimeofday`, and the memory beside the bitmap.
use linux_fibers.Prelude.{
  ℕ, zero, suc, ◌+◌, ◌*◌, ◌/◌, ◌%◌, Bool, List, [], ◌∷◌, Option, none, ℤ, negsuc, take,
}
use linux_fibers.Driver.State.{word, Regs, Kernel, Hashing}

-- `struct timespec`
pub record Timespec : Type 0 where
  pub tv_sec : ℕ
  pub tv_nsec : ℕ

-- `(unsigned long)ts.tv_nsec + (unsigned long)ts.tv_sec*1000000000`
unfoldable pub nanoseconds : Timespec → ℕ
nanoseconds ts = (ts.tv_nsec + ts.tv_sec * 1000000000) % word

-- `create_arg_t`
pub record CreateArg : Type 0 where
  pub stack_pointer : ℕ
  pub start_address : ℕ
  pub parameter : ℕ

-- `fls_arg_t`
pub record FlsArg : Type 0 where
  pub fls_index : ℕ
  pub fls_data : ℕ

-- One system call: `current`, its saved user registers and FPU state, and what the kernel answers.
-- `hashing` is the kernel's, and `stray_bit` what the bits of the memory at and behind `fls_bitmap` hold past its end.
pub record Task : Type 0 where
  pub tgid : ℕ
  pub pid : ℕ
  pub user_regs : Regs
  pub fxregs : List ℕ
  pub switch_out_time : Timespec
  pub switch_in_time : Timespec
  pub fiber_allocated : Bool
  pub process_allocated : Bool
  pub thread_allocated : Bool
  pub args_allocated : Bool
  pub create_arg : Option CreateArg
  pub fls_arg : Option FlsArg
  pub copied_to_user : Bool
  pub stray_bit : ℕ → Bool
  pub hashing : Hashing

-- The value that the system call returns, the registers and the FPU state with which the task goes
-- on, and what is written back to the caller's `fls_arg_t`.
pub record Reply : Type 0 where
  pub ret : ℤ
  pub regs : Regs
  pub fxregs : List ℕ
  pub fls_out : Option FlsArg

-- `oops`: a null or freed pointer is followed. `stray`: memory past the end of `fls_bitmap` is
-- written, or `fls_array` is read or written past its end.
pub data Outcome : Type 0 where
  done : Reply → Kernel → Outcome
  oops : Outcome
  stray : Outcome

-- The task goes on with its own registers.
unfoldable pub plain_reply : Task → ℤ → Reply
plain_reply c r = record { ret = r; regs = c.user_regs; fxregs = c.fxregs; fls_out = none }

unfoldable pub return : Task → ℤ → Kernel → Outcome
return c r k = done (plain_reply c r) k

-- `return -1`
abbrev pub minus_one : ℤ
minus_one = negsuc 0

-- `-ENOMEM`
abbrev pub minus_enomem : ℤ
minus_enomem = negsuc 11

-- The decimal digits of a number, by fuel.
unfoldable pub decimal_digits : ℕ → ℕ → List ℕ → List ℕ
decimal_digits zero n acc = acc
decimal_digits (suc fuel) n acc = elim (n / 10) [
  | zero ↦ (b'0' + n % 10) ∷ acc
  | suc q ↦ decimal_digits fuel (n / 10) ((b'0' + n % 10) ∷ acc)
]

-- `snprintf(name, 8, "%lu", index)`: at most seven characters and the closing NUL. An
-- `unsigned long` has at most 20 digits.
unfoldable pub fiber_name : ℕ → List ℕ
unfolding decimal_digits
fiber_name index = take 7 (decimal_digits 20 index [])
