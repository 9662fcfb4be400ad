-- ===== src/Single/Types.antt =====
-- The records of single_thread/Module/fiber_ioctl.h and the searches of fiber_ioctl.c.
--
-- As in Driver, a pointer to a fiber is its index and a hash table is one list. Memory of `kmalloc`
-- is not cleared: what it holds comes from the task.
use linux_fibers.Prelude.{
  ℕ, ◌+◌, ◌-◌, ◌%◌, ◌^◌, Bool, not, ◌&&◌, List, [], ◌∷◌, Option, none, some, ℤ, ltb, ◌==◌,
  if◌then◌else◌,
}
use linux_fibers.Prelude.Table.{find, modify}
use linux_fibers.Driver.State.{word, Hashing}
use linux_fibers.Driver.Task.{CreateArg, FlsArg}

-- `struct pt_regs`: the registers that are copied one by one (`others` from r15 to si, and the
-- flags), and those that no switch copies (orig_ax, cs, ss).
pub record Regs : Type 0 where
  pub sp : ℕ
  pub ip : ℕ
  pub di : ℕ
  pub bp : ℕ
  pub others : List ℕ
  pub uncopied : List ℕ

-- `fiber_arg_t`, with the blocks behind its pointers `regs` and `fpu_reg`. The fields `fls_in` and
-- `set_bitmap` are never used. Of the bitmap one `unsigned long` is declared.
pub record Fiber : Type 0 where
  pub running : Bool
  pub index : ℕ
  pub regs : Regs
  pub fls_bitmap : ℕ → Bool
  pub fls_array : ℕ → ℕ
  pub fpu_reg : List ℕ

pub record Thread : Type 0 where
  pub pid : ℕ
  pub active_fiber : ℕ

pub record Process : Type 0 where
  pub pid : ℕ
  pub fibers : List Fiber
  pub threads : List Thread
  pub fiber_id : ℕ

-- `list_process`
pub record Kernel : Type 0 where
  pub list_process : List Process

abbrev pub fiber_key : Fiber → ℕ
fiber_key f = f.index

abbrev pub thread_key : Thread → ℕ
thread_key t = t.pid

abbrev pub process_key : Process → ℕ
process_key p = p.pid

-- One system call. `fiber_block` is what the block of `kmalloc` for a fiber holds, `fpu_block` the
-- one for an FPU state; `create_arg` and `fls_arg` are what the blocks for the arguments hold after
-- `copy_from_user`, whose result is not looked at. `args_allocated` is whether the `kmalloc` for the
-- arguments succeeds, `allocated` whether all others do.
pub record Task : Type 0 where
  pub tgid : ℕ
  pub pid : ℕ
  pub user_regs : Regs
  pub fxregs : List ℕ
  pub args_allocated : Bool
  pub allocated : Bool
  pub fiber_block : Fiber
  pub fpu_block : List ℕ
  pub create_arg : CreateArg
  pub fls_arg : FlsArg
  pub stray_bit : ℕ → Bool
  pub hashing : Hashing

pub record Reply : Type 0 where
  pub ret : ℤ
  pub regs : Regs
  pub fxregs : List ℕ

-- `oops`: a null or freed pointer is followed. `stray`: memory past the end of `fls_bitmap` or of
-- `fls_array` is written or read.
pub data Outcome : Type 0 where
  done : Reply → Kernel → Outcome
  oops : Outcome
  stray : Outcome

unfoldable pub return : Task → ℤ → Kernel → Outcome
return c r k = done (record { ret = r; regs = c.user_regs; fxregs = c.fxregs }) k

unfoldable pub search_process : ℕ → Kernel → Option Process
search_process proc_id k = find process_key proc_id k.list_process

unfoldable pub search_thread : ℕ → Process → Option Thread
search_thread thr_id p = find thread_key thr_id p.threads

-- The first fiber with the index that does not run.
unfoldable pub find_idle : ℕ → List Fiber → Option Fiber
find_idle i [] = none
find_idle i (f ∷ fs) = if f.index == i && not f.running then some f else find_idle i fs

-- The parameter is an `int`, which the comparison extends with its sign.
unfoldable pub int_argument : ℕ → ℕ
int_argument x = if ltb (x % 2 ^ 32) (2 ^ 31) then x % 2 ^ 32 else x % 2 ^ 32 + (word - 2 ^ 32)

-- `hash_add_rcu` puts a fiber under its `unsigned long` index, and the search is for an `int`.
unfoldable pub search_fiber : Hashing → ℕ → Process → Option Fiber
unfolding find_idle int_argument
search_fiber h index p =
    if h.of_int (index % 2 ^ 32) == h.of_long (int_argument index)
    then find_idle (int_argument index) p.fibers
    else none

unfoldable pub update_fiber : ℕ → (Fiber → Fiber) → Process → Process
update_fiber i g p = record p { fibers = modify fiber_key i g p.fibers }

unfoldable pub put_process : Process → Kernel → Kernel
put_process p k = record k { list_process = modify process_key p.pid (λ _. p) k.list_process }
