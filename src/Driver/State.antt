-- ===== src/Driver/State.antt =====
-- The records of multi_thread/Module/fiber_ioctl.h, and the searches of fiber_ioctl.c over them.
--
-- A pointer to a fiber, as `thread->active_fiber`, is the fiber's index in the table of its
-- process. The buckets of a kernel hash table are one list here: a search compares the whole key,
-- so entries of other keys in the bucket do not change what it finds. Where the key that is searched
-- has another type than the key that was added, the two may belong to different buckets (Hashing). `unsigned long` and `long`
-- are numbers below 2 ^ 64, and each addition says `% 2 ^ 64`. The list nodes and spin locks of
-- the structs are left out: a handler runs as one step.
use linux_fibers.Prelude.{
  ℕ, ◌+◌, ◌-◌, ◌%◌, ◌^◌, Bool, false, List, [], Option, none, ltb, ◌==◌, if◌then◌else◌, replicate,
}
use linux_fibers.Prelude.Table.{find, modify}

abbrev pub word : ℕ
word = 2 ^ 64

-- The number of FLS slots of a fiber.
abbrev pub max_fls : ℕ
max_fls = 4096

-- `DECLARE_BITMAP(fls_bitmap, sizeof(MAX_FLS))` declares `sizeof(int)` = 4 bits, which the kernel
-- rounds up to one `unsigned long`.
abbrev pub bitmap_bits : ℕ
bitmap_bits = 64

-- `struct pt_regs`, with the four registers that the code writes by name.
pub record Regs : Type 0 where
  pub sp : ℕ
  pub ip : ℕ
  pub di : ℕ
  pub bp : ℕ
  pub others : List ℕ

-- `fiber_arg_t`. Of the bitmap and of the array only the declared places count.
pub record Fiber : Type 0 where
  pub fls_bitmap : ℕ → Bool
  pub regs : Regs
  pub fpu_reg : List ℕ
  pub index : ℕ
  pub thread_id : ℕ
  pub starting_point : ℕ
  pub fls_array : ℕ → ℕ
  pub activations : ℕ
  pub failed_activations : ℕ
  pub starting_time : ℕ
  pub total_time : ℕ
  pub name : List ℕ
  pub running : Bool

-- `thread_arg_t`
pub record Thread : Type 0 where
  pub pid : ℕ
  pub active_fiber : ℕ

-- `process_arg_t`
pub record Process : Type 0 where
  pub pid : ℕ
  pub fiber_id : ℕ
  pub fibers : List Fiber
  pub threads : List Thread

-- The module's globals.
pub record Kernel : Type 0 where
  pub list_process : List Process
  pub count_threads : ℕ

abbrev pub fiber_key : Fiber → ℕ
fiber_key f = f.index

abbrev pub thread_key : Thread → ℕ
thread_key t = t.pid

abbrev pub process_key : Process → ℕ
process_key p = p.pid

unfoldable pub search_process : ℕ → Kernel → Option Process
search_process proc_id k = find process_key proc_id k.list_process

unfoldable pub search_thread : ℕ → Process → Option Thread
search_thread thr_id p = find thread_key thr_id p.threads

-- The buckets in which a kernel hash table puts the key of an `int` and of an `unsigned long`:
-- `hash_min` of linux/hashtable.h takes another hash for a wider type.
pub record Hashing : Type 0 where
  pub of_int : ℕ → ℕ
  pub of_long : ℕ → ℕ

-- The parameter is an `int`: an `unsigned long` argument is cut to 32 bits, and the comparison with
-- `fiber->index` extends the sign.
unfoldable pub int_argument : ℕ → ℕ
int_argument x = if ltb (x % 2 ^ 32) (2 ^ 31) then x % 2 ^ 32 else x % 2 ^ 32 + (word - 2 ^ 32)

-- The bucket that a search for the `int` goes through is the one of the fibers with this index.
unfoldable pub same_bucket : Hashing → ℕ → Bool
same_bucket h index = h.of_int (index % 2 ^ 32) == h.of_long (int_argument index)

-- `hash_add` puts a fiber under its `unsigned long` index, and the search is for an `int`.
unfoldable pub search_fiber : Hashing → ℕ → Process → Option Fiber
unfolding int_argument same_bucket
search_fiber h index p =
    if same_bucket h index then find fiber_key (int_argument index) p.fibers else none

-- `*fiber = g(*fiber)` through a pointer into the process' table.
unfoldable pub update_fiber : ℕ → (Fiber → Fiber) → Process → Process
update_fiber i g p = record p { fibers = modify fiber_key i g p.fibers }

-- `process` is a pointer into the global table: what a handler does to it shows there.
unfoldable pub put_process : Process → Kernel → Kernel
put_process p k = record k { list_process = modify process_key p.pid (λ _. p) k.list_process }

-- `kzalloc` of a process, with its two tables empty.
unfoldable pub new_process : ℕ → Process
new_process pid = record { pid = pid; fiber_id = 0; fibers = []; threads = [] }

abbrev pub no_regs : Regs
no_regs = record { sp = 0; ip = 0; di = 0; bp = 0; others = replicate 17 0 }

-- `kzalloc` of a fiber
abbrev pub new_fiber : Fiber
new_fiber = record {
  fls_bitmap = λ _. false;
  regs = no_regs;
  fpu_reg = [];
  index = 0;
  thread_id = 0;
  starting_point = 0;
  fls_array = λ _. 0;
  activations = 0;
  failed_activations = 0;
  starting_time = 0;
  total_time = 0;
  name = [];
  running = false;
}
