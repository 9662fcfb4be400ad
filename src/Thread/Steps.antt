-- ===== src/Thread/Steps.antt =====
-- `__helper_create_thread` of multi_thread/src/thread.c as steps of threads that interleave. All
-- threads of one call of `create_threads` are given the same block `new_arg`.
use linux_fibers.Prelude.{
  ℕ, ◌+◌, ◌%◌, ◌^◌, ◌≡◌, Bool, true, false, Option, none, some, ◌==◌, if◌then◌else◌, update,
}

-- Before the loop; after `tid = old_counter + 1`, with `old_counter`; in the start routine, with
-- `tid`; after `free(arg)`, with `tid`.
pub data Place : Type 0 where
  starting : Place
  looked : ℕ → Place
  working : ℕ → Place
  ended : ℕ → Place

-- `thread_counter`, whether the block `new_arg` is freed, and the place of each thread.
pub record Program : Type 0 where
  pub thread_counter : ℕ
  pub freed : Bool
  pub place : ℕ → Place

-- `unsigned int`
abbrev pub width : ℕ
width = 2 ^ 32

-- `tid = old_counter + 1`
abbrev pub next_tid : ℕ → ℕ
next_tid old = (old + 1) % width

unfoldable pub go : ℕ → Place → Program → Program
go t p s = record s { place = update s.place t p }

-- `__sync_bool_compare_and_swap`: where it succeeds the thread goes on to read its start routine from
-- the block, otherwise it begins the loop again. `none`: the block is read after it is freed.
unfoldable pub swap : ℕ → ℕ → Program → Option Program
unfolding go
swap t old s =
    if s.thread_counter == old
    then if s.freed
      then none
      else some (go t (working (next_tid old)) (record s { thread_counter = next_tid old }))
    else some (go t starting s)

-- The next step of the thread `t`. `none` at the end of the start routine: the block is freed twice.
unfoldable pub step_at : ℕ → Program → Place → Option Program
unfolding go swap
step_at t s starting = some (go t (looked s.thread_counter) s)
step_at t s (looked old) = swap t old s
step_at t s (working tid) =
    if s.freed then none else some (go t (ended tid) (record s { freed = true }))
step_at t s (ended tid) = some s

unfoldable pub step : ℕ → Program → Option Program
unfolding step_at
step t s = step_at t s (s.place t)

unfoldable pub initial : Program
initial = record { thread_counter = 0; freed = false; place = λ _. starting }

-- What threads can reach, in any order, with `n` steps at most.
pub data Reach : ℕ → Program → Type 0 where
  at_start : Reach 0 initial
  after : {n : ℕ} {s s' : Program} → Reach n s → (t : ℕ) → step t s ≡ some s' → Reach (n + 1) s'
