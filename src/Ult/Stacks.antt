-- ===== src/Ult/Stacks.antt =====
-- `get_ult_stack` of multi_thread/src/ult.c: the block that it asks for, and how much it clears.
use linux_fibers.Prelude.{ℕ, ◌+◌, ◌-◌, ◌*◌, ◌%◌, ◌≤◌, ◌<◌, ◌↔◌, ◌==◌, leb, if◌then◌else◌, arith}
use native.Mathlib.Nat.{mod-lt}

-- `STACK_SIZE` of multi_thread/src/function_calls.h
abbrev pub stack_size : ℕ
stack_size = 4096 * 2

-- The bytes that `posix_memalign` is asked for, and those that `bzero` clears.
pub record Stack : Type 0 where
  pub allocated : ℕ
  pub cleared : ℕ

-- The size in whole pages.
unfoldable pub whole_pages : ℕ → ℕ → ℕ
whole_pages page size =
    let reminder = size % page in if reminder == 0 then size else size + (page - reminder)

-- `default_size` is `SIGSTKSZ`, and `page` what `getpagesize` returns.
unfoldable pub get_ult_stack : ℕ → ℕ → ℕ → Stack
unfolding whole_pages
get_ult_stack default_size page size =
    let size' = if leb size 0 then default_size else size in
    record { allocated = stack_size; cleared = whole_pages page size' }

-- What is cleared is as much as was asked for, up to a page more.
pub get_ult_stack-covers :
    (default_size page size : ℕ)
    → 0 < page
    → 0 < size
    → (size ≤ (get_ult_stack default_size page size).cleared)
      × ((get_ult_stack default_size page size).cleared < size + page)
unfolding get_ult_stack whole_pages
get_ult_stack-covers default_size page size some_page some_size =
    ground (arith, mod-lt size some_page)

-- With pages of 4096 bytes it stays within the block only for a size of at most 8192: the block does
-- not grow with the size.
pub get_ult_stack-fits :
    (default_size size : ℕ)
    → 0 < size
    → ((get_ult_stack default_size 4096 size).cleared
        ≤ (get_ult_stack default_size 4096 size).allocated)
      ↔ (size ≤ 8192)
unfolding get_ult_stack whole_pages
get_ult_stack-fits default_size size some_size = (λ h. ground arith, λ h. ground arith)
