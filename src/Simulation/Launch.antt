-- ===== src/Simulation/Launch.antt =====
-- `main` of multi_thread/src/main.c: the checks of its argument, the threads and the fibers.
use linux_fibers.Prelude.{
  ℕ, zero, suc, ◌+◌, ◌-◌, ◌%◌, ◌^◌, Bool, true, false, List, [], ◌∷◌, Option, none, some, ltb, leb,
  ◌==◌, if◌then◌else◌, ℤ, pos, negsuc,
}

-- A value stored in an `unsigned int`.
unfoldable pub to_unsigned : ℤ → ℕ
to_unsigned (pos n) = n % 2 ^ 32
to_unsigned (negsuc n) = 2 ^ 32 - 1 - n % 2 ^ 32

-- `errno` after `strtoll`.
pub data Errno : Type 0 where
  einval erange other : Errno

-- What `main` prints on `stderr` before it gives up.
pub data Complaint : Type 0 where
  no_cpus : Complaint
  usage : Complaint
  invalid_number : Complaint
  few_fibers : ℕ → Complaint

-- What `main` sets up: how many threads it creates, the fibers' arguments in the order of `fibers`
-- (the first is that of the thread itself), `completed_fibers`, and whether the number was warned of.
pub record Plan : Type 0 where
  pub num_fibers : ℕ
  pub threads : ℕ
  pub arguments : List ℕ
  pub completed_fibers : ℕ
  pub warned : Bool

pub data Launch : Type 0 where
  gives_up : Complaint → Launch
  starts : Plan → Launch

-- i + 1 for the fibers from `i` on, `n` of them.
unfoldable pub arguments_from : ℕ → ℕ → List ℕ
arguments_from i zero = []
arguments_from i (suc n) = (i + 1) ∷ arguments_from (i + 1) n

-- `create_threads` takes an `unsigned short`.
unfoldable pub threads_of : ℕ → ℕ
threads_of cpus = if ltb 1 cpus then (cpus - 1) % 2 ^ 16 else 0

unfoldable pub plan : ℕ → ℕ → Bool → Plan
unfolding threads_of arguments_from
plan num_fibers cpus warned = record {
  num_fibers = num_fibers;
  threads = threads_of cpus;
  arguments = 1 ∷ arguments_from 1 (num_fibers - 1);
  completed_fibers = num_fibers;
  warned = warned;
}

unfoldable pub enough : ℕ → ℕ → Bool → Launch
unfolding plan
enough num_fibers cpus warned =
    if leb num_fibers cpus
    then gives_up (few_fibers ((cpus + 1) % 2 ^ 32))
    else starts (plan num_fibers cpus warned)

-- `online` is what `sysconf` returns, `number` and `errno` what `strtoll` leaves.
unfoldable pub launch : ℤ → ℕ → ℤ → Errno → Launch
unfolding to_unsigned enough
launch online argc number errno =
    let cpus = to_unsigned online in
    let num_fibers = to_unsigned number in
    if ltb cpus 1
    then gives_up no_cpus
    else (if ltb argc 2
        then gives_up usage
        else (if num_fibers == 0
            then elim errno [
              | einval ↦ gives_up invalid_number
              | erange ↦ enough num_fibers cpus true
              | other ↦ enough num_fibers cpus false
            ]
            else enough num_fibers cpus false))

-- `get_random_fiber`, with what `random` returned.
unfoldable pub get_random_fiber : ℕ → ℕ → ℕ
get_random_fiber num_fibers draw = draw % num_fibers

-- `fibers[i]`; `none` is past the end.
unfoldable pub fiber_at {ℓ} : {A : Type ℓ} → List A → ℕ → Option A
fiber_at [] i = none
fiber_at (x ∷ rest) zero = some x
fiber_at (x ∷ rest) (suc i) = fiber_at rest i

-- The fiber that `schedule`, and a thread of `thread_initialization`, switches to.
unfoldable pub schedule {ℓ} : {A : Type ℓ} → List A → ℕ → ℕ → Option A
unfolding get_random_fiber fiber_at
schedule fibers num_fibers draw = fiber_at fibers (get_random_fiber num_fibers draw)
