-- ===== src/Ult/Steps.antt =====
-- `ult_convert`, `ult_creat` and `ult_switch_to` of multi_thread/src/ult.c, and the macros
-- `context_switch` and `context_switch_create` of ult.h, as steps of threads: between two steps of
-- one thread the others may take any number of theirs.
--
-- A fiber is its `id`. The registers of a thread are one number, which `set_jmp` stores and `long_jmp`
-- loads.
use linux_fibers.Prelude.{
  ℕ, ◌+◌, Bool, true, false, Option, none, some, ltb, if◌then◌else◌, update, ◌≡◌,
}

-- Where a thread is. The argument of `executing`, the first one of the states of a creation and of
-- `taken`, and the last one of `moved`, `saved` and `released` is the thread's variable `current`.
pub data Place : Type 0 where
  outside : Place
  -- In `ult_convert`: before the lock; after it.
  converting : ℕ → Place
  converted : ℕ → Place
  executing : ℕ → Place
  -- In `ult_switch_to`: after the lock; after `current = to`; after `set_jmp`; after the unlock.
  taken : ℕ → ℕ → Place
  moved : ℕ → ℕ → Place
  saved : ℕ → ℕ → Place
  released : ℕ → ℕ → Place
  -- In `context_switch_create`: before the lock; after it; after `set_jmp`; after the unlock.
  preparing : ℕ → ℕ → Place
  prepared : ℕ → ℕ → Place
  parked : ℕ → ℕ → Place
  leaving : ℕ → ℕ → Place
  -- In `context_create_boot`: before the lock; after it; after `set_jmp`; after the unlock.
  booting : ℕ → ℕ → Place
  booted : ℕ → ℕ → Place
  returning : ℕ → ℕ → Place
  returned : ℕ → ℕ → Place

-- `running` and `context` of each fiber, `ult_id`, and the place and registers of each thread.
pub record Machine : Type 0 where
  pub running : ℕ → Bool
  pub context : ℕ → ℕ
  pub ult_id : ℕ
  pub place : ℕ → Place
  pub regs : ℕ → ℕ

-- What a thread does next where it has a choice. The number of `create` is the context that the
-- signal handler saves on the new stack, that of `work` the registers with which it goes on.
pub data Action : Type 0 where
  work : ℕ → Action
  convert : Action
  switch_to : Option ℕ → Action
  create : ℕ → Action
  proceed : Action

unfoldable pub go : ℕ → Place → Machine → Machine
go t p s = record s { place = update s.place t p }

-- `ult_trylock` that succeeds, or the last turn of the loop of `ult_lock`.
unfoldable pub acquire : ℕ → ℕ → Place → Machine → Machine
unfolding go
acquire t f p s = go t p (record s { running = update s.running f true })

-- `ult_lock`: while the flag is set, the thread stays.
unfoldable pub ult_lock : ℕ → ℕ → Place → Machine → Machine
unfolding acquire
ult_lock t f p s = if s.running f then s else acquire t f p s

unfoldable pub ult_unlock : ℕ → ℕ → Place → Machine → Machine
unfolding go
ult_unlock t f p s = go t p (record s { running = update s.running f false })

unfoldable pub set_jmp : ℕ → ℕ → Place → Machine → Machine
unfolding go
set_jmp t f p s = go t p (record s { context = update s.context f (s.regs t) })

-- The registers with which the thread arrives at a `set_jmp`.
unfoldable pub arriving : Action → ℕ → ℕ
arriving (work r) old = r
arriving convert old = old
arriving (switch_to ult) old = old
arriving (create r) old = old
arriving proceed old = old

-- `set_jmp` of the fiber `g` after a call or two, with another program counter and stack pointer than
-- those that were loaded.
unfoldable pub set_jmp_later : ℕ → ℕ → Action → Place → Machine → Machine
unfolding set_jmp arriving
set_jmp_later t f a p s =
    set_jmp t f p (record s { regs = update s.regs t (arriving a (s.regs t)) })

unfoldable pub long_jmp : ℕ → ℕ → Place → Machine → Machine
unfolding go
long_jmp t f p s = go t p (record s { regs = update s.regs t (s.context f) })

-- A block of `malloc`, zeroed, with its number from `ult_id` and a context.
unfoldable pub allocate : ℕ → ℕ → Place → Machine → Machine
unfolding go
allocate t context p s = go t p (record s {
  running = update s.running s.ult_id false;
  context = update s.context s.ult_id context;
  ult_id = s.ult_id + 1;
})

-- A call of `ult_switch_to`. `none`: the pointer is not one of a fiber.
unfoldable pub ult_switch_to : ℕ → ℕ → Option ℕ → Machine → Option Machine
unfolding ult_lock
ult_switch_to t from ult s = elim ult [
  | none ↦ some s
  | some to ↦ if ltb to s.ult_id then some (ult_lock t to (Place.taken from to) s) else none
]

unfoldable pub begin : ℕ → ℕ → Action → Machine → Option Machine
unfolding ult_switch_to allocate
begin t f (work r) s = some (record s { regs = update s.regs t r })
begin t f convert s = none
begin t f (switch_to ult) s = ult_switch_to t f ult s
begin t f (create r) s = some (allocate t r (Place.preparing f s.ult_id) s)
begin t f proceed s = some s

-- A thread without a fiber. Without `current` a switch or a creation follows a null pointer, except
-- that a switch to the null pointer returns.
unfoldable pub begin_outside : ℕ → Action → Machine → Option Machine
unfolding allocate
begin_outside t (work r) s = some (record s { regs = update s.regs t r })
begin_outside t convert s = some (allocate t 0 (Place.converting s.ult_id) s)
begin_outside t (switch_to none) s = some s
begin_outside t (switch_to (some to)) s = none
begin_outside t (create r) s = none
begin_outside t proceed s = some s

-- The next step of the thread `t`, at the place where it is. `none`: the program crashes, or a
-- converted thread is converted again, which is not followed.
unfoldable pub step_at : ℕ → Action → Machine → Place → Option Machine
unfolding begin begin_outside ult_lock ult_unlock set_jmp set_jmp_later long_jmp
step_at t a s Place.outside = begin_outside t a s
step_at t a s (Place.converting f) = some (ult_lock t f (Place.converted f) s)
step_at t a s (Place.converted f) = some (set_jmp t f (Place.executing f) s)
step_at t a s (Place.executing f) = begin t f a s
step_at t a s (Place.taken f g) = some (go t (Place.moved f g) s)
step_at t a s (Place.moved f g) = some (set_jmp t f (Place.saved f g) s)
step_at t a s (Place.saved f g) = some (ult_unlock t f (Place.released f g) s)
step_at t a s (Place.released f g) = some (long_jmp t g (Place.executing g) s)
step_at t a s (Place.preparing f g) = some (ult_lock t g (Place.prepared f g) s)
step_at t a s (Place.prepared f g) = some (set_jmp t f (Place.parked f g) s)
step_at t a s (Place.parked f g) = some (ult_unlock t f (Place.leaving f g) s)
step_at t a s (Place.leaving f g) = some (long_jmp t g (Place.booting f g) s)
step_at t a s (Place.booting f g) = some (ult_lock t f (Place.booted f g) s)
step_at t a s (Place.booted f g) = some (set_jmp_later t g a (Place.returning f g) s)
step_at t a s (Place.returning f g) = some (ult_unlock t g (Place.returned f g) s)
step_at t a s (Place.returned f g) = some (long_jmp t f (Place.executing f) s)

unfoldable pub step : ℕ → Action → Machine → Option Machine
unfolding step_at
step t a s = step_at t a s (s.place t)

-- The program before any thread calls the library.
unfoldable pub initial : Machine
initial = record {
  running = λ _. false;
  context = λ _. 0;
  ult_id = 0;
  place = λ _. Place.outside;
  regs = λ _. 0;
}

-- What threads can reach in any order of their steps.
pub data Reach : Machine → Type 0 where
  at_start : Reach initial
  after : {s s' : Machine} → Reach s → (t : ℕ) → (a : Action) → step t a s ≡ some s' → Reach s'
