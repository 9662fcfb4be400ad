-- ===== src/Simulation/Loop.antt =====
-- `main_loop` of multi_thread/src/main.c, up to the end of its work.
use linux_fibers.Prelude.{
  ℕ, zero, suc, Bool, true, false, not, ◌&&◌, ◌||◌, List, [], ◌∷◌, Option, none, some, ◌==◌,
  if◌then◌else◌, ℤ, pos, negsuc,
}
use linux_fibers.Prelude.Results.{Outcome, failed, outside, ok, ◌>>=◌}
use linux_fibers.Reals.{Reals}
use linux_fibers.Cell.State.{Cell}
use linux_fibers.Cell.Events.{init, Kind, Msg, Answer, process_event}
use linux_fibers.Simulation.Queue.{EventQueue}

-- Why the program stops: the exits of `main_loop`, and what `ProcessEvent` and the queue do not
-- define. `outside_calendar`: the queue reads or writes before its calendar.
pub data Failure : Type 0 where
  no_storage : Failure
  no_events : Failure
  wrong_fiber : ℕ → Failure
  event_failed : Failure
  queue_failed : Failure
  outside_calendar : Failure

-- An index is -1.
unfoldable pub is_error : ℤ → Bool
is_error (pos n) = false
is_error (negsuc n) = n == 0

unfoldable pub is_init : Kind → Bool
is_init k = elim k [ init ↦ true | _ ↦ false ]

module _ (F : Reals) (E : EventQueue F (Msg F)) where
  -- The work of a fiber: what the two entries of its local storage hold.
  pub record Fiber : Type 0 where
    pub id : ℕ
    pub queue : E.Q
    pub state : Option (Cell F)
    pub seed : F.Seed

  pub data Status : Type 0 where
    exits : Failure → Status
    continues : Fiber → Status
    completes : Fiber → Status

  -- The events that `ProcessEvent` puts into the queue.
  unfoldable pub put_events : List (Msg F) → E.Q → Outcome E.Q
  put_events [] q = ok q
  put_events (e ∷ rest) q = do q1 ← E.put e.timestamp e q; put_events rest q1

  -- The fiber after an event, which its queue `q` does not hold any more. What `INIT` returns is the
  -- state, and not the end of the work.
  unfoldable pub finish : Fiber → Msg F → E.Q → Answer F → Status
  unfolding put_events is_init
  finish f event q a = elim (put_events a.events q) [
    | failed ↦ exits queue_failed
    | outside ↦ exits outside_calendar
    | ok q1 ↦
        let f1 : Fiber = record { id = f.id; queue = q1; state = some a.cell; seed = a.seed } in
        if a.finished && not (is_init event.kind) then completes f1 else continues f1
  ]

  -- One event. `stale` and `garbage` are as in `process_event`.
  unfoldable pub work : F.R → (ℕ → ℕ → Bool) → Fiber → Msg F → E.Q → Status
  unfolding finish
  work stale garbage f event q =
      if event.receiver == f.id
      then elim (process_event F stale garbage event f.state f.seed) [
        | none ↦ exits event_failed
        | some a ↦ finish f event q a
      ]
      else exits (wrong_fiber event.receiver)

  -- One round of the loop.
  unfoldable pub round : F.R → (ℕ → ℕ → Bool) → Fiber → Status
  unfolding work
  round stale garbage f = elim (E.get f.queue) [
    | failed ↦ exits queue_failed
    | outside ↦ exits outside_calendar
    | ok (none, q) ↦ exits no_events
    | ok (some event, q) ↦ work stale garbage f event q
  ]

  -- The first event of a fiber; `malloc` leaves `stamp` and `channel` in it.
  unfoldable pub first_event : ℕ → F.R → Option ℕ → Msg F
  first_event id stamp channel = record {
    sender = id;
    receiver = id;
    kind = init;
    timestamp = stamp;
    channel = channel;
  }

  -- What comes before the loop. The indices are those of the two calls of `FlsAlloc`.
  unfoldable pub prepare : ℕ → ℤ → ℤ → E.Q → F.R → Option ℕ → F.Seed → Status
  unfolding first_event is_error
  prepare id q_idx state_idx memory stamp channel seed =
      if is_error q_idx || is_error state_idx
      then exits no_storage
      else elim (E.init_queue memory >>= E.put (F.decimal 0 0) (first_event id stamp channel)) [
        | failed ↦ exits queue_failed
        | outside ↦ exits outside_calendar
        | ok q ↦ continues (record { id = id; queue = q; state = none; seed = seed })
      ]

  -- At most `fuel` rounds more.
  unfoldable pub rounds : (ℕ → F.R) → (ℕ → ℕ → ℕ → Bool) → ℕ → Status → Status
  unfolding round
  rounds stale garbage zero s = s
  rounds stale garbage (suc fuel) (exits e) = exits e
  rounds stale garbage (suc fuel) (completes f) = completes f
  rounds stale garbage (suc fuel) (continues f) =
      rounds stale garbage fuel (round (stale fuel) (garbage fuel) f)
