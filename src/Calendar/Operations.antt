-- ===== src/Calendar/Operations.antt =====
-- The operations of multi_thread/src/calqueue.h.
use linux_fibers.Prelude.{ℕ, Bool, true, Option, none, some, ◌==◌}
use linux_fibers.Prelude.Results.{Outcome, ok, ◌>>=◌}
use linux_fibers.Reals.{Reals}
use linux_fibers.Calendar.State.{Node, Queue, localinit}
use linux_fibers.Calendar.Insert.{put_with}
use linux_fibers.Calendar.Dequeue.{deq_with}
use linux_fibers.Calendar.Resize.{resize, switched}

-- How many calls of `resize` inside one another have something to do.
abbrev pub depth : ℕ
depth = 1

module _ (F : Reals) (A : Type 0) where
  -- `malloc` leaves `garbage` in the fields.
  unfoldable pub calqueue_init : Queue F A → Outcome (Queue F A)
  calqueue_init garbage = do
    q ← localinit F A 0 2 (F.decimal 1 0) (F.decimal 0 0) garbage
    ok (switched F A true q)

  unfoldable pub calqueue_put : F.R → A → Queue F A → Outcome (Queue F A)
  calqueue_put priority payload q =
      put_with F A (resize F A depth) (record { priority = priority; payload = payload }) q

  abbrev pub payload_of : Option (Node F A) → Option A
  payload_of none = none
  payload_of (some e) = some e.payload

  -- `none` is the null pointer.
  unfoldable pub calqueue_get : Queue F A → Outcome (Option A × Queue F A)
  calqueue_get q = do (e, q1) ← deq_with F A (resize F A depth) q; ok (payload_of e, q1)

  unfoldable pub calqueue_empty : Queue F A → Bool
  calqueue_empty q = q.qsize == 0
