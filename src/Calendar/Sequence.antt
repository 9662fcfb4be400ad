-- ===== src/Calendar/Sequence.antt =====
-- Which item `calqueue_get` of multi_thread/src/calqueue.c returns.
use mathlib.Core.List.{Perm}
use linux_fibers.Prelude.{◌<◌, ◌≡◌, ap, List, ◌∷◌, Option, none, some, arith}
use linux_fibers.Prelude.Results.{ok, gives, Yields, Gives, Yields-bind, Yields-both}
use linux_fibers.Reals.{Reals}
use linux_fibers.Calendar.State.{Node, Queue, contents}
use linux_fibers.Calendar.Dequeue.{scan, choose, search}
use linux_fibers.Calendar.Operations.{payload_of, calqueue_get}
use linux_fibers.Calendar.Shape.{Shape}
use linux_fibers.Calendar.Searching.{HasItem, choose_finds}
use linux_fibers.Calendar.Bag.{Holds, MustShrink, get-Leaves}
use linux_fibers.Calendar.Order.{IsOrder, From, in_order}
use linux_fibers.Calendar.Lowest.{FirstLowest, choose-lowest}

module _ (F : Reals) (A : Type 0) (L : IsOrder F) where
  -- `calqueue_get` returns the payload of an item that is before no other one, and keeps the others.
  abbrev pub GetsLowest : Queue F A → Option A × Queue F A → Type 0
  GetsLowest q r =
      (e : Node F A) × (rest : List (Node F A)) × (r.0 ≡ some e.payload)
      × From F A e.priority (contents F A q)
      × Perm (contents F A q) (e ∷ rest)
      × Holds F A (in_order F A L) r.1 rest

  get_lowest :
      (q : Queue F A)
      → Holds F A (in_order F A L) q (contents F A q)
      → 0 < q.qsize
      → Gives (λ r. HasItem F A (in_order F A L) q r.0 × FirstLowest F A L q r.0) (search F A q)
      → Yields (MustShrink F A (in_order F A L) q) (GetsLowest q) (calqueue_get F A q)
  unfolding calqueue_get
  get_lowest q h pos found =
      Yields-bind
        (get-Leaves F A (in_order F A L) (λ e. From F A e.priority (contents F A q)) 0 q
          (contents F A q) h (omega (arith, h.shape.counted)) found)
        (λ r (e, rest, is, low, p, k). gives (e, rest, ap (payload_of F A) is, low, p, k))

  direct :
      (q : Queue F A) (top : F.R)
      → Shape F A (in_order F A L) q
      → 0 < q.qsize
      → Gives
          (λ r. HasItem F A (in_order F A L) q r.0 × FirstLowest F A L q r.0)
          (choose F A q (none, top))
  direct q top s pos =
      Yields-both (choose_finds F A (in_order F A L) q top s pos) (choose-lowest F A L q top s pos)

  -- Where no bucket has an item below its top, so that `calqueue_deq` searches directly: unless a resize
  -- is due that leaves the calendar, `calqueue_get` returns the payload of an item with the lowest
  -- priority, and the queue holds the others.
  pub calqueue_get-lowest :
      (q : Queue F A) (top : F.R)
      → Holds F A (in_order F A L) q (contents F A q)
      → 0 < q.qsize
      → scan F A q q.nbuckets q.lastbucket q.buckettop ≡ ok (none, top)
      → Yields (MustShrink F A (in_order F A L) q) (GetsLowest q) (calqueue_get F A q)
  unfolding search
  calqueue_get-lowest q top h pos missed = get_lowest q h pos (rw missed (direct q top h.shape pos))
