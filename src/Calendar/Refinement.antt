-- ===== src/Calendar/Refinement.antt =====
-- The operations of multi_thread/src/calqueue.h as operations on a bag of items: the abstract view
-- forgets the buckets, and the order of the items.
use mathlib.Core.List.{Perm}
use mathlib.Core.List.Perm
use linux_fibers.Prelude.{
  ◌<◌, ◌≡◌, refl, ap, true, List, [], ◌∷◌, Option, none, some, ◌↔◌, ◌⊎◌, inl, inr, length, ◌==◌,
  arith,
}
use linux_fibers.Prelude.Results.{gives, Yields, GivesOrLeaves, Yields-bind, Yields-map}
use linux_fibers.Prelude.Bags.{length-perm}
use linux_fibers.Reals.{Reals}
use linux_fibers.Calendar.State.{Node, Queue}
use linux_fibers.Calendar.Dequeue.{deq_with}
use linux_fibers.Calendar.Operations.{
  calqueue_init, calqueue_put, payload_of, calqueue_get, calqueue_empty,
}
use linux_fibers.Calendar.Shape.{Chains}
use linux_fibers.Calendar.Searching.{search_finds}
use linux_fibers.Calendar.Rebuilding.{localinit-Fresh}
use linux_fibers.Calendar.Bag.{Holds, MayLeave, MustShrink, put-Holds, get-Leaves}

module _ (F : Reals) (A : Type 0) (K : Chains F A) where
  -- Whatever `malloc` left in the memory, the queue after `calqueue_init` holds nothing.
  pub calqueue_init-Holds :
      (garbage : Queue F A) → GivesOrLeaves (λ q. Holds F A K q []) (calqueue_init F A garbage)
  unfolding calqueue_init
  calqueue_init-Holds garbage =
      Yields-bind
        (localinit-Fresh F A K 0 2 (F.decimal 1 0) (F.decimal 0 0) garbage (0, omega arith, refl)
          (inl refl))
        (λ q f. gives (record {
          shape = record {
            size = f.shape.size;
            place = f.shape.place;
            last = f.shape.last;
            top = f.shape.top;
            bot = f.shape.bot;
            chains = f.shape.chains;
            counted = f.shape.counted;
          };
          enabled = refl;
          fits = inl (omega (arith, f.shape.counted, ap length f.nothing));
          items = rw f.nothing (Perm.refl []);
        }))

  -- `calqueue_put` adds the item, or it leaves the calendar: this happens only where the index of the
  -- item's bucket is below 0, or where a resize is due, which computes the index of every item anew
  -- with the new width. In no other way does a resize lose, double or change an item, and inside it no
  -- other resize has anything to do.
  pub calqueue_put-Holds :
      (p : F.R) (a : A) (q : Queue F A) (bag : List (Node F A))
      → Holds F A K q bag
      → Yields
          (MayLeave F A K q p)
          (λ q'. Holds F A K q' (record { priority = p; payload = a } ∷ bag))
          (calqueue_put F A p a q)
  unfolding calqueue_put
  calqueue_put-Holds p a q bag h = put-Holds F A K 0 (record { priority = p; payload = a }) q bag h

  -- What `calqueue_get` returns of a bag, and the queue after it.
  abbrev pub Gets : List (Node F A) → Option A × Queue F A → Type 0
  Gets bag r =
      ((bag ≡ []) × (r.0 ≡ none) × Holds F A K r.1 [])
      ⊎ ((e : Node F A) × (rest : List (Node F A)) × (r.0 ≡ some e.payload)
          × Perm bag (e ∷ rest)
          × Holds F A K r.1 rest)

  -- `calqueue_get` of a queue that holds nothing returns the null pointer. Otherwise, unless a resize is
  -- due that leaves the calendar, it returns the payload of one of the items, and the queue holds the
  -- others: in no other way do the search or the resize fail, or the resize lose, double or change one.
  pub calqueue_get-Holds :
      (q : Queue F A) (bag : List (Node F A))
      → Holds F A K q bag
      → Yields (MustShrink F A K q) (Gets bag) (calqueue_get F A q)
  unfolding calqueue_get deq_with
  calqueue_get-Holds q [] h =
      let zero_items : (q.qsize == 0) ≡ true =
        ground (arith, h.shape.counted, length-perm h.items) in
      rw zero_items (gives (inl (refl, refl, h)))
  calqueue_get-Holds q (x ∷ bag) h =
      let some_items : 0 < length (x ∷ bag) = omega arith in
      let pos : 0 < q.qsize = omega (arith, h.shape.counted, length-perm h.items) in
      let found =
        Yields-map (search_finds F A K q h.shape pos) (λ r there. (there, λ e rest is. tt)) in
      Yields-bind (get-Leaves F A K (λ e. Unit) 0 q (x ∷ bag) h some_items found)
        (λ r (e, rest, is, tt, p, k). gives (inr (e, rest, ap (payload_of F A) is, p, k)))

  -- `calqueue_empty` tells whether the queue holds nothing.
  pub calqueue_empty_lem :
      (q : Queue F A) (bag : List (Node F A))
      → Holds F A K q bag
      → (calqueue_empty F A q ≡ true) ↔ (bag ≡ [])
  unfolding calqueue_empty
  calqueue_empty_lem q [] h = (λ e. refl, λ e. ground (arith, h.shape.counted, length-perm h.items))
  calqueue_empty_lem q (x ∷ bag) h = (
    λ e. absurd (ground (arith, h.shape.counted, length-perm h.items)),
    λ e. absurd (ground arith),
  )
