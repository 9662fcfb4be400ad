-- ===== src/Simulation/Joined.antt =====
-- The calendar queue of multi_thread/src/calqueue.c as the queue of multi_thread/src/main.c.
use mathlib.Core.List.{Perm, map}
use mathlib.Core.List.Perm
use linux_fibers.Prelude.{
  ℕ, ◌≡◌, refl, sym, ap, ◌∙◌, subst, Bool, false, List, [], ◌∷◌, Option, inl, inr, ℤ,
}
use linux_fibers.Prelude.Results.{Yields-map, Yields-leaving}
use linux_fibers.Reals.{Reals}
use linux_fibers.Cell.Events.{Msg}
use linux_fibers.Calendar.State.{Node, Queue}
use linux_fibers.Calendar.Operations.{calqueue_init, calqueue_put, calqueue_get}
use linux_fibers.Calendar.Shape.{any_chains}
use linux_fibers.Calendar.Bag.{Holds}
use linux_fibers.Calendar.Refinement.{calqueue_init-Holds, calqueue_put-Holds, calqueue_get-Holds}
use linux_fibers.Simulation.Queue.{EventQueue}
use linux_fibers.Simulation.Loop.{is_error, prepare, rounds}
use linux_fibers.Simulation.Safety.{IsSafe, main_loop-IsSafe}

module _ (F : Reals) (A : Type 0) where
  -- The payloads of the items.
  abbrev HoldsPayloads : Queue F A → List A → Type 0
  HoldsPayloads q bag =
      (items : List (Node F A)) × (map (λ e. e.payload) items ≡ bag)
      × Holds F A (any_chains F A) q items

  abbrev pub calendar_queue : EventQueue F A
  calendar_queue = record {
    Q = Queue F A;
    init_queue = calqueue_init F A;
    put = calqueue_put F A;
    get = calqueue_get F A;
    Holds = HoldsPayloads;
    init-Holds = λ garbage.
        Yields-map (calqueue_init-Holds F A (any_chains F A) garbage) (λ q h. ([], refl, h));
    put-Holds = λ p a q bag (items, e, h).
        Yields-map
          (Yields-leaving (calqueue_put-Holds F A (any_chains F A) p a q items h) (λ l. tt))
          (λ q' k. (record { priority = p; payload = a } ∷ items, ap (λ l. a ∷ l) e, k));
    get-Holds = λ q bag (items, e, h).
        Yields-map (Yields-leaving (calqueue_get-Holds F A (any_chains F A) q items h) (λ l. tt))
          (λ r out. elim out [
            | inl (empty, is, k) ↦ inl (sym e ∙ ap (map (λ e. e.payload)) empty, is)
            | inr (x, rest, is, p, k) ↦ inr (
              x.payload,
              map (λ e. e.payload) rest,
              is,
              subst (λ b. Perm b (x.payload ∷ map (λ e. e.payload) rest)) e
                  (Perm.map (λ e. e.payload) p),
              (rest, refl, k),
            )
          ]);
  }

module _ (F : Reals) where
  -- The work of a fiber that gets its two indices of local storage, over its calendar queue: however
  -- often the loop goes round, and whatever the memory held and the draws are, no exit of `main_loop`
  -- is taken, `ProcessEvent` does not fail, and the queue fails in no other way than by leaving its
  -- calendar, where the index of a bucket is below 0. The loop ends only with a cell of which
  -- all 15000 calls are complete.
  pub simulation-IsSafe :
      (stale : ℕ → F.R) (garbage : ℕ → ℕ → ℕ → Bool) (fuel id : ℕ) (q_idx state_idx : ℤ)
      (memory : Queue F (Msg F)) (stamp : F.R) (channel : Option ℕ) (seed : F.Seed)
      → is_error q_idx ≡ false
      → is_error state_idx ≡ false
      → IsSafe F (calendar_queue F (Msg F)) (
          rounds F
            (calendar_queue F (Msg F))
            stale
            garbage
            fuel
            (prepare F (calendar_queue F (Msg F)) id q_idx state_idx memory stamp channel seed))
  simulation-IsSafe = main_loop-IsSafe F (calendar_queue F (Msg F))
