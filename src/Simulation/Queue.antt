-- ===== src/Simulation/Queue.antt =====
-- What the event loop of multi_thread/src/main.c needs of its queue: the operations of
-- multi_thread/src/calqueue.h, and what they do to the bag of events that the queue holds.
use mathlib.Core.List.{Perm}
use linux_fibers.Prelude.{◌≡◌, List, [], ◌∷◌, Option, none, some, ◌⊎◌}
use linux_fibers.Prelude.Results.{Outcome, GivesOrLeaves}
use linux_fibers.Reals.{Reals}

pub record EventQueue (F : Reals) (A : Type 0) : Type 1 where
  pub Q : Type 0
  pub init_queue : Q → Outcome Q
  pub put : F.R → A → Q → Outcome Q
  -- `none` is the null pointer.
  pub get : Q → Outcome (Option A × Q)
  pub Holds : Q → List A → Type 0
  pub init-Holds : (garbage : Q) → GivesOrLeaves (λ q. Holds q []) (init_queue garbage)
  pub put-Holds :
      (p : F.R) (a : A) (q : Q) (bag : List A)
      → Holds q bag
      → GivesOrLeaves (λ q'. Holds q' (a ∷ bag)) (put p a q)
  pub get-Holds :
      (q : Q) (bag : List A)
      → Holds q bag
      → GivesOrLeaves
          (λ r.
            ((bag ≡ []) × (r.0 ≡ none))
            ⊎ ((a : A) × (rest : List A) × (r.0 ≡ some a) × Perm bag (a ∷ rest) × Holds r.1 rest))
          (get q)
