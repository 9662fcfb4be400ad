-- ===== src/Simulation/Safety.antt =====
-- The rounds of `main_loop` in multi_thread/src/main.c, over any queue.
use mathlib.Core.List.{Perm}
use linux_fibers.Prelude.{
  ℕ, zero, suc, ◌≡◌, ◌≢◌, refl, sym, ap, subst, Bool, true, false, not, ◌&&◌, List, [], ◌∷◌, Option,
  none, some, length, ◌==◌, if◌then◌else◌, arith, ◌⊎◌, inl, inr, ℤ,
}
use linux_fibers.Prelude.Results.{Outcome, ◌>>=◌, gives, leaves, GivesOrLeaves, Yields-bind}
use linux_fibers.Prelude.Bags.{count, length-perm, weight-perm}
use linux_fibers.Reals.{Reals}
use linux_fibers.Cell.State.{Cell}
use linux_fibers.Cell.Events.{
  Kind, init, start_call, end_call, unknown, all_calls, Msg, Answer, process_event,
}
use linux_fibers.Simulation.Queue.{EventQueue}
use linux_fibers.Simulation.Loop.{
  is_error, is_init, outside_calendar, Fiber, Status, exits, continues, completes, put_events,
  finish, work, round, first_event, prepare, rounds,
}
use linux_fibers.Simulation.Pending.{is_start, IsPending, IsPending-perm}
use linux_fibers.Simulation.Progress.{added, goes_on, to_fiber, first_goes_on}

and_not : (a b : Bool) → (a && not b) ≡ true → (a ≡ true) × (b ≡ false)
and_not true false h = (refl, refl)
and_not true true h = absurd (ground arith)
and_not false b h = absurd (ground arith)

init_kind : (k : Kind) → is_init k ≡ true → k ≡ init
unfolding is_init
init_kind init h = refl
init_kind start_call h = absurd (ground arith)
init_kind end_call h = absurd (ground arith)
init_kind (unknown n) h = absurd (ground arith)

module _ (F : Reals) (E : EventQueue F (Msg F)) where
  -- A fiber before its first event, which waits alone, or with a cell and the events of it.
  abbrev pub IsAlive : Fiber F E → Type 0
  IsAlive f =
      (bag : List (Msg F)) × E.Holds f.queue bag
      × (((f.state ≡ none)
            × (stamp : F.R) × (channel : Option ℕ) × (bag
                ≡ first_event F E f.id stamp channel ∷ []))
          ⊎ ((c : Cell F) × (f.state ≡ some c) × IsPending F f.id c bag))

  -- The program has not stopped, unless the queue has left its calendar, and where the work is over, all calls of the cell are complete.
  abbrev pub IsSafe : Status F E → Type 0
  IsSafe (exits e) = e ≡ outside_calendar
  IsSafe (continues f) = IsAlive f
  IsSafe (completes f) = (c : Cell F) × (f.state ≡ some c) × (c.complete_calls ≡ all_calls)

  put_events-added :
      (es bag : List (Msg F)) (q : E.Q)
      → E.Holds q bag
      → GivesOrLeaves (λ q'. E.Holds q' (added F es bag)) (put_events F E es q)
  unfolding put_events
  put_events-added [] bag q h = gives h
  put_events-added (e ∷ rest) bag q h =
      Yields-bind (E.put-Holds e.timestamp e q bag h) (λ q1 k. put_events-added rest (e ∷ bag) q1 k)

  if_IsSafe :
      (b : Bool) (f : Fiber F E)
      → (b ≡ true → IsSafe (completes f))
      → IsSafe (continues f)
      → IsSafe (if b then completes f else continues f)
  if_IsSafe true f done more = done refl
  if_IsSafe false f done more = more

  finish-IsSafe :
      (f : Fiber F E) (event : Msg F) (q : E.Q) (a : Answer F) (rest : List (Msg F))
      → E.Holds q rest
      → IsPending F f.id a.cell (added F a.events rest)
      → (is_init event.kind ≡ false → a.finished ≡ true → a.cell.complete_calls ≡ all_calls)
      → IsSafe (finish F E f event q a)
  unfolding finish
  finish-IsSafe f event q a rest h v at_end =
      by_events (put_events F E a.events q) refl (put_events-added a.events rest q h)
    where
      by_events :
          (o : Outcome E.Q)
          → put_events F E a.events q ≡ o
          → GivesOrLeaves (λ q'. E.Holds q' (added F a.events rest)) o
          → IsSafe (finish F E f event q a)
      by_events o e (leaves l) = rw (e, finish) refl
      by_events o e (gives {a = q1} k) =
          rw (e, finish)
            (if_IsSafe (a.finished && not (is_init event.kind))
              (record { id = f.id; queue = q1; state = some a.cell; seed = a.seed })
              (λ b. (
                a.cell,
                refl,
                at_end (and_not a.finished (is_init event.kind) b).1
                    (and_not a.finished (is_init event.kind) b).0,
              ))
              (added F a.events rest, k, inr (a.cell, refl, v)))

  -- The one event that waits is the first one.
  first_facts :
      (id : ℕ) (stamp : F.R) (channel : Option ℕ) (event : Msg F) (rest : List (Msg F))
      → Perm (first_event F E id stamp channel ∷ []) (event ∷ rest)
      → (event.kind ≡ init) × (event.receiver ≡ id) × (rest ≡ [])
  unfolding first_event is_init
  first_facts id stamp channel event rest p =
      let alone : rest ≡ [] = nothing rest (omega (arith, length-perm p)) in
      let inits = weight-perm (λ e. if is_init e.kind then 1 else 0) p in
      let mine = weight-perm (λ e. if e.receiver == id then 1 else 0) p in
      let no_inits = ap (count (λ e. is_init e.kind)) alone in
      let no_mine = ap (count (λ e. e.receiver == id)) alone in
      (init_kind event.kind (ground (arith, inits, no_inits)), ground (arith, mine, no_mine), alone)
    where
      nothing : (l : List (Msg F)) → length l ≡ 0 → l ≡ []
      nothing [] h = refl
      nothing (x ∷ l) h = absurd (omega arith)

  worked :
      (stale : F.R) (garbage : ℕ → ℕ → Bool) (f : Fiber F E) (event : Msg F) (q : E.Q)
      (a : Answer F)
      → event.receiver ≡ f.id
      → process_event F stale garbage event f.state f.seed ≡ some a
      → work F E stale garbage f event q ≡ finish F E f event q a
  unfolding work
  worked stale garbage f event q a to e =
      let mine : (event.receiver == f.id) ≡ true = ground (arith, to) in rw (mine, e) refl

  not_empty :
      (f : Fiber F E) (bag : List (Msg F))
      → (((f.state ≡ none)
            × (stamp : F.R) × (channel : Option ℕ) × (bag
                ≡ first_event F E f.id stamp channel ∷ []))
          ⊎ ((c : Cell F) × (f.state ≡ some c) × IsPending F f.id c bag))
      → bag ≢ []
  not_empty f bag (inl (is, stamp, channel, only)) e = absurd (ground (arith, only))
  not_empty f bag (inr (c, is, v)) e =
      absurd (omega (arith, v.one_start, ap (count (is_start F)) e))

  work-IsSafe :
      (stale : F.R) (garbage : ℕ → ℕ → Bool) (f : Fiber F E) (event : Msg F) (q : E.Q)
      (bag rest : List (Msg F))
      → E.Holds q rest
      → Perm bag (event ∷ rest)
      → (((f.state ≡ none)
            × (stamp : F.R) × (channel : Option ℕ) × (bag
                ≡ first_event F E f.id stamp channel ∷ []))
          ⊎ ((c : Cell F) × (f.state ≡ some c) × IsPending F f.id c bag))
      → IsSafe (work F E stale garbage f event q)
  unfolding work
  work-IsSafe stale garbage f event q bag rest h p (inl (is, stamp, channel, only)) =
      let p' = subst (λ b. Perm b (event ∷ rest)) only p in
      let (k, to, alone) = first_facts f.id stamp channel event rest p' in
      let (a, e, v, on) = first_goes_on F stale garbage f.id f.seed event k to in
      let e' = subst (λ s. process_event F stale garbage event s f.seed ≡ some a) (sym is) e in
      rw (worked stale garbage f event q a to e') (
        finish-IsSafe f event q a rest h
          (subst (λ r. IsPending F f.id a.cell (added F a.events r)) (sym alone) v)
          (λ i done. absurd (ground (arith, on))))
  work-IsSafe stale garbage f event q bag rest h p (inr (c, is, v)) =
      let w = IsPending-perm F f.id c bag (event ∷ rest) p v in
      let (a, e, g) = goes_on F stale garbage f.id c f.seed event rest w in
      let e' = subst (λ s. process_event F stale garbage event s f.seed ≡ some a) (sym is) e in
      let to = to_fiber F stale garbage f.id c f.seed event rest w in
      rw (worked stale garbage f event q a to e')
        (finish-IsSafe f event q a rest h g.pending (λ i done. g.at_end done))

  round-IsSafe :
      (stale : F.R) (garbage : ℕ → ℕ → Bool) (f : Fiber F E)
      → IsAlive f
      → IsSafe (round F E stale garbage f)
  unfolding round
  round-IsSafe stale garbage f (bag, h, waiting) =
      by_get (E.get f.queue) refl (E.get-Holds f.queue bag h)
    where
      by_get :
          (o : Outcome (Option (Msg F) × E.Q))
          → E.get f.queue ≡ o
          → GivesOrLeaves
              (λ r.
                ((bag ≡ []) × (r.0 ≡ none))
                ⊎ ((a : Msg F) × (rest : List (Msg F)) × (r.0 ≡ some a)
                    × Perm bag (a ∷ rest)
                    × E.Holds r.1 rest))
              o
          → IsSafe (round F E stale garbage f)
      by_get o e (leaves l) = rw (e, round) refl
      by_get o e (gives (inl (empty, none_got))) = absurd (not_empty f bag waiting empty)
      by_get o e (gives {a = r} (inr (event, rest, got, p, k))) =
          rw (e, round) (rw got (work-IsSafe stale garbage f event r.1 bag rest k p waiting))

  rounds-IsSafe :
      (stale : ℕ → F.R) (garbage : ℕ → ℕ → ℕ → Bool) (fuel : ℕ) (s : Status F E)
      → IsSafe s
      → IsSafe (rounds F E stale garbage fuel s)
  unfolding rounds
  rounds-IsSafe stale garbage zero s h = h
  rounds-IsSafe stale garbage (suc fuel) (exits e) h = h
  rounds-IsSafe stale garbage (suc fuel) (completes f) h = h
  rounds-IsSafe stale garbage (suc fuel) (continues f) h =
      rounds-IsSafe stale garbage fuel (round F E (stale fuel) (garbage fuel) f)
        (round-IsSafe (stale fuel) (garbage fuel) f h)

  prepare-IsSafe :
      (id : ℕ) (q_idx state_idx : ℤ) (memory : E.Q) (stamp : F.R) (channel : Option ℕ)
      (seed : F.Seed)
      → is_error q_idx ≡ false
      → is_error state_idx ≡ false
      → IsSafe (prepare F E id q_idx state_idx memory stamp channel seed)
  unfolding prepare
  prepare-IsSafe id q_idx state_idx memory stamp channel seed q_ok state_ok =
      by_put (E.init_queue memory >>= E.put (F.decimal 0 0) first) refl
        (Yields-bind (E.init-Holds memory) (λ q h. E.put-Holds (F.decimal 0 0) first q [] h))
    where
      first : Msg F
      first = first_event F E id stamp channel

      by_put :
          (o : Outcome E.Q)
          → (E.init_queue memory >>= E.put (F.decimal 0 0) first) ≡ o
          → GivesOrLeaves (λ q. E.Holds q (first ∷ [])) o
          → IsSafe (prepare F E id q_idx state_idx memory stamp channel seed)
      by_put o e (leaves l) = rw (q_ok, state_ok, e, prepare) refl
      by_put o e (gives k) =
          rw (q_ok, state_ok, e, prepare) (first ∷ [], k, inl (refl, stamp, channel, refl))

  -- The work of a fiber that gets its two indices: however often the loop goes round, and whatever
  -- the memory held and the draws are, none of the exits is taken, and `ProcessEvent` and the queue
  -- do not fail, unless the queue leaves its calendar. The loop ends only with a cell of which all calls are complete.
  pub main_loop-IsSafe :
      (stale : ℕ → F.R) (garbage : ℕ → ℕ → ℕ → Bool) (fuel id : ℕ) (q_idx state_idx : ℤ)
      (memory : E.Q) (stamp : F.R) (channel : Option ℕ) (seed : F.Seed)
      → is_error q_idx ≡ false
      → is_error state_idx ≡ false
      → IsSafe
          (rounds F E stale garbage fuel (prepare F E id q_idx state_idx memory stamp channel seed))
  main_loop-IsSafe stale garbage fuel id q_idx state_idx memory stamp channel seed q_ok state_ok =
      rounds-IsSafe stale garbage fuel (prepare F E id q_idx state_idx memory stamp channel seed)
        (prepare-IsSafe id q_idx state_idx memory stamp channel seed q_ok state_ok)
