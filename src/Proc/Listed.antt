-- ===== src/Proc/Listed.antt =====
-- What the directory of multi_thread/Module/proc.c lists for a process in a valid state.
use linux_fibers.Prelude.{
  ℕ, ◌%◌, ◌^◌, true, false, ◌≡◌, ◌<◌, refl, ◌∙◌, List, [], ◌∷◌, Option, none, some, update, arith,
}
use linux_fibers.Prelude.Table.{find, Distinct}
use linux_fibers.Driver.State.{Fiber, Process, Kernel, fiber_key, search_process}
use linux_fibers.Driver.Invariant.{runs, IsValidProcess}
use linux_fibers.Proc.Entries.{
  Entry, no_entry, fiber_entry, fill, table, fill_null, fiber_entries, fibers_readdir,
  fibers_lookup,
}

-- The entry that stands for a fiber that is found, or else `e`.
abbrev pub entry_or : Entry → Option Fiber → Entry
entry_or e none = e
entry_or e (some f) = fiber_entry f

fill_lem :
    (n : ℕ) (fs : List Fiber) (t : ℕ → Entry)
    → Distinct fiber_key fs
    → ((i : ℕ) (f : Fiber) → find fiber_key i fs ≡ some f → i < n)
    → (u : ℕ → Entry) × (fill n fs t ≡ some u)
      × ((i : ℕ) → u i ≡ entry_or (t i) (find fiber_key i fs))
unfolding fill find
fill_lem n [] t d below = (t, refl, λ i. refl)
fill_lem n (f ∷ fs) t d below =
    let (u, e, h) =
      fill_lem n fs (update t f.index (fiber_entry f)) d.1
        (λ i g there. below i g (ground (arith, d.0))) in
    let low : f.index < n = below f.index f (ground arith) in
    (u, ground (arith, e), λ i. h i ∙ ground (arith, d.0))

-- For a process in a valid state, and where `kzalloc` grants the table, the directory is read and looked
-- up in the same table, which is filled without a write past its end: the entry at each index below the number of fibers made is
-- that of the fiber with this index, with its name, and a zeroed entry where that fiber has gone. The number of entries that is
-- passed on is the number of fibers made, cut to an `unsigned int`. Where `kzalloc` does not grant the
-- table, both write through a null pointer, unless the process has no fiber.
pub listed :
    (tgid : ℕ) (k : Kernel) (p : Process)
    → IsValidProcess p
    → search_process tgid k ≡ some p
    → (u : ℕ → Entry) × (fibers_readdir true (some tgid) k ≡ table u (p.fiber_id % 2 ^ 32))
      × (fibers_lookup true (some tgid) k ≡ table u (p.fiber_id % 2 ^ 32))
      × ((i : ℕ) → u i ≡ entry_or no_entry (find fiber_key i p.fibers))
      × (fibers_readdir false (some tgid) k ≡ fill_null p.fibers (p.fiber_id % 2 ^ 32))
      × (fibers_lookup false (some tgid) k ≡ fill_null p.fibers (p.fiber_id % 2 ^ 32))
unfolding fibers_readdir fibers_lookup fiber_entries runs
listed tgid k p v there =
    let (u, e, h) =
      fill_lem p.fiber_id p.fibers (λ _. no_entry) v.fibers_distinct
        (λ i f here. v.issued i f.running (ground arith)) in
    (u, ground (arith, e), ground (arith, e), h, ground arith, ground arith)
