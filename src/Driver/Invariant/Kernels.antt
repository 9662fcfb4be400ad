-- ===== src/Driver/Invariant/Kernels.antt =====
-- Replacing, adding and dropping a process of multi_thread/Module/fiber_ioctl.c keeps
-- `IsValidKernel`.
use linux_fibers.Prelude.{
  ℕ, ◌+◌, ◌≡◌, ◌≤◌, refl, List, [], ◌∷◌, none, some, ◌==◌, if◌then◌else◌, arith, Bool-cases, inl,
  inr, length,
}
use linux_fibers.Prelude.Table.{
  find, modify, remove, find-key, find-cons, find-replace, replace-Distinct, find-remove,
  remove-Distinct,
}
use linux_fibers.Driver.State.{Process, Kernel, process_key, search_process, put_process}
use linux_fibers.Driver.Convert.{add_process}
use linux_fibers.Driver.Exit.{drop_process}
use mathlib.Core.Path.{subst}
use linux_fibers.Driver.Invariant.{IsValidProcess, total_threads, IsValidKernel}

pub total_threads-modify :
    (q : ℕ) (p' p : Process) (ps : List Process)
    → find process_key q ps ≡ some p
    → total_threads (modify process_key q (λ _. p') ps) + length p.threads
      ≡ total_threads ps + length p'.threads
unfolding total_threads find modify
total_threads-modify q p' p [] h = ground arith
total_threads-modify q p' p (x ∷ ps) h = ground (arith, total_threads-modify q p' p ps)

pub total_threads-remove :
    (q : ℕ) (p : Process) (ps : List Process)
    → find process_key q ps ≡ some p
    → total_threads (remove process_key q ps) + length p.threads ≡ total_threads ps
unfolding total_threads find remove
total_threads-remove q p [] h = ground arith
total_threads-remove q p (x ∷ ps) h = ground (arith, total_threads-remove q p ps)

-- What a search for a process finds.
pub searched :
    (n tgid : ℕ) (k : Kernel) (p : Process)
    → IsValidKernel n k
    → search_process tgid k ≡ some p
    → IsValidProcess p × (p.fiber_id ≤ n) × (p.pid ≡ tgid)
unfolding search_process
searched n tgid k p v h =
    (v.valid tgid p h, v.few_fibers tgid p h, find-key process_key tgid k.list_process p h)

-- The process found under the pid of `p'` is replaced by `p'`, and the count of threads follows.
pub put_process-IsValidKernel :
    (n m count : ℕ) (k : Kernel) (p' p : Process)
    → IsValidKernel n k
    → n ≤ m
    → search_process p'.pid k ≡ some p
    → IsValidProcess p'
    → p'.fiber_id ≤ m
    → count + length p.threads ≡ k.count_threads + length p'.threads
    → count ≤ m
    → IsValidKernel m (put_process p' (record k { count_threads = count }))
unfolding put_process search_process
put_process-IsValidKernel n m count k p' p v more there vp few counted small = record {
  distinct = replace-Distinct process_key p'.pid p' k.list_process refl v.distinct;
  counted = omega (arith, total_threads-modify p'.pid p' p k.list_process there);
  few_threads = omega (arith, total_threads-modify p'.pid p' p k.list_process there);
  few_fibers = λ q r h. ground (arith, v.few_fibers q r, found q);
  valid = λ q r h. elim (Bool-cases (p'.pid == q)) [
    | inl same ↦ let e : p' ≡ r = ground (arith, found q) in subst IsValidProcess e vp
    | inr other ↦ v.valid q r (ground (arith, found q))
  ];
}
  where
    found :
        (q : ℕ)
        → find process_key q (modify process_key p'.pid (λ _. p') k.list_process)
          ≡ (if p'.pid == q then some p' else find process_key q k.list_process)
    found q = find-replace process_key p'.pid q p' p k.list_process refl there

-- The replaced process is what a search finds.
pub search-put_process :
    (k : Kernel) (p' p : Process)
    → search_process p'.pid k ≡ some p
    → search_process p'.pid (put_process p' k) ≡ some p'
unfolding put_process search_process
search-put_process k p' p there =
    ground (arith, find-replace process_key p'.pid p'.pid p' p k.list_process refl)

-- A new process without threads.
pub add_process-IsValidKernel :
    (n : ℕ) (k : Kernel) (p : Process)
    → IsValidKernel n k
    → search_process p.pid k ≡ none
    → IsValidProcess p
    → p.fiber_id ≤ n
    → length p.threads ≡ 0
    → IsValidKernel n (add_process p k)
unfolding add_process search_process
add_process-IsValidKernel n k p v fresh vp few empty = record {
  distinct = (fresh, v.distinct);
  counted = unfold total_threads in omega arith;
  few_threads = unfold total_threads in omega arith;
  few_fibers = λ q r h. ground (arith, v.few_fibers q r, find-cons process_key q p k.list_process);
  valid = λ q r h. elim (Bool-cases (p.pid == q)) [
    | inl same ↦
        let e : p ≡ r = ground (arith, find-cons process_key q p k.list_process) in
        subst IsValidProcess e vp
    | inr other ↦ v.valid q r (ground (arith, find-cons process_key q p k.list_process))
  ];
}

-- The process with the pid of `p` is taken out when no thread is counted.
pub drop_process-IsValidKernel :
    (n : ℕ) (k : Kernel) (p r : Process)
    → IsValidKernel n k
    → search_process p.pid k ≡ some r
    → IsValidKernel n (drop_process p k)
unfolding drop_process search_process
drop_process-IsValidKernel n k p r v there = elim (Bool-cases (k.count_threads == 0)) [
  | inr e ↦ rw e v
  | inl e ↦ rw e (record {
    distinct = remove-Distinct process_key p.pid k.list_process v.distinct;
    counted = ground (arith, total_threads-remove p.pid r k.list_process there, v.counted);
    few_threads = omega (arith, total_threads-remove p.pid r k.list_process there);
    few_fibers = λ q o h. ground (arith, v.few_fibers q o, left q);
    valid = λ q o h. v.valid q o (ground (arith, left q));
  })
]
  where
    left :
        (q : ℕ)
        → find process_key q (remove process_key p.pid k.list_process)
          ≡ (if p.pid == q then none else find process_key q k.list_process)
    left q = find-remove process_key p.pid q k.list_process v.distinct

pub IsValidKernel-le : (n m : ℕ) (k : Kernel) → IsValidKernel n k → n ≤ m → IsValidKernel m k
IsValidKernel-le n m k v more = record {
  distinct = v.distinct;
  counted = v.counted;
  few_threads = omega arith;
  few_fibers = λ q p h. omega (arith, v.few_fibers q p h);
  valid = v.valid;
}
