-- ===== src/Driver/Invariant/Creation.antt =====
-- `CONVERTTOFIBER` and `CREATEFIBER` of multi_thread/Module/fiber_ioctl.c keep `IsValidKernel`.
use linux_fibers.Prelude.{
  ℕ, suc, ◌+◌, ◌%◌, ◌≡◌, ◌<◌, ◌≤◌, refl, none, some, arith, Option-cases, inl, inr,
}
use linux_fibers.Prelude.Table.{find-cons}
use linux_fibers.Driver.State.{
  word, Process, Kernel, process_key, search_process, search_thread, put_process, new_process,
}
use linux_fibers.Driver.Task.{Task, CreateArg}
use linux_fibers.Driver.Convert.{converted_process, add_process, convert_in, convert}
use linux_fibers.Driver.Create.{created_process, create_with, create}
use linux_fibers.Driver.Invariant.{IsValidProcess, IsValidKernel}
use linux_fibers.Driver.Invariant.Processes.{
  new_process-IsValidProcess, converted_process-IsValidProcess, created_process-IsValidProcess,
}
use linux_fibers.Driver.Invariant.Kernels.{
  searched, put_process-IsValidKernel, add_process-IsValidKernel,
}
use linux_fibers.Driver.Invariant.Searches.{idle_of_search, search_own}
use linux_fibers.Driver.Invariant.Outcomes.{
  Safe, Safe-if, return-Safe, returned-Safe, replaced-Safe,
}

module _ (n : ℕ) (room : suc n < word) (c : Task) where
  -- The new count of threads does not wrap.
  converted-Safe :
      (k : Kernel) (p : Process)
      → IsValidKernel n k
      → search_process p.pid k ≡ some p
      → search_thread c.pid p ≡ none
      → IsValidKernel (suc n) (
          put_process
            (converted_process c p)
            (record k { count_threads = (k.count_threads + 1) % word }))
  converted-Safe k p v there idle =
      put_process-IsValidKernel n (suc n) ((k.count_threads + 1) % word) k (converted_process c p) p
        v (omega arith) (unfold converted_process in there)
        (converted_process-IsValidProcess c p found.0 (idle_of_search c.pid p idle)
          (omega (arith, found.1)))
        (unfold converted_process in omega (arith, found.1))
        (unfold converted_process in omega (arith, v.counted, v.few_threads))
        (omega (arith, v.counted, v.few_threads))
    where
      found : IsValidProcess p × (p.fiber_id ≤ n) × (p.pid ≡ p.pid)
      found = searched n p.pid k p v there

  convert_in-Safe :
      (k : Kernel) (p : Process)
      → IsValidKernel n k
      → search_process p.pid k ≡ some p
      → Safe (suc n) c (convert_in c p k)
  unfolding convert_in
  convert_in-Safe k p v there = elim (Option-cases (search_thread c.pid p)) [
    | inr (t, h) ↦ rw (h, convert_in) (return-Safe n room c _ k v)
    | inl h ↦
        rw (h, convert_in)
          (Safe-if (suc n) c c.thread_allocated _ _
            (λ _.
              Safe-if (suc n) c c.fiber_allocated _ _
                (λ _. returned-Safe n room c _ _ (converted-Safe k p v there h))
                (λ failed. ground arith))
            (λ _. return-Safe n room c _ k v))
  ]

  search-added : (p : Process) (k : Kernel) → search_process p.pid (add_process p k) ≡ some p
  unfolding search_process add_process
  search-added p k = ground (arith, find-cons process_key p.pid p k.list_process)

  pub convert-Safe : (k : Kernel) → IsValidKernel n k → Safe (suc n) c (convert c k)
  unfolding convert
  convert-Safe k v = elim (Option-cases (search_process c.tgid k)) [
    | inr (p, h) ↦ rw (h, convert) (convert_in-Safe k p v (search_own n c.tgid k p v h))
    | inl h ↦
        rw (h, convert)
          (Safe-if (suc n) c c.process_allocated _ _
            (λ _.
              convert_in-Safe (add_process (new_process c.tgid) k) (new_process c.tgid)
                (add_process-IsValidKernel n k (new_process c.tgid) v (unfold new_process in h)
                  (new_process-IsValidProcess c.tgid) (unfold new_process in omega arith)
                  (unfold new_process in refl))
                (search-added (new_process c.tgid) k))
            (λ _. return-Safe n room c _ k v))
  ]

  created-Safe :
      (args : CreateArg) (k : Kernel) (p : Process)
      → IsValidKernel n k
      → search_process c.tgid k ≡ some p
      → IsValidKernel (suc n) (put_process (created_process c args p) k)
  created-Safe args k p v there =
      replaced-Safe n room c k _ p v (unfold created_process in search_own n c.tgid k p v there)
        (created_process-IsValidProcess c args p found.0 (omega (arith, found.1)))
        (unfold created_process in omega (arith, found.1)) (unfold created_process in refl)
    where
      found : IsValidProcess p × (p.fiber_id ≤ n) × (p.pid ≡ c.tgid)
      found = searched n c.tgid k p v there

  create_with-Safe :
      (args : CreateArg) (k : Kernel) → IsValidKernel n k → Safe (suc n) c (create_with c args k)
  unfolding create_with
  create_with-Safe args k v = elim (Option-cases (search_process c.tgid k)) [
    | inl h ↦ rw (h, create_with) (return-Safe n room c _ k v)
    | inr (p, h) ↦
        rw (h, create_with)
          (elim (Option-cases (search_thread c.pid p)) [
            | inl idle ↦ rw idle (return-Safe n room c _ k v)
            | inr (t, busy) ↦ rw busy (
                Safe-if (suc n) c c.fiber_allocated _ _
                  (λ _. returned-Safe n room c _ _ (created-Safe args k p v h))
                  (λ failed. ground arith))
          ])
  ]

  pub create-Safe : (k : Kernel) → IsValidKernel n k → Safe (suc n) c (create c k)
  unfolding create
  create-Safe k v =
      Safe-if (suc n) c c.args_allocated _ _
        (λ _. elim (Option-cases c.create_arg) [
          | inl e ↦ rw e (return-Safe n room c _ k v)
          | inr (args, e) ↦ rw e (create_with-Safe args k v)
        ])
        (λ failed. ground arith)
