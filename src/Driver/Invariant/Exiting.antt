-- ===== src/Driver/Invariant/Exiting.antt =====
-- `Pre_Handler` of multi_thread/Module/fiber_ioctl.c keeps `IsValidKernel`.
use linux_fibers.Prelude.{
  ℕ, suc, ◌+◌, ◌-◌, ◌%◌, ◌≡◌, ◌<◌, ◌≤◌, some, arith, Option-cases, inl, inr, List, [], ◌∷◌, length,
  ap, ◌∙◌,
}
use linux_fibers.Prelude.Table.{find, find-key, remove}
use linux_fibers.Driver.State.{
  word, Thread, Process, Kernel, thread_key, search_process, search_thread, put_process,
  new_process,
}
use linux_fibers.Driver.Task.{Task}
use linux_fibers.Driver.Invariant.{active, IsValidProcess, IsValidKernel}
use linux_fibers.Driver.Invariant.Turnover.{without_thread-IsValidProcess}
use linux_fibers.Driver.Invariant.Kernels.{
  searched, put_process-IsValidKernel, drop_process-IsValidKernel, search-put_process,
}
use linux_fibers.Driver.Invariant.Searches.{active_of_search, active_found, search_own}
use linux_fibers.Driver.Invariant.Outcomes.{Safe, return-Safe}
use linux_fibers.Driver.Exit.{count_down, without_thread, exit_thread, pre_handler}
use linux_fibers.Driver.Invariant.Kernels.{total_threads-modify}

length-remove :
    {A : Type 0} (key : A → ℕ) (k : ℕ) (x : A) (xs : List A)
    → find key k xs ≡ some x
    → length (remove key k xs) + 1 ≡ length xs
unfolding find remove
length-remove key k x [] h = ground arith
length-remove key k x (y ∷ xs) h = ground (arith, length-remove key k x xs)

-- A thread that is found is counted.
counted_thread :
    (n : ℕ) (k : Kernel) (p : Process)
    → IsValidKernel n k
    → search_process p.pid k ≡ some p
    → 0 < length p.threads
    → 0 < k.count_threads
unfolding search_process new_process
counted_thread n k p v there some_thread =
    omega (arith, v.counted, total_threads-modify p.pid (new_process 0) p k.list_process there)

module _ (n : ℕ) (room : suc n < word) (c : Task) where
  left-Safe :
      (k : Kernel) (p : Process) (t : Thread)
      → IsValidKernel n k
      → search_process c.tgid k ≡ some p
      → search_thread c.pid p ≡ some t
      → IsValidKernel n (put_process (without_thread t p) (count_down k))
  unfolding count_down
  left-Safe k p t v there busy =
      put_process-IsValidKernel n n ((k.count_threads + word - 1) % word) k (without_thread t p) p v
        (omega arith) (unfold without_thread in own)
        (without_thread-IsValidProcess t p found.0 mine) (unfold without_thread in found.1)
        (unfold without_thread in omega (arith, some_thread, fewer, v.counted, v.few_threads))
        (omega (arith, some_thread, v.counted, v.few_threads))
    where
      found : IsValidProcess p × (p.fiber_id ≤ n) × (p.pid ≡ c.tgid)
      found = searched n c.tgid k p v there

      own : search_process p.pid k ≡ some p
      own = search_own n c.tgid k p v there

      same : t.pid ≡ c.pid
      same = unfold search_thread in find-key thread_key c.pid p.threads t busy

      mine : active p t.pid ≡ some t.active_fiber
      mine = ap (active p) same ∙ active_of_search c.pid p t busy

      fewer : length (remove thread_key t.pid p.threads) + 1 ≡ length p.threads
      fewer =
          unfold search_thread in
          length-remove thread_key t.pid t p.threads
            (ap (λ q. find thread_key q p.threads) same ∙ busy)

      some_thread : 0 < k.count_threads
      some_thread = counted_thread n k p v own (omega (arith, fewer))

  pub pre_handler-Safe : (k : Kernel) → IsValidKernel n k → Safe (suc n) c (pre_handler c k)
  unfolding pre_handler exit_thread
  pre_handler-Safe k v = elim (Option-cases (search_process c.tgid k)) [
    | inl h ↦ rw (h, pre_handler) (return-Safe n room c _ k v)
    | inr (p, there) ↦
        rw (there, pre_handler)
          (elim (Option-cases (search_thread c.pid p)) [
            | inl h ↦ rw h (return-Safe n room c _ k v)
            | inr (t, busy) ↦
                let (f, here) = active_found c.pid p t (searched n c.tgid k p v there).0 busy in
                rw (busy, here, exit_thread)
                  (return-Safe n room c _ _ (
                    drop_process-IsValidKernel n _ p (without_thread t p)
                      (left-Safe k p t v there busy)
                      (unfold without_thread count_down in
                        search-put_process (count_down k) (without_thread t p) p
                          (unfold search_process in search_own n c.tgid k p v there))))
          ])
  ]
