-- ===== src/Driver/Invariant/Slots.antt =====
-- The FLS requests of multi_thread/Module/fiber_ioctl.c keep `IsValidKernel`.
use linux_fibers.Prelude.{
  ℕ, suc, ◌≡◌, ◌<◌, refl, ◌&&◌, some, ◌==◌, arith, Option-cases, inl, inr, ltb, ℤ,
}
use linux_fibers.Driver.State.{
  word, max_fls, bitmap_bits, Fiber, Process, Kernel, search_process, search_thread,
}
use linux_fibers.Driver.Task.{Task, FlsArg, Outcome, return}
use linux_fibers.Driver.Invariant.{IsValidKernel}
use linux_fibers.Driver.Invariant.Kernels.{searched, IsValidKernel-le}
use linux_fibers.Driver.Invariant.Searches.{active_found}
use linux_fibers.Driver.Invariant.Outcomes.{Safe, Safe-if, return-Safe, returned-Safe, written-Safe}
use linux_fibers.Driver.Fls.{
  take_slot, clear_slot, write_slot, with_fiber, write_fiber, fls_alloc_in, fls_alloc, fls_free_in,
  fls_free, fls_get_in, with_fls_arg, fls_get_value, fls_set_in, fls_set_value, find_first_zero_bit,
  test_bit,
}

module _ (n : ℕ) (room : suc n < word) (c : Task) where
  with_fiber-Safe :
      (k : Kernel) (no_process no_thread : Outcome) (body : Process → Fiber → Outcome)
      → IsValidKernel n k
      → Safe (suc n) c no_process
      → Safe (suc n) c no_thread
      → ((p : Process) (f : Fiber) → search_process c.tgid k ≡ some p → Safe (suc n) c (body p f))
      → Safe (suc n) c (with_fiber c k no_process no_thread body)
  unfolding with_fiber
  with_fiber-Safe k no_process no_thread body v hp ht hb =
      elim (Option-cases (search_process c.tgid k)) [
        | inl h ↦ rw (h, with_fiber) hp
        | inr (p, there) ↦
            rw (there, with_fiber)
              (elim (Option-cases (search_thread c.pid p)) [
                | inl h ↦ rw h ht
                | inr (t, busy) ↦
                    let (f, here) = active_found c.pid p t (searched n c.tgid k p v there).0 busy in
                    rw (busy, here) (hb p f there)
              ])
      ]

  write_fiber-Safe :
      (r : ℤ) (k : Kernel) (p : Process) (f : Fiber) (g : Fiber → Fiber)
      → IsValidKernel n k
      → search_process c.tgid k ≡ some p
      → ((f : Fiber) → (g f).index ≡ f.index)
      → ((f : Fiber) → (g f).running ≡ f.running)
      → Safe (suc n) c (return c r (write_fiber f g p k))
  unfolding write_fiber
  write_fiber-Safe r k p f g v there keeps same =
      returned-Safe n room c r _ (written-Safe n room c k p f.index g v there keeps same)

  pub fls_alloc-Safe : (k : Kernel) → IsValidKernel n k → Safe (suc n) c (fls_alloc c k)
  unfolding fls_alloc_in fls_alloc take_slot
  fls_alloc-Safe k v =
      with_fiber-Safe k _ _ _ v (return-Safe n room c _ k v) (return-Safe n room c _ k v)
        (λ p f there.
          Safe-if (suc n) c (find_first_zero_bit c f == max_fls) _ _
            (λ _. return-Safe n room c _ k v)
            (λ _.
              Safe-if (suc n) c (ltb (find_first_zero_bit c f) bitmap_bits) _ _
                (λ _. write_fiber-Safe _ k p f _ v there (λ _. refl) (λ _. refl)) (λ _. tt)))

  pub fls_free-Safe :
      (k : Kernel) (index : ℕ) → IsValidKernel n k → Safe (suc n) c (fls_free c index k)
  unfolding fls_free_in fls_free clear_slot
  fls_free-Safe k index v =
      with_fiber-Safe k _ _ _ v (return-Safe n room c _ k v) (return-Safe n room c _ k v)
        (λ p f there.
          Safe-if (suc n) c (ltb 0 index && ltb index max_fls) _ _
            (λ _.
              Safe-if (suc n) c (ltb index bitmap_bits) _ _
                (λ _. write_fiber-Safe _ k p f _ v there (λ _. refl) (λ _. refl)) (λ _. tt))
            (λ _. return-Safe n room c _ k v))

  with_fls_arg-Safe :
      (k : Kernel) (body : FlsArg → Outcome)
      → IsValidKernel n k
      → ((args : FlsArg) → Safe (suc n) c (body args))
      → Safe (suc n) c (with_fls_arg c k body)
  unfolding with_fls_arg
  with_fls_arg-Safe k body v hb =
      Safe-if (suc n) c c.args_allocated _ _
        (λ _. elim (Option-cases c.fls_arg) [
          | inl e ↦ rw e (return-Safe n room c _ k v)
          | inr (args, e) ↦ rw e (hb args)
        ])
        (λ _. return-Safe n room c _ k v)

  pub fls_get_value-Safe : (k : Kernel) → IsValidKernel n k → Safe (suc n) c (fls_get_value c k)
  unfolding fls_get_in fls_get_value
  fls_get_value-Safe k v = with_fls_arg-Safe k _ v (λ args.
      with_fiber-Safe k _ _ _ v (return-Safe n room c _ k v) (return-Safe n room c _ k v)
        (λ p f there.
          Safe-if (suc n) c (test_bit c f args.fls_index) _ _
            (λ _.
              Safe-if (suc n) c (ltb args.fls_index max_fls) _ _
                (λ _.
                  Safe-if (suc n) c c.copied_to_user _ _
                    (λ _. IsValidKernel-le n (suc n) k v (omega arith))
                    (λ _. return-Safe n room c _ k v))
                (λ _. tt))
            (λ _. return-Safe n room c _ k v)))

  pub fls_set_value-Safe : (k : Kernel) → IsValidKernel n k → Safe (suc n) c (fls_set_value c k)
  unfolding fls_set_in fls_set_value write_slot
  fls_set_value-Safe k v = with_fls_arg-Safe k _ v (λ args.
      with_fiber-Safe k _ _ _ v (return-Safe n room c _ k v) (return-Safe n room c _ k v)
        (λ p f there.
          Safe-if (suc n) c (test_bit c f args.fls_index) _ _
            (λ _.
              Safe-if (suc n) c (ltb args.fls_index max_fls) _ _
                (λ _. write_fiber-Safe _ k p f _ v there (λ _. refl) (λ _. refl)) (λ _. tt))
            (λ _. return-Safe n room c _ k v)))
