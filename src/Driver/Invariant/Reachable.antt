-- ===== src/Driver/Invariant/Reachable.antt =====
-- `IsValidKernel` in every state that the module of multi_thread/Module/fiber_ioctl.c reaches.
use linux_fibers.Prelude.{ℕ, suc, ◌≡◌, ◌<◌, refl, some, arith, subst}
use linux_fibers.Prelude.Table.{find}
use linux_fibers.Driver.State.{word, Kernel, Process, search_process}
use linux_fibers.Driver.Task.{Task}
use linux_fibers.Driver.Ioctl.{
  Request, convert_to_fiber, create_fiber, switch_to_fiber, fls_alloc_request, fls_free_request,
  fls_get_request, fls_set_request, other_request, my_ioctl,
}
use linux_fibers.Driver.System.{fresh_kernel, Step, request, exit, Reach, start, next}
use linux_fibers.Driver.Invariant.{active, total_threads, IsValidKernel}
use linux_fibers.Driver.Invariant.Kernels.{searched}
use linux_fibers.Driver.Invariant.Outcomes.{Safe, return-Safe}
use linux_fibers.Driver.Invariant.Creation.{convert-Safe, create-Safe}
use linux_fibers.Driver.Invariant.Switching.{switch_to-Safe}
use linux_fibers.Driver.Invariant.Slots.{
  fls_alloc-Safe, fls_free-Safe, fls_get_value-Safe, fls_set_value-Safe,
}
use linux_fibers.Driver.Invariant.Exiting.{pre_handler-Safe}

-- For each request, in a state that is valid after n handlers: if the handler returns, the state is
-- valid after n + 1; and it follows a null pointer only if the allocation of the fiber or of the
-- arguments failed.
pub my_ioctl-Safe :
    (n : ℕ)
    → suc n < word
    → (c : Task) (r : Request) (k : Kernel) → IsValidKernel n k
    → Safe (suc n) c (my_ioctl c r k)
unfolding my_ioctl
my_ioctl-Safe n room c convert_to_fiber k v = convert-Safe n room c k v
my_ioctl-Safe n room c create_fiber k v = create-Safe n room c k v
my_ioctl-Safe n room c (switch_to_fiber fib_id) k v = switch_to-Safe n room c k fib_id v
my_ioctl-Safe n room c fls_alloc_request k v = fls_alloc-Safe n room c k v
my_ioctl-Safe n room c (fls_free_request index) k v = fls_free-Safe n room c k index v
my_ioctl-Safe n room c fls_get_request k v = fls_get_value-Safe n room c k v
my_ioctl-Safe n room c fls_set_request k v = fls_set_value-Safe n room c k v
my_ioctl-Safe n room c other_request k v = return-Safe n room c _ k v

Step-IsValidKernel :
    (n : ℕ)
    → suc n < word
    → {k k' : Kernel} → Step k k'
    → IsValidKernel n k
    → IsValidKernel (suc n) k'
Step-IsValidKernel n room {k} (request c r reply e) v =
    subst (Safe (suc n) c) e (my_ioctl-Safe n room c r k v)
Step-IsValidKernel n room {k} (exit c reply e) v =
    subst (Safe (suc n) c) e (pre_handler-Safe n room c k v)

pub fresh_kernel-IsValidKernel : IsValidKernel 0 fresh_kernel
unfolding total_threads find
fresh_kernel-IsValidKernel = record {
  distinct = tt;
  counted = refl;
  few_threads = omega arith;
  few_fibers = λ q p h. absurd (ground arith);
  valid = λ q p h. absurd (ground arith);
}

pub Reach-IsValidKernel : {n : ℕ} {k : Kernel} → n < word → Reach n k → IsValidKernel n k
Reach-IsValidKernel room start = fresh_kernel-IsValidKernel
Reach-IsValidKernel room (next {n} r st) =
    Step-IsValidKernel n room st (Reach-IsValidKernel (omega arith) r)

-- In every state reached by fewer than 2 ^ 64 handlers, two threads of a process that have the same
-- active fiber are one thread.
pub exclusive :
    {n : ℕ} {k : Kernel}
    → n < word
    → Reach n k
    → (tgid : ℕ) (p : Process) → search_process tgid k ≡ some p
    → (q r i : ℕ) → active p q ≡ some i
    → active p r ≡ some i
    → q ≡ r
exclusive {n} {k} room reach tgid p there =
    (searched n tgid k p (Reach-IsValidKernel room reach) there).0.one_owner
