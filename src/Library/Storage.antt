-- ===== src/Library/Storage.antt =====
-- Fiber-local storage through the library of multi_thread/src/function_calls.c.
use linux_fibers.Prelude.{ℕ, ◌≡◌, ◌<◌, refl, Bool, true, some, pos, arith}
use linux_fibers.Driver.State.{bitmap_bits, Fiber, Thread, Process, Kernel}
use linux_fibers.Driver.Task.{Task, done, plain_reply, return}
use linux_fibers.Driver.Fls.{fls_free_in, with_fiber, fls_free, fls_set_value, fls_get_value}
use linux_fibers.Driver.Ioctl.{fls_get_request, fls_set_request, my_ioctl}
use linux_fibers.Driver.Behaviour.Slots.{Located}
use linux_fibers.Driver.Behaviour.Values.{get-set}
use linux_fibers.Library.Session.{
  Session, Client, finished, ensure_open, ioctl_result, after_ioctl, ioctl,
}
use linux_fibers.Library.Calls.{
  with_arg, fls_free_call, read_value, fls_get_value_call, fls_set_value_call,
}

-- FlsFree never reports a failure of the kernel: over an open descriptor it answers true, whatever
-- the index, and also where the kernel freed nothing and answered false.
pub fls_free_reports_true :
    (c : Client) (index n : ℕ) (s s' : Session) (k k' : Kernel) (b : Bool)
    → s.opened ≡ true
    → s.fd ≡ some n
    → fls_free_call c index s k ≡ finished b s' k'
    → b ≡ true
unfolding fls_free_call ioctl ensure_open my_ioctl fls_free with_fiber fls_free_in return
    plain_reply ioctl_result
fls_free_reports_true c index n s s' k k' b o d h = ground arith

-- The kernel's part of a read that succeeds, as the library sees it.
read_back :
    (c : Task) (s : Session) (k : Kernel) (n index value old : ℕ)
    → s.fd ≡ some n
    → fls_get_value c k
      ≡ done
          (record {
            ret = pos 1;
            regs = c.user_regs;
            fxregs = c.fxregs;
            fls_out = some (record { fls_index = index; fls_data = value });
          })
          k
    → ioctl c fls_get_request s k 0 (read_value old) ≡ finished value s k
unfolding ioctl after_ioctl my_ioctl read_value ioctl_result
read_back c s k n index value old d e = ground arith

written :
    (c : Task) (s : Session) (k k' : Kernel) (n : ℕ)
    → s.fd ≡ some n
    → fls_set_value c k ≡ return c (pos 0) k'
    → ioctl c fls_set_request s k tt (λ _ _. tt) ≡ finished tt s k'
unfolding ioctl after_ioctl my_ioctl return
written c s k k' n d e = ground arith

-- With the device open, a converted thread sets a slot that it has allocated, below 64, and then
-- gets it through the library: FlsGetValue returns the value that FlsSetValue was given.
pub fls_get_value_call-fls_set_value_call :
    (c d : Client) (s : Session) (k : Kernel) (p : Process) (t : Thread) (f : Fiber)
    (n index value old : ℕ)
    → s.opened ≡ true
    → s.fd ≡ some n
    → Located c.task k p t f
    → index < bitmap_bits
    → f.fls_bitmap index ≡ true
    → c.malloc_result ≡ true
    → d.malloc_result ≡ true
    → c.task.args_allocated ≡ true
    → d.task.args_allocated ≡ true
    → d.task.copied_to_user ≡ true
    → d.task.tgid ≡ c.task.tgid
    → d.task.pid ≡ c.task.pid
    → (k' : Kernel) × (fls_set_value_call c index value s k ≡ finished tt s k')
      × (fls_get_value_call d old index s k' ≡ finished value s k')
unfolding fls_set_value_call fls_get_value_call ensure_open
fls_get_value_call-fls_set_value_call c d s k p t f n index value old o fd here low taken m m' a a'
      copied same_tgid same_pid =
    let (k', set, got) =
      get-set (with_arg c.task index value) (with_arg d.task index old) k p t f index value old
        (record { process = here.process; thread = here.thread; fiber = here.fiber }) low taken a
        refl a' refl copied same_tgid same_pid in
    (
      k',
      simp (m, o) (written (with_arg c.task index value) s k k' n fd set),
      simp (m', o) (read_back (with_arg d.task index old) s k' n index value old fd got),
    )
