-- ===== src/Driver/Behaviour/Conversion.antt =====
-- `CONVERTTOFIBER` of multi_thread/Module/fiber_ioctl.c, once and again.
use linux_fibers.Prelude.{
  ◌+◌, ◌%◌, ℕ, ◌≡◌, refl, sym, ap, ◌∙◌, true, none, some, arith, Option-cases, inl, inr,
}
use linux_fibers.Prelude.Table.{find-nil, find-cons}
use linux_fibers.Driver.State.{
  word, put_process, Process, Kernel, Thread, thread_key, process_key, search_process,
  search_thread, new_process,
}
use linux_fibers.Driver.Task.{Task, Reply, done, plain_reply, return, minus_one}
use linux_fibers.Driver.Convert.{to_long, converted_process, add_process, convert_in, convert}
use linux_fibers.Driver.Behaviour.Resume.{search_process-put_process}

-- A thread that is there is refused.
refused :
    (c : Task) (k : Kernel) (p : Process) (t : Thread)
    → search_process c.tgid k ≡ some p
    → search_thread c.pid p ≡ some t
    → convert c k ≡ return c minus_one k
unfolding convert convert_in
refused c k p t there busy = ground arith

search_thread-converted_process :
    (c : Task) (p : Process)
    → search_thread c.pid (converted_process c p)
      ≡ some (record { pid = c.pid; active_fiber = p.fiber_id })
unfolding converted_process search_thread
search_thread-converted_process c p =
    find-cons thread_key c.pid (record { pid = c.pid; active_fiber = p.fiber_id }) p.threads
    ∙ ground arith

search-added :
    (tgid : ℕ) (k : Kernel)
    → search_process tgid (add_process (new_process tgid) k) ≡ some (new_process tgid)
unfolding search_process add_process new_process
search-added tgid k =
    ground
      (arith, find-cons process_key tgid (unfold new_process in new_process tgid) k.list_process)

-- From the state that the first call leaves.
again :
    (c d : Task) (k m k' : Kernel) (first reply : Reply) (p : Process) (t : Thread)
    → convert c k ≡ done first m
    → convert c k ≡ done reply k'
    → search_process d.tgid m ≡ some p
    → search_thread d.pid p ≡ some t
    → convert d k' ≡ return d minus_one k'
again c d k m k' first reply p t e h there busy =
    let same : m ≡ k' = cc in refused d k' p t (ap (search_process d.tgid) (sym same) ∙ there) busy

converted_again :
    (c d : Task) (k m k' : Kernel) (reply : Reply) (p : Process)
    → search_process c.tgid m ≡ some p
    → search_thread c.pid p ≡ none
    → c.thread_allocated ≡ true
    → c.fiber_allocated ≡ true
    → d.tgid ≡ c.tgid
    → d.pid ≡ c.pid
    → convert c k ≡ convert_in c p m
    → convert c k ≡ done reply k'
    → convert d k' ≡ return d minus_one k'
unfolding convert_in return
converted_again c d k m k' reply p there idle a b same_tgid same_pid e h =
    let counted : Kernel = record m { count_threads = (m.count_threads + 1) % word } in
    let p' : Process = converted_process c p in
    again c d k (put_process p' counted) k' (plain_reply c (to_long p.fiber_id)) reply p'
      (record { pid = c.pid; active_fiber = p.fiber_id }) (e ∙ rw (idle, convert_in) (rw (a, b))) h
      (ap (λ q. search_process q (put_process p' counted)) same_tgid
        ∙ search_process-put_process c.tgid counted p' p (unfold converted_process in refl)
            (recount m ((m.count_threads + 1) % word) ∙ there))
      (ap (λ q. search_thread q p') same_pid ∙ search_thread-converted_process c p)
  where
    recount :
        (m : Kernel) (count : ℕ)
        → search_process c.tgid (record m { count_threads = count }) ≡ search_process c.tgid m
    recount m count = unfold search_process in refl

-- With every allocation granted, whatever the first conversion of a thread answers, a second one
-- is refused with -1 and leaves the state as it is.
pub convert_twice :
    (c d : Task) (k k' : Kernel) (reply : Reply)
    → c.process_allocated ≡ true
    → c.thread_allocated ≡ true
    → c.fiber_allocated ≡ true
    → d.tgid ≡ c.tgid
    → d.pid ≡ c.pid
    → convert c k ≡ done reply k'
    → convert d k' ≡ return d minus_one k'
convert_twice c d k k' reply g a b same_tgid same_pid h =
    elim (Option-cases (search_process c.tgid k)) [
      | inl new ↦
          converted_again c d k (add_process (new_process c.tgid) k) k' reply (new_process c.tgid)
            (search-added c.tgid k) (unfold search_thread new_process in find-nil thread_key c.pid)
            a b same_tgid same_pid (unfold convert in rw (new, convert) (rw g)) h
      | inr (p, there) ↦ elim (Option-cases (search_thread c.pid p)) [
        | inl idle ↦
            converted_again c d k k k' reply p there idle a b same_tgid same_pid
              (unfold convert in rw (there, convert)) h
        | inr (t, busy) ↦
            again c d k k k' (plain_reply c minus_one) reply p t
              (unfold return in refused c k p t there busy) h
              (ap (λ q. search_process q k) same_tgid ∙ there)
              (ap (λ q. search_thread q p) same_pid ∙ busy)
      ]
    ]
