-- ===== src/Calendar/State.antt =====
-- The structures of multi_thread/src/calqueue.h and `localinit` of calqueue.c.
use linux_fibers.Prelude.{
  ℕ, ◌+◌, ◌-◌, ◌*◌, ◌/◌, ◌%◌, Bool, false, List, [], ◌++◌, Option, none, some, ltb, leb, ◌==◌, ◌&&◌,
  if◌then◌else◌, ℤ, pos, negsuc, zero, suc,
}
use linux_fibers.Prelude.Results.{Outcome, failed, outside, ok}
use linux_fibers.Reals.{Reals}

-- `CALQSPACE` and `MAXNBUCKETS`
abbrev pub calqspace : ℕ
calqspace = 65536

abbrev pub maxnbuckets : ℕ
maxnbuckets = 32768

-- a - b
unfoldable pub minus : ℕ → ℕ → ℤ
minus a b = if leb b a then pos (a - b) else negsuc (b - a - 1)

-- The remainder of C as an index of one of `m` buckets; `none`: it is below 0.
unfoldable pub bucket_index : ℤ → ℕ → Option ℕ
bucket_index (pos n) m = some (n % m)
bucket_index (negsuc n) m = if (n + 1) % m == 0 then some 0 else none

-- n < b
unfoldable pub below : ℕ → ℤ → Bool
below n (pos b) = ltb n b
below n (negsuc b) = false

module _ (F : Reals) (A : Type 0) where
  -- `calqueue_node`: a list of nodes is a chain of `next`.
  pub record Node : Type 0 where
    pub priority : F.R
    pub payload : A

  -- `calqueue`. The pointer `calendar` is `calq + firstsub`: both are set in `localinit` alone.
  pub record Queue : Type 0 where
    pub calq : ℕ → List Node
    pub firstsub : ℕ
    pub nbuckets : ℕ
    pub qsize : ℕ
    pub lastbucket : ℕ
    pub resize_enabled : Bool
    pub top_threshold : ℕ
    pub bot_threshold : ℤ
    pub lastprio : F.R
    pub buckettop : F.R
    pub cwidth : F.R

  abbrev pub calendar : Queue → ℕ → List Node
  calendar q i = q.calq (q.firstsub + i)

  -- The chains from `base` on, `n` of them, one after another.
  unfoldable pub gather : (ℕ → List Node) → ℕ → ℕ → List Node
  gather f base zero = []
  gather f base (suc n) = gather f base n ++ f (base + n)

  -- What the queue holds.
  abbrev pub contents : Queue → List Node
  contents q = gather q.calq q.firstsub q.nbuckets

  -- The chains with those of the calendar empty.
  unfoldable pub cleared : (ℕ → List Node) → ℕ → ℕ → ℕ → List Node
  cleared f base n j = if leb base j && ltb j (base + n) then [] else f j

  -- `(double)(n + 1)`
  unfoldable pub next_year : ℤ → F.R
  next_year (pos n) = F.decimal (n + 1) 0
  next_year (negsuc n) = F.sub (F.decimal 0 0) (F.decimal n 0)

  -- `failed`: the calendar would leave the array. `outside`: `lastbucket` is below 0, where the next
  -- search would start.
  unfoldable pub localinit : ℕ → ℕ → F.R → F.R → Queue → Outcome Queue
  unfolding minus cleared bucket_index next_year
  localinit qbase nbucks bwidth startprio q =
      if ltb calqspace (qbase + nbucks)
      then failed
      else (let n = F.truncate_long (F.div startprio bwidth) in
          elim (bucket_index n nbucks) [
            | none ↦ outside
            | some i ↦ ok (record {
              calq = cleared q.calq qbase nbucks;
              firstsub = qbase;
              nbuckets = nbucks;
              qsize = 0;
              lastbucket = i;
              resize_enabled = q.resize_enabled;
              top_threshold = 2 * nbucks;
              bot_threshold = minus (nbucks / 2) 2;
              lastprio = startprio;
              buckettop = F.add (F.mul (next_year n) bwidth) (F.mul (F.decimal 5 1) bwidth);
              cwidth = bwidth;
            })
          ])
