-- ===== src/Hooks/Install.antt =====
-- `fh_install_hook`, `fh_remove_hook` and their loops (multi_thread/Module/proc.c).
use linux_fibers.Prelude.{ℕ, zero, suc, ◌+◌, Bool, true, false, ◌==◌, if◌then◌else◌, update}

-- What the kernel answers: the address of the symbol that a hook names (0 if there is none), and
-- the errors of `ftrace_set_filter_ip`, `register_ftrace_function`, `unregister_ftrace_function` and
-- of `ftrace_set_filter_ip` with its `remove` argument.
pub record Ftrace : Type 0 where
  pub symbol : ℕ → ℕ
  pub set_filter_error : ℕ → ℕ
  pub register_error : ℕ → ℕ
  pub unregister_error : ℕ → ℕ
  pub remove_filter_error : ℕ → ℕ

-- For each hook: `hook->address`, the function pointer behind `hook->original`, whether its `ops`
-- has its filter, and whether its `ops` is registered.
pub record Tracer : Type 0 where
  pub address : ℕ → ℕ
  pub original : ℕ → ℕ
  pub filtered : ℕ → Bool
  pub registered : ℕ → Bool

-- `ENOENT`
abbrev pub enoent : ℕ
enoent = 2

unfoldable pub resolve_hook_address : Ftrace → ℕ → Tracer → Tracer × ℕ
resolve_hook_address a i s =
    if a.symbol i == 0 then (record s { address = update s.address i 0 }, enoent) else (
      record s {
        address = update s.address i (a.symbol i);
        original = update s.original i (a.symbol i);
      },
      0,
    )

-- `ftrace_set_filter_ip(&hook->ops, hook->address, 0, 0)` and with `remove`
unfoldable pub set_filter : Ftrace → ℕ → Tracer → Tracer × ℕ
set_filter a i s =
    if a.set_filter_error i == 0
    then (record s { filtered = update s.filtered i true }, 0)
    else (s, a.set_filter_error i)

unfoldable pub remove_filter : Ftrace → ℕ → Tracer → Tracer
remove_filter a i s =
    if a.remove_filter_error i == 0 then record s { filtered = update s.filtered i false } else s

unfoldable pub register : Ftrace → ℕ → Tracer → Tracer × ℕ
register a i s =
    if a.register_error i == 0
    then (record s { registered = update s.registered i true }, 0)
    else (s, a.register_error i)

unfoldable pub unregister : Ftrace → ℕ → Tracer → Tracer
unregister a i s =
    if a.unregister_error i == 0 then record s { registered = update s.registered i false } else s

-- The result is 0, or the error.
unfoldable pub install_hook : Ftrace → ℕ → Tracer → Tracer × ℕ
unfolding resolve_hook_address set_filter remove_filter register
install_hook a i s =
    let (s1, unresolved) = resolve_hook_address a i s in
    let (s2, unfiltered) = set_filter a i s1 in
    let (s3, unregistered) = register a i s2 in
    if unresolved == 0
    then if unfiltered == 0
      then if unregistered == 0 then (s3, 0) else (remove_filter a i s3, unregistered)
      else (s2, unfiltered)
    else (s1, unresolved)

-- Errors are only logged.
unfoldable pub remove_hook : Ftrace → ℕ → Tracer → Tracer
unfolding unregister remove_filter
remove_hook a i s = remove_filter a i (unregister a i s)

-- `while (i != 0) fh_remove_hook(&hooks[--i]);`
unfoldable pub unwind : Ftrace → ℕ → Tracer → Tracer
unwind a zero s = s
unwind a (suc i) s = unwind a i (remove_hook a i s)

-- The loop of `fh_install_hooks` from the hook `i` on, with `n` hooks left.
unfoldable pub install_from : Ftrace → ℕ → ℕ → Tracer → Tracer × ℕ
install_from a zero i s = (s, 0)
install_from a (suc n) i s =
    let (s', err) = install_hook a i s in
    let rest = install_from a n (i + 1) s' in if err == 0 then rest else (unwind a i s', err)

unfoldable pub install_hooks : Ftrace → ℕ → Tracer → Tracer × ℕ
unfolding install_from
install_hooks a count s = install_from a count 0 s

-- The loop of `fh_remove_hooks` from the hook `i` on, with `n` hooks left.
unfoldable pub remove_from : Ftrace → ℕ → ℕ → Tracer → Tracer
remove_from a zero i s = s
remove_from a (suc n) i s = remove_from a n (i + 1) (remove_hook a i s)

unfoldable pub remove_hooks : Ftrace → ℕ → Tracer → Tracer
unfolding remove_from
remove_hooks a count s = remove_from a count 0 s
