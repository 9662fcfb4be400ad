-- ===== src/Proc/Entries.antt =====
-- The directory entries of multi_thread/Module/proc.c: `fibers_readdir`, `fibers_lookup`, `fh_readdir`
-- and `fh_lookup` build tables of `struct pid_entry` for the functions of the kernel's /proc.
use linux_fibers.Prelude.{
  ℕ, ◌%◌, ◌^◌, Bool, true, false, ◌&&◌, List, [], ◌∷◌, ◌++◌, Option, none, some, length, ltb, ◌==◌,
  if◌then◌else◌, update,
}
use linux_fibers.Driver.State.{Fiber, Process, Kernel, search_process}

-- Which operations an entry has: none (a zeroed entry), those of a fiber's file, those of the
-- directory `fibers`, or those of an entry of the kernel's own.
pub data Kind : Type 0 where
  empty : Kind
  fiber_file : Kind
  fibers_directory : Kind
  own : ℕ → Kind

-- `struct pid_entry`
pub record Entry : Type 0 where
  pub name : List ℕ
  pub len : ℕ
  pub mode : ℕ
  pub kind : Kind

-- An entry of `kzalloc`.
abbrev pub no_entry : Entry
no_entry = record { name = []; len = 0; mode = 0; kind = Kind.empty }

-- `strnlen(name, 8)` of a string without its NUL.
abbrev pub strnlen : List ℕ → ℕ
strnlen name = if ltb (length name) 8 then length name else 8

-- `S_IFREG|S_IRUGO|S_IXUGO` and `S_IFDIR|S_IRUGO|S_IXUGO`
abbrev pub file_mode : ℕ
file_mode = 0o100555

abbrev pub directory_mode : ℕ
directory_mode = 0o40555

unfoldable pub fiber_entry : Fiber → Entry
fiber_entry f = record {
  name = f.name;
  len = strnlen f.name;
  mode = file_mode;
  kind = Kind.fiber_file;
}

-- The loop `hash_for_each_rcu(process->fibers, ...)`, over entries that start zeroed. `none`: a write
-- past the end of the table of `n` entries.
unfoldable pub fill : ℕ → List Fiber → (ℕ → Entry) → Option (ℕ → Entry)
fill n [] table = some table
fill n (f ∷ fs) table =
    let rest = fill n fs (update table f.index (fiber_entry f)) in
    if ltb f.index n then rest else none

-- What the kernel's function is called with. `null_table`: no table, but a number of entries.
pub data Listing : Type 0 where
  table : (ℕ → Entry) → ℕ → Listing
  null_table : ℕ → Listing
  nothing : Listing
  no_task : Listing
  crash : Listing

-- The loop over a table that `kzalloc` did not give: the first entry is written through the null
-- pointer.
unfoldable pub fill_null : List Fiber → ℕ → Listing
fill_null [] n = null_table n
fill_null (f ∷ fs) n = crash

-- The table of `fibers_readdir` and of `fibers_lookup`, and its number of entries, which is passed as
-- an `unsigned int`. `granted` is whether `kzalloc` gives the memory, which is not checked.
unfoldable pub fiber_entries : Bool → Process → Listing
unfolding fill fill_null fiber_entry
fiber_entries granted p =
    let n = p.fiber_id % 2 ^ 32 in
    if granted
    then elim (fill p.fiber_id p.fibers (λ _. no_entry)) [ none ↦ crash | some t ↦ table t n ]
    else fill_null p.fibers n

-- `fibers_readdir` for the task of the directory; without a process it lists nothing.
unfoldable pub fibers_readdir : Bool → Option ℕ → Kernel → Listing
unfolding fiber_entries
fibers_readdir granted task k = elim task [
  | none ↦ no_task
  | some tgid ↦ elim (search_process tgid k) [ none ↦ nothing | some p ↦ fiber_entries granted p ]
]

-- `fibers_lookup` does not check that the process is there.
unfoldable pub fibers_lookup : Bool → Option ℕ → Kernel → Listing
unfolding fiber_entries
fibers_lookup granted task k = elim task [
  | none ↦ no_task
  | some tgid ↦ elim (search_process tgid k) [ none ↦ crash | some p ↦ fiber_entries granted p ]
]

-- "fibers"
abbrev pub fibers_name : List ℕ
fibers_name = b'f' ∷ b'i' ∷ b'b' ∷ b'e' ∷ b'r' ∷ b's' ∷ []

abbrev pub fibers_entry : Entry
fibers_entry = record {
  name = fibers_name;
  len = 6;
  mode = directory_mode;
  kind = Kind.fibers_directory;
}

-- `strncmp(s, "fibers", 6) == 0`: the names that begin with "fibers".
unfoldable pub starts_with : List ℕ → List ℕ → Bool
starts_with [] s = true
starts_with (x ∷ xs) [] = false
starts_with (x ∷ xs) (y ∷ ys) = x == y && starts_with xs ys

-- The entries that `fh_lookup` hands to the kernel's function for those it was called with. The
-- hooks do not check that the task of the inode is still there.
unfoldable pub fh_lookup : Option ℕ → Kernel → List Entry → Option (List Entry)
fh_lookup task k ents = elim task [
  | none ↦ none
  | some tgid ↦ elim (search_process tgid k) [
    | none ↦ some ents
    | some p ↦ some (ents ++ fibers_entry ∷ [])
  ]
]

unfoldable pub fh_readdir : Option ℕ → List ℕ → Kernel → List Entry → Option (List Entry)
unfolding starts_with
fh_readdir task directory k ents = elim task [
  | none ↦ none
  | some tgid ↦ elim (search_process tgid k) [
    | none ↦ some ents
    | some p ↦
        if starts_with fibers_name directory then some ents else some (ents ++ fibers_entry ∷ [])
  ]
]
