-- ===== src/File.antt =====
-- The table of open files and its reference counts, kernel/file.c. `ftable.lock` is held over each
-- change, and what `fileclose` calls after it is returned as a value.
pub mod Counts
mod Tests
use fast_ipc.Base.{
  ℕ, zero, suc, ◌+◌, ◌-◌, ◌^◌, ◌%◌, List, [], ◌∷◌, Option, none, some, Bool, true, false, ◌||◌, not,
  ◌&&◌, ltb, leb, ◌==◌, if◌then◌else◌, Outcome, ok, panic, set, get_or, is_negative, to_int,
}

pub data Kind : Type 0 where
  fd_none fd_pipe fd_inode fd_device : Kind

-- `struct file`, without the offset and the device number, which these functions do not use. A
-- pointer is the address.
pub record File : Type 0 where
  pub kind : Kind
  pub ref : ℕ
  pub readable : Bool
  pub writable : Bool
  pub pipe : ℕ
  pub ip : ℕ

abbrev pub no_file : File
no_file = record { kind = fd_none; ref = 0; readable = false; writable = false; pipe = 0; ip = 0 }

-- `filealloc` from index `i` on: the index of the entry taken.
pub filealloc : List File → (i : ℕ) → Option ℕ × List File
filealloc [] i = (none, [])
filealloc (f ∷ fs) i =
    let (taken, fs') = filealloc fs (i + 1) in
    if f.ref == 0 then (some i, record f { ref = 1 } ∷ fs) else (taken, f ∷ fs')

-- `f->ref < 1`, on `int`
abbrev pub is_unused : File → Bool
is_unused f = is_negative f.ref || ltb f.ref 1

unfoldable pub filedup : List File → (i : ℕ) → Outcome (List File)
filedup fs i =
    let f = get_or fs i no_file in
    if is_unused f then panic else ok (set fs i (record f { ref = to_int (f.ref + 1) }))

-- What is left to do when the last reference is gone: nothing, `pipeclose`, or `iput` within a
-- transaction.
pub data Release : Type 0 where
  nothing : Release
  close_pipe : (pipe : ℕ) → (writable : Bool) → Release
  put_inode : (ip : ℕ) → Release

abbrev pub release : File → Release
release f = elim f.kind [
  | fd_none ↦ nothing
  | fd_pipe ↦ close_pipe f.pipe f.writable
  | fd_inode ↦ put_inode f.ip
  | fd_device ↦ put_inode f.ip
]

unfoldable pub fileclose : List File → (i : ℕ) → Outcome (Release × List File)
fileclose fs i =
    let f = get_or fs i no_file in
    let left = to_int (f.ref + 2 ^ 32 - 1) in
    if is_unused f
    then panic
    else if not (is_negative left) && ltb 0 left
    then ok (nothing, set fs i (record f { ref = left }))
    else ok (release f, set fs i (record f { ref = 0; kind = fd_none }))
