-- ===== src/Fs/Dir.antt =====
-- Directories of kernel/fs.c: an entry is 16 bytes, the inode's number and a name of at most 14. A
-- name stands for its bytes before the NUL. The copies are to and from the kernel's memory, where
-- they do not fail.
pub mod Lookup
use fast_ipc.Base.{
  ℕ, zero, suc, ◌+◌, ◌/◌, List, [], ◌∷◌, Option, none, some, Bool, true, false, ltb, ◌==◌,
  if◌then◌else◌, Outcome, ok, panic, fault, ◌>>=◌, get_or, set, drop, ℤ, pos, negsuc,
}
use fast_ipc.Memory.{load_le, byte_of}
use fast_ipc.Text.{strncmp, strncpy}
use fast_ipc.Fs.{Fs, bsize}
use fast_ipc.Fs.Inode.{Inode}
use fast_ipc.Fs.Content.{readi, writei}
use fast_ipc.Fs.Icache.{Store, inode_at, iget, iput}

-- `DIRSIZ` and `sizeof(struct dirent)`

abbrev pub name_size : ℕ
name_size = 14

abbrev pub dirent_size : ℕ
dirent_size = 16

abbrev pub t_dir : ℕ
t_dir = 1

-- `namecmp(s, t) == 0`
abbrev pub compares_equal : ℤ → Bool
compares_equal (pos n) = n == 0
compares_equal (negsuc n) = false

abbrev pub same_name : List ℕ → List ℕ → Bool
same_name s t = compares_equal (strncmp s t name_size)

-- The bytes before the first 0.
unfoldable pub until_nul : List ℕ → List ℕ
until_nul [] = []
until_nul (c ∷ p) = if c == 0 then [] else c ∷ until_nul p

-- The fields of a `struct dirent`.
abbrev pub dirent_inum : List ℕ → ℕ
dirent_inum de = load_le (λ k. get_or de k 0) 0 2

abbrev pub dirent_name : List ℕ → List ℕ
dirent_name de = until_nul (drop 2 de)

abbrev pub is_count : Option ℕ → ℕ → Bool
is_count none n = false
is_count (some k) n = k == n

-- `if(readi(dp, 0, (uint64)&de, off, sizeof(de)) != sizeof(de)) panic(...);`
unfoldable pub read_dirent : Fs → Inode → (off : ℕ) → Outcome (List ℕ × Inode × Fs)
read_dirent f dp off = readi f dp (λ k. true) off dirent_size >>= λ r.
    if is_count r.0 dirent_size then ok (r.1, r.2, r.3) else panic

-- The loop of `dirlookup`, on fuel: the inode's number and the offset of the entry.
unfoldable pub lookup_from :
    (fuel off : ℕ) → (name : List ℕ) → Inode → Fs → Outcome (Option (ℕ × ℕ) × Inode × Fs)
lookup_from zero off name dp f = fault
lookup_from (suc fuel) off name dp f =
    let rest = read_dirent f dp off >>= λ r.
    let later = lookup_from fuel (off + dirent_size) name r.1 r.2 in
    if dirent_inum r.0 == 0
    then later
    else if same_name name (dirent_name r.0)
    then ok (some (dirent_inum r.0, off), r.1, r.2)
    else later in
    if ltb off dp.size then rest else ok (none, dp, f)

-- `dirlookup` of the directory at index `i`: the index of the inode found and the offset.
unfoldable pub dirlookup : Store → (i : ℕ) → (name : List ℕ) → Outcome (Option (ℕ × ℕ) × Store)
dirlookup s i name =
    let dp = inode_at s.inodes i in
    if dp.type == t_dir
    then (lookup_from (suc (dp.size / dirent_size + 1)) 0 name dp s.fs >>= λ r.
        let l = set s.inodes i r.1 in
        elim r.0 [
          | none ↦ ok (none, record { inodes = l; fs = r.2 })
          | some e ↦
              (iget l dp.dev e.0 >>= λ q. ok (some (q.0, e.1), record { inodes = q.1; fs = r.2 }))
        ])
    else panic

-- The loop of `dirlink` that looks for an entry with no inode.
unfoldable pub empty_from : (fuel off : ℕ) → Inode → Fs → Outcome (ℕ × Inode × Fs)
empty_from zero off dp f = fault
empty_from (suc fuel) off dp f =
    let rest = read_dirent f dp off >>= λ r.
    let later = empty_from fuel (off + dirent_size) r.1 r.2 in
    if dirent_inum r.0 == 0 then ok (off, r.1, r.2) else later in
    if ltb off dp.size then rest else ok (off, dp, f)

-- The bytes of the `struct dirent` that is written.
abbrev pub dirent : (name : List ℕ) → (inum : ℕ) → List ℕ
dirent name inum = byte_of inum 0 ∷ byte_of inum 1 ∷ strncpy name name_size

-- `dirlink`; the result is whether it returned 0, and not -1.
unfoldable pub dirlink : Store → (i : ℕ) → (name : List ℕ) → (inum : ℕ) → Outcome (Bool × Store)
dirlink s i name inum = dirlookup s i name >>= λ r.
    let dp = inode_at (r.1).inodes i in
    elim r.0 [
      | some e ↦ (iput r.1 e.0 >>= λ s'. ok (false, s'))
      | none ↦
          (empty_from (suc (dp.size / dirent_size + 1)) 0 dp (r.1).fs >>= λ q.
          writei q.2 q.1 (λ k. get_or (dirent name inum) k 0) (λ k. bsize) q.0 dirent_size >>= λ w.
          if is_count w.0 dirent_size
          then ok (true, record { inodes = set (r.1).inodes i w.1; fs = w.2 })
          else panic)
    ]
