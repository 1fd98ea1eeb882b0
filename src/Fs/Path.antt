-- ===== src/Fs/Path.antt =====
-- Paths of kernel/fs.c: `skipelem` and `namex`. A path stands for its bytes before the NUL.
pub mod Elements
use fast_ipc.Base.{
  ℕ, zero, suc, List, [], ◌∷◌, Option, none, some, Bool, true, false, ◌&&◌, not, ◌==◌,
  if◌then◌else◌, Outcome, ok, fault, ◌>>=◌, length, take,
}
use fast_ipc.Fs.Icache.{Store, inode_at, iget, idup, ilock_at, iunlock, iput, iunlockput}
use fast_ipc.Fs.Dir.{dirlookup, name_size, t_dir}

abbrev pub slash : ℕ
slash = 47

-- `while(*path == '/') path++;`
unfoldable pub skip_slashes : List ℕ → List ℕ
skip_slashes [] = []
skip_slashes (c ∷ p) = if c == slash then skip_slashes p else c ∷ p

-- `while(*path != '/' && *path != 0) path++;`: what is passed and what is left.
unfoldable pub element : List ℕ → List ℕ × List ℕ
element [] = ([], [])
element (c ∷ p) = let rest = element p in if c == slash then ([], c ∷ p) else (c ∷ rest.0, rest.1)

abbrev pub is_end : List ℕ → Bool
is_end [] = true
is_end (c ∷ p) = false

-- The name, and the path after it.
unfoldable pub skipelem : (path : List ℕ) → Option (List ℕ × List ℕ)
skipelem path =
    let s = skip_slashes path in
    if is_end s then none else some (take name_size (element s).0, skip_slashes (element s).1)

abbrev pub starts_at_root : List ℕ → Bool
starts_at_root [] = false
starts_at_root (c ∷ p) = c == slash

-- The loop of `namex` at the inode of index `i`, on fuel; `name` is what the last element was.
unfoldable pub namex_from :
    (fuel i : ℕ)
    → (path : List ℕ) → (parent : Bool) → (name : List ℕ) → Store
    → Outcome (Option ℕ × List ℕ × Store)
namex_from zero i path parent name s = fault
namex_from (suc fuel) i path parent name s = elim (skipelem path) [
  | none ↦ if parent then (iput s i >>= λ s'. ok (none, name, s')) else ok (some i, name, s)
  | some e ↦ ilock_at s i >>= λ s1.
      if not ((inode_at s1.inodes i).type == t_dir)
      then (iunlockput s1 i >>= λ s2. ok (none, e.0, s2))
      else if parent && is_end e.1
      then (iunlock s1 i >>= λ s2. ok (some i, e.0, s2))
      else (dirlookup s1 i e.0 >>= λ r. iunlockput r.1 i >>= λ s3. elim r.0 [
        | none ↦ ok (none, e.0, s3)
        | some next ↦ namex_from fuel next.0 e.1 parent e.0 s3
      ])
]

-- `namex` of a process with the directory of index `cwd`. `ROOTDEV` and `ROOTINO` are 1. The second
-- result is the name of `nameiparent`.
unfoldable pub namex :
    Store → (cwd : ℕ) → (path : List ℕ) → (parent : Bool) → Outcome (Option ℕ × List ℕ × Store)
namex s cwd path parent =
    (if starts_at_root path then iget s.inodes 1 1 else ok (cwd, idup s.inodes cwd)) >>= λ r.
    namex_from (suc (length path)) r.0 path parent [] (record s { inodes = r.1 })

abbrev pub namei : Store → (cwd : ℕ) → (path : List ℕ) → Outcome (Option ℕ × Store)
namei s cwd path = namex s cwd path false >>= λ r. ok (r.0, r.2)

abbrev pub nameiparent : Store → (cwd : ℕ) → (path : List ℕ) → Outcome (Option ℕ × List ℕ × Store)
nameiparent s cwd path = namex s cwd path true
