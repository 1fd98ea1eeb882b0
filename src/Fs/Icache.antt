-- ===== src/Fs/Icache.antt =====
-- The table of inodes in memory of kernel/fs.c. `icache.lock` is held over each change, so each is
-- one step. The sleep locks of inodes are those of the process that runs.
pub mod Find
pub mod Held
pub mod Dropped
pub mod Locks
use fast_ipc.Base.{
  ℕ, zero, suc, ◌+◌, ◌-◌, ◌^◌, List, [], ◌∷◌, Option, none, some, Bool, false, ◌&&◌, ◌||◌, not, ltb,
  ◌==◌, if◌then◌else◌, Outcome, ok, panic, fault, ◌>>=◌, get_or, set, to_int, is_negative, ◌⊎◌, inl,
  inr,
}
use fast_ipc.Memory.{Mem, memset, load_le, store_le}
use fast_ipc.Fs.{Fs, put_block}
use fast_ipc.Fs.Inode.{Inode, iblock, dinode_at, iupdate, ilock, itrunc, no_addrs}

pub record Store : Type 0 where
  pub inodes : List Inode
  pub fs : Fs

abbrev pub no_inode : Inode
no_inode = record {
  dev = 0;
  inum = 0;
  ref = 0;
  locked = false;
  valid = false;
  type = 0;
  major = 0;
  minor = 0;
  nlink = 0;
  size = 0;
  addrs = no_addrs;
}

abbrev pub inode_at : List Inode → ℕ → Inode
inode_at l i = get_or l i no_inode

-- `ip->ref > 0`, on `int`
abbrev pub has_refs : Inode → Bool
has_refs ip = not (is_negative ip.ref) && ltb 0 ip.ref

abbrev pub is_entry : (dev inum : ℕ) → Inode → Bool
is_entry dev inum ip = has_refs ip && (ip.dev == dev && ip.inum == inum)

-- `if(empty == 0 && ip->ref == 0) empty = ip;`
abbrev pub empty_slot : Option ℕ → Inode → (i : ℕ) → Option ℕ
empty_slot none ip i = if ip.ref == 0 then some i else none
empty_slot (some e) ip i = some e

-- The loop of `iget` from index `i` on: the entry of the inode, or else the first one not in use.
unfoldable pub find_inode :
    (dev inum : ℕ) → List Inode → (i : ℕ) → (empty : Option ℕ) → ℕ ⊎ Option ℕ
find_inode dev inum [] i empty = inr empty
find_inode dev inum (ip ∷ rest) i empty =
    let later = find_inode dev inum rest (i + 1) (empty_slot empty ip i) in
    if is_entry dev inum ip then inl i else later

abbrev pub one_more : Inode → Inode
one_more ip = record ip { ref = to_int (ip.ref + 1) }

abbrev pub recycled : Inode → (dev inum : ℕ) → Inode
recycled ip dev inum = record ip { dev = dev; inum = inum; ref = 1; valid = false }

unfoldable pub iget : List Inode → (dev inum : ℕ) → Outcome (ℕ × List Inode)
iget l dev inum = elim (find_inode dev inum l 0 none) [
  | inl i ↦ ok (i, set l i (one_more (inode_at l i)))
  | inr none ↦ panic
  | inr (some e) ↦ ok (e, set l e (recycled (inode_at l e) dev inum))
]

unfoldable pub idup : List Inode → (i : ℕ) → List Inode
idup l i = set l i (one_more (inode_at l i))

-- `ilock`, with the inode loaded in its place.
unfoldable pub ilock_at : Store → (i : ℕ) → Outcome Store
ilock_at s i =
    ilock s.fs (inode_at s.inodes i) >>= λ ip. ok (record s { inodes = set s.inodes i ip })

unfoldable pub iunlock : Store → (i : ℕ) → Outcome Store
iunlock s i =
    let ip = inode_at s.inodes i in
    if not ip.locked || (is_negative ip.ref || ltb ip.ref 1)
    then panic
    else ok (record s { inodes = set s.inodes i (record ip { locked = false }) })

abbrev pub one_less : Inode → Inode
one_less ip = record ip { ref = to_int (ip.ref + 2 ^ 32 - 1) }

-- The inode is freed under its lock: `itrunc(ip); ip->type = 0; iupdate(ip); ip->valid = 0;`
unfoldable pub free_inode : Fs → Inode → Outcome (Inode × Fs)
free_inode f ip =
    if ip.locked
    then fault
    else itrunc f ip >>= λ r.
        let ip' = record (r.0) { type = 0 } in ok (record ip' { valid = false }, iupdate r.1 ip')

unfoldable pub iput : Store → (i : ℕ) → Outcome Store
iput s i =
    let ip = inode_at s.inodes i in
    if ip.ref == 1 && (ip.valid && ip.nlink == 0)
    then (free_inode s.fs ip >>= λ r.
        ok (record { inodes = set s.inodes i (one_less r.0); fs = r.1 }))
    else ok (record s { inodes = set s.inodes i (one_less ip) })

unfoldable pub iunlockput : Store → (i : ℕ) → Outcome Store
iunlockput s i = iunlock s i >>= λ s'. iput s' i

-- The `struct dinode` at `a` for a new inode.
abbrev pub new_dinode : Mem → (a type : ℕ) → Mem
new_dinode m a type = store_le (memset m a 0 64) a 2 type

-- The loop of `ialloc` from `inum` on, with `left` numbers to try.
unfoldable pub ialloc_from : (left inum dev type : ℕ) → Store → Outcome (ℕ × Store)
ialloc_from zero inum dev type s = panic
ialloc_from (suc left) inum dev type s =
    let m = s.fs.blocks (iblock s.fs inum) in
    let rest = ialloc_from left (inum + 1) dev type s in
    if load_le m (dinode_at inum) 2 == 0
    then (iget s.inodes dev inum >>= λ r. ok (
      r.0,
      record {
        inodes = r.1;
        fs = put_block s.fs (iblock s.fs inum) (new_dinode m (dinode_at inum) type);
      },
    ))
    else rest

unfoldable pub ialloc : Store → (dev type : ℕ) → Outcome (ℕ × Store)
ialloc s dev type = ialloc_from (s.fs.sb.ninodes - 1) 1 dev type s
