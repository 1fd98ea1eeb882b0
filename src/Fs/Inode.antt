-- ===== src/Fs/Inode.antt =====
-- Inodes of kernel/fs.c: the copy on disk, the block numbers of a file, and `itrunc`. A `short` is its
-- 16-bit pattern.
pub mod Disk
pub mod Map
pub mod New
pub mod Bmap
use fast_ipc.Base.{
  ℕ, zero, suc, ◌+◌, ◌-◌, ◌*◌, ◌/◌, ◌%◌, List, [], ◌∷◌, Bool, true, false, ltb, leb, ◌==◌,
  if◌then◌else◌, Outcome, ok, panic, fault, ◌>>=◌, get_or, set, take, replicate,
}
use fast_ipc.Memory.{Mem, load_le, store_le}
use fast_ipc.Fs.{Fs, put_block, balloc, bfree, bsize}

abbrev pub ndirect : ℕ
ndirect = 12

abbrev pub nindirect : ℕ
nindirect = bsize / 4

abbrev pub maxfile : ℕ
maxfile = ndirect + nindirect

-- `IPB`, with 64 bytes in a `struct dinode`
abbrev pub inodes_per_block : ℕ
inodes_per_block = bsize / 64

-- `struct inode`; of its sleep lock whether the process that runs holds it
pub record Inode : Type 0 where
  pub dev : ℕ
  pub inum : ℕ
  pub ref : ℕ
  pub locked : Bool
  pub valid : Bool
  pub type : ℕ
  pub major : ℕ
  pub minor : ℕ
  pub nlink : ℕ
  pub size : ℕ
  pub addrs : List ℕ

-- `IBLOCK(i, sb)`, and the place of the inode in that block
abbrev pub iblock : Fs → ℕ → ℕ
iblock f inum = inum / inodes_per_block + f.sb.inodestart

abbrev pub dinode_at : ℕ → ℕ
dinode_at inum = inum % inodes_per_block * 64

-- The words from `a` on, as `memmove` copies them to and from `addrs`.
pub load_words : (n : ℕ) → Mem → (a : ℕ) → List ℕ
load_words zero m a = []
load_words (suc n) m a = load_le m a 4 ∷ load_words n m (a + 4)

pub store_words : Mem → (a : ℕ) → List ℕ → Mem
store_words m a [] = m
store_words m a (w ∷ ws) = store_words (store_le m a 4 w) (a + 4) ws

-- The assignments of `iupdate` to the `struct dinode` at `a`.
pub put_dinode : Mem → (a : ℕ) → Inode → Mem
put_dinode m a ip =
    let m1 = store_le m a 2 ip.type in
    let m2 = store_le m1 (a + 2) 2 ip.major in
    let m3 = store_le m2 (a + 4) 2 ip.minor in
    let m4 = store_le m3 (a + 6) 2 ip.nlink in
    let m5 = store_le m4 (a + 8) 4 ip.size in store_words m5 (a + 12) ip.addrs

unfoldable pub iupdate : Fs → Inode → Fs
iupdate f ip =
    put_block f (iblock f ip.inum) (put_dinode (f.blocks (iblock f ip.inum)) (dinode_at ip.inum) ip)

-- The assignments of `ilock` from the `struct dinode` at `a`.
unfoldable pub get_dinode : Mem → (a : ℕ) → Inode → Inode
get_dinode m a ip = record ip {
  type = load_le m a 2;
  major = load_le m (a + 2) 2;
  minor = load_le m (a + 4) 2;
  nlink = load_le m (a + 6) 2;
  size = load_le m (a + 8) 4;
  addrs = load_words (ndirect + 1) m (a + 12);
  valid = true;
}

-- `ilock` of an inode, `ref < 1` as it is not counted below 0. A process that holds the lock already
-- sleeps in `acquiresleep` for ever.
unfoldable pub ilock : Fs → Inode → Outcome Inode
ilock f ip =
    let mine = record ip { locked = true } in
    let ip' = get_dinode (f.blocks (iblock f ip.inum)) (dinode_at ip.inum) mine in
    if ltb ip.ref 1
    then panic
    else if ip.locked
    then fault
    else if ip.valid
    then ok mine
    else if ip'.type == 0
    then panic
    else ok ip'

-- An allocation where the number is 0.
abbrev pub at_least : Fs → (addr : ℕ) → Outcome (ℕ × Fs)
at_least f addr = if addr == 0 then balloc f else ok (addr, f)

-- `bmap`: the block's number, the inode and the file system after. The first branch is that of the
-- direct blocks; then the indirect block is loaded, made if need be, and its entry likewise.
unfoldable pub bmap_indirect : Fs → (addr bn : ℕ) → Outcome (ℕ × Fs)
bmap_indirect f addr bn =
    let a = load_le (f.blocks addr) (4 * bn) 4 in
    if a == 0
    then (balloc f >>= λ r.
        ok (r.0, put_block r.1 addr (store_le (r.1.blocks addr) (4 * bn) 4 r.0)))
    else ok (a, f)

unfoldable pub bmap : Fs → Inode → (bn : ℕ) → Outcome (ℕ × Inode × Fs)
bmap f ip bn =
    if ltb bn ndirect
    then (at_least f (get_or ip.addrs bn 0) >>= λ r.
        ok (r.0, record ip { addrs = set ip.addrs bn r.0 }, r.1))
    else if ltb (bn - ndirect) nindirect
    then (at_least f (get_or ip.addrs ndirect 0) >>= λ r.
        bmap_indirect r.1 r.0 (bn - ndirect) >>= λ s.
        ok (s.0, record ip { addrs = set ip.addrs ndirect r.0 }, s.1))
    else panic

-- The first loop of `itrunc`, over the direct blocks that are left.
unfoldable pub free_direct : List ℕ → Fs → Outcome Fs
free_direct [] f = ok f
free_direct (a ∷ rest) f = (if a == 0 then ok f else bfree f a) >>= free_direct rest

-- The second loop, from entry `j` of the indirect block `addr` on.
unfoldable pub free_indirect : (left j addr : ℕ) → Fs → Outcome Fs
free_indirect zero j addr f = ok f
free_indirect (suc left) j addr f =
    let a = load_le (f.blocks addr) (4 * j) 4 in
    (if a == 0 then ok f else bfree f a) >>= free_indirect left (j + 1) addr

abbrev pub no_addrs : List ℕ
no_addrs = replicate (ndirect + 1) 0

unfoldable pub itrunc : Fs → Inode → Outcome (Inode × Fs)
itrunc f ip =
    let ind = get_or ip.addrs ndirect 0 in
    let ip' = record ip { addrs = no_addrs; size = 0 } in
    free_direct (take ndirect ip.addrs) f >>= λ f1.
    (if ind == 0 then ok f1 else free_indirect nindirect 0 ind f1 >>= λ f2. bfree f2 ind) >>= λ f3.
    ok (ip', iupdate f3 ip')
