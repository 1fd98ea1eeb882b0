-- ===== src/Sysfile.antt =====
-- The system calls on files and directories, kernel/sysfile.c, each with its arguments fetched and
-- between its `begin_op` and `end_op`. A call returns `false` for -1, and so does `create` with `none`
-- for 0; the state beside it is what an error leaves.
pub mod Descriptors
mod Tests
use fast_ipc.Base.{
  ℕ, zero, suc, ◌+◌, ◌-◌, ◌*◌, ◌/◌, ◌%◌, ◌^◌, Bool, true, false, not, ◌&&◌, ◌||◌, ltb, leb, ◌==◌,
  if◌then◌else◌, List, [], ◌∷◌, Option, none, some, set, get_or, Outcome, ok, panic, fault, ◌>>=◌,
}
use fast_ipc.Fs.{Fs, bsize}
use fast_ipc.Fs.Inode.{Inode, iupdate}
use fast_ipc.Fs.Content.{writei}
use fast_ipc.Fs.Icache.{Store, inode_at, ilock_at, iunlock, iput, iunlockput, ialloc}
use fast_ipc.Fs.Dir.{
  t_dir, dirent_size, dirent_inum, read_dirent, is_count, same_name, dirlookup, dirlink,
}
use fast_ipc.Fs.Path.{namei, nameiparent}
use fast_ipc.File.{File, Release, filedup, fileclose}

abbrev pub t_file : ℕ
t_file = 2

abbrev pub t_device : ℕ
t_device = 3

-- Fields of the inode at `i` are set, then `iupdate(ip)`.
abbrev pub put_inode : Store → (i : ℕ) → Inode → Store
put_inode s i ip = record { inodes = set s.inodes i ip; fs = iupdate s.fs ip }

-- `ip->nlink++` and `ip->nlink--`, for a `short`.
abbrev pub link_more : Inode → Inode
link_more ip = record ip { nlink = (ip.nlink + 1) % 2 ^ 16 }

abbrev pub link_less : Inode → Inode
link_less ip = record ip { nlink = (ip.nlink + 2 ^ 16 - 1) % 2 ^ 16 }

-- The clean-up of `sys_link` at `bad`.
link_bad : (ip : ℕ) → Store → Outcome (Bool × Store)
link_bad ip s = ilock_at s ip >>= λ s1.
    iunlockput (put_inode s1 ip (link_less (inode_at s1.inodes ip))) ip >>= λ s2. ok (false, s2)

-- The new entry, in the directory at `dp`.
link_in : (ip dp : ℕ) → (name : List ℕ) → Store → Outcome (Bool × Store)
link_in ip dp name s = ilock_at s dp >>= λ s1.
    let bad = λ (s' : Store). iunlockput s' dp >>= link_bad ip in
    if not ((inode_at s1.inodes dp).dev == (inode_at s1.inodes ip).dev)
    then bad s1
    else dirlink s1 dp name (inode_at s1.inodes ip).inum >>= λ r.
        if r.0 then (iunlockput r.1 dp >>= λ s2. iput s2 ip >>= λ s3. ok (true, s3)) else bad r.1

-- `sys_link` from `ilock(ip)` on.
link_at : (cwd ip : ℕ) → (new : List ℕ) → Store → Outcome (Bool × Store)
link_at cwd ip new s = ilock_at s ip >>= λ s1.
    if (inode_at s1.inodes ip).type == t_dir
    then (iunlockput s1 ip >>= λ s2. ok (false, s2))
    else iunlock (put_inode s1 ip (link_more (inode_at s1.inodes ip))) ip >>= λ s2.
        nameiparent s2 cwd new >>= λ r. elim r.0 [
          | none ↦ link_bad ip r.2
          | some dp ↦ link_in ip dp r.1 r.2
        ]

pub link : (cwd : ℕ) → (old new : List ℕ) → Store → Outcome (Bool × Store)
link cwd old new s =
    namei s cwd old >>= λ r. elim r.0 [ none ↦ ok (false, r.1) | some ip ↦ link_at cwd ip new r.1 ]

-- The loop of `isdirempty`, on fuel.
empty_dir_from : (fuel off : ℕ) → Inode → Fs → Outcome (Bool × Inode × Fs)
empty_dir_from zero off dp f = fault
empty_dir_from (suc fuel) off dp f =
    let rest = read_dirent f dp off >>= λ r.
    let later = empty_dir_from fuel (off + dirent_size) r.1 r.2 in
    if dirent_inum r.0 == 0 then later else ok (false, r.1, r.2) in
    if ltb off dp.size then rest else ok (true, dp, f)

isdirempty : Fs → Inode → Outcome (Bool × Inode × Fs)
isdirempty f dp = empty_dir_from (suc (dp.size / dirent_size + 1)) (2 * dirent_size) dp f

-- `ip->nlink < 1`
abbrev pub no_links : Inode → Bool
no_links ip = leb (2 ^ 15) ip.nlink || ip.nlink == 0

-- `sys_unlink` from the write of zeros over the entry at `off` on.
unlink_entry : (dp ip off : ℕ) → Store → Outcome (Bool × Store)
unlink_entry dp ip off s =
    writei s.fs (inode_at s.inodes dp) (λ k. 0) (λ k. bsize) off dirent_size >>= λ w.
    let s1 : Store = record { inodes = set s.inodes dp w.1; fs = w.2 } in
    let is_dir = (inode_at s1.inodes ip).type == t_dir in
    let s2 = if is_dir then put_inode s1 dp (link_less (inode_at s1.inodes dp)) else s1 in
    if not (is_count w.0 dirent_size)
    then panic
    else iunlockput s2 dp >>= λ s3.
        iunlockput (put_inode s3 ip (link_less (inode_at s3.inodes ip))) ip >>= λ s4. ok (true, s4)

-- Its `bad`.
unlink_bad : (dp : ℕ) → Store → Outcome (Bool × Store)
unlink_bad dp s = iunlockput s dp >>= λ s1. ok (false, s1)

-- `!isdirempty(ip)` for a directory, with the inode it read.
is_full_dir : (ip : ℕ) → Store → Outcome (Bool × Store)
is_full_dir ip s =
    if (inode_at s.inodes ip).type == t_dir
    then (isdirempty s.fs (inode_at s.inodes ip) >>= λ r.
        ok (not r.0, record { inodes = set s.inodes ip r.1; fs = r.2 }))
    else ok (false, s)

-- The inode at `ip` was found at `off` of the directory at `dp`.
unlink_found : (dp ip off : ℕ) → Store → Outcome (Bool × Store)
unlink_found dp ip off s = ilock_at s ip >>= λ s1.
    if no_links (inode_at s1.inodes ip)
    then panic
    else is_full_dir ip s1 >>= λ r.
        if r.0 then iunlockput r.1 ip >>= unlink_bad dp else unlink_entry dp ip off r.1

abbrev pub dot : List ℕ
dot = b'.' ∷ []

abbrev pub dot_dot : List ℕ
dot_dot = b'.' ∷ b'.' ∷ []

unlink_in : (dp : ℕ) → (name : List ℕ) → Store → Outcome (Bool × Store)
unlink_in dp name s = ilock_at s dp >>= λ s1.
    if same_name name dot || same_name name dot_dot
    then unlink_bad dp s1
    else dirlookup s1 dp name >>= λ r. elim r.0 [
      | none ↦ unlink_bad dp r.1
      | some e ↦ unlink_found dp e.0 e.1 r.1
    ]

pub unlink : (cwd : ℕ) → (path : List ℕ) → Store → Outcome (Bool × Store)
unlink cwd path s = nameiparent s cwd path >>= λ r. elim r.0 [
  | none ↦ ok (false, r.2)
  | some dp ↦ unlink_in dp r.1 r.2
]

-- `if(dirlink(...) < 0) panic(...);`
abbrev must_link : (dp : ℕ) → (name : List ℕ) → (inum : ℕ) → Store → Outcome Store
must_link dp name inum s = dirlink s dp name inum >>= λ r. if r.0 then ok r.1 else panic

-- The entries `.` and `..` of a new directory.
create_dots : (ip dp : ℕ) → Store → Outcome Store
create_dots ip dp s =
    let s1 = put_inode s dp (link_more (inode_at s.inodes dp)) in
    must_link ip dot (inode_at s1.inodes ip).inum s1 >>= λ s2.
    must_link ip dot_dot (inode_at s2.inodes dp).inum s2

-- `create` from `ialloc` on.
pub create_new :
    (dp : ℕ) → (name : List ℕ) → (type major minor : ℕ) → Store → Outcome (Option ℕ × Store)
create_new dp name type major minor s = ialloc s (inode_at s.inodes dp).dev type >>= λ a.
    ilock_at a.1 a.0 >>= λ s1.
    let made = record (inode_at s1.inodes a.0) { major = major; minor = minor; nlink = 1 } in
    let s2 = put_inode s1 a.0 made in
    (if type == t_dir then create_dots a.0 dp s2 else ok s2) >>= λ s3.
    must_link dp name (inode_at s3.inodes a.0).inum s3 >>= λ s4.
    iunlockput s4 dp >>= λ s5. ok (some a.0, s5)

-- The name is there already.
create_found : (dp ip type : ℕ) → Store → Outcome (Option ℕ × Store)
create_found dp ip type s = iunlockput s dp >>= λ s1. ilock_at s1 ip >>= λ s2.
    let found = (inode_at s2.inodes ip).type in
    if type == t_file && (found == t_file || found == t_device)
    then ok (some ip, s2)
    else iunlockput s2 ip >>= λ s3. ok (none, s3)

create_in : (dp : ℕ) → (name : List ℕ) → (type major minor : ℕ) → Store → Outcome (Option ℕ × Store)
create_in dp name type major minor s = ilock_at s dp >>= λ s1. dirlookup s1 dp name >>= λ r.
    elim r.0 [
      | none ↦ create_new dp name type major minor r.1
      | some e ↦ create_found dp e.0 type r.1
    ]

pub create :
    (cwd : ℕ) → (path : List ℕ) → (type major minor : ℕ) → Store → Outcome (Option ℕ × Store)
create cwd path type major minor s = nameiparent s cwd path >>= λ r. elim r.0 [
  | none ↦ ok (none, r.2)
  | some dp ↦ create_in dp r.1 type major minor r.2
]

-- `sys_mkdir` and `sys_mknod`
pub make : (cwd : ℕ) → (path : List ℕ) → (type major minor : ℕ) → Store → Outcome (Bool × Store)
make cwd path type major minor s = create cwd path type major minor s >>= λ r. elim r.0 [
  | none ↦ ok (false, r.1)
  | some ip ↦ iunlockput r.1 ip >>= λ s1. ok (true, s1)
]

-- `sys_chdir`: the new directory of the process, which had `cwd`.
pub chdir : (cwd : ℕ) → (path : List ℕ) → Store → Outcome (Option ℕ × Store)
chdir cwd path s = namei s cwd path >>= λ r. elim r.0 [
  | none ↦ ok (none, r.1)
  | some ip ↦ ilock_at r.1 ip >>= λ s1.
      if not ((inode_at s1.inodes ip).type == t_dir)
      then (iunlockput s1 ip >>= λ s2. ok (none, s2))
      else iunlock s1 ip >>= λ s2. iput s2 cwd >>= λ s3. ok (some ip, s3)
]

-- The loop of `fdalloc` from descriptor `fd` on, over the open files of the process.
pub fdalloc : (f fd : ℕ) → List (Option ℕ) → Option ℕ × List (Option ℕ)
fdalloc f fd [] = (none, [])
fdalloc f fd (none ∷ ofile) = (some fd, some f ∷ ofile)
fdalloc f fd (some g ∷ ofile) =
    let (taken, ofile') = fdalloc f (fd + 1) ofile in (taken, some g ∷ ofile')

-- The file that `argfd` finds.
abbrev pub argfd : List (Option ℕ) → (fd : ℕ) → Option ℕ
argfd ofile fd = get_or ofile fd none

-- `sys_dup`: the new descriptor, and both tables.
pub dup : (fd : ℕ) → List (Option ℕ) → List File → Outcome (Option ℕ × List (Option ℕ) × List File)
dup fd ofile fs = elim (argfd ofile fd) [
  | none ↦ ok (none, ofile, fs)
  | some f ↦ elim (fdalloc f 0 ofile).0 [
    | none ↦ ok (none, (fdalloc f 0 ofile).1, fs)
    | some fd' ↦ filedup fs f >>= λ fs'. ok (some fd', (fdalloc f 0 ofile).1, fs')
  ]
]

-- `sys_close`, with what the close leaves to do.
pub close :
    (fd : ℕ) → List (Option ℕ) → List File → Outcome (Option Release × List (Option ℕ) × List File)
close fd ofile fs = elim (argfd ofile fd) [
  | none ↦ ok (none, ofile, fs)
  | some f ↦ fileclose fs f >>= λ c. ok (some c.0, set ofile fd none, c.1)
]
