-- ===== src/Bio.antt =====
-- The buffer cache of kernel/bio.c: the list of the buffers from the most recently used one to the
-- least. A buffer is its place in that list. `bcache.lock` is held over each change. The device is a
-- store of blocks, as `virtio_disk_rw` reads and writes whole ones.
pub mod Contents
pub mod Find
pub mod Read
pub mod Release
mod Tests
use fast_ipc.Base.{
  ℕ, zero, suc, ◌+◌, ◌-◌, ◌%◌, ◌^◌, List, [], ◌∷◌, Option, none, some, Bool, true, false, not, ◌&&◌,
  ◌==◌, if◌then◌else◌, Outcome, ok, panic, ◌>>=◌, get_or, set, replicate,
}
use fast_ipc.Memory.{Mem}
use fast_ipc.Sleeplock.{SleepLock, no_lock, acquiresleep, releasesleep, holdingsleep}

-- `struct buf`
pub record Buf : Type 0 where
  pub valid : Bool
  pub dev : ℕ
  pub blockno : ℕ
  pub lock : SleepLock
  pub refcnt : ℕ
  pub bytes : Mem

abbrev pub no_buf : Buf
no_buf = record { valid = false; dev = 0; blockno = 0; lock = no_lock; refcnt = 0; bytes = λ x. 0 }

-- The blocks of the devices.
abbrev pub Device : Type 0
Device = (dev blockno : ℕ) → Mem

-- `binit`, with `NBUF` buffers
unfoldable pub binit : (nbuf : ℕ) → List Buf
binit nbuf = replicate nbuf no_buf

abbrev pub buf_at : List Buf → ℕ → Buf
buf_at l i = get_or l i no_buf

abbrev pub is_block : (dev blockno : ℕ) → Buf → Bool
is_block dev blockno b = b.dev == dev && b.blockno == blockno

-- The first loop of `bget`, from place `i` on.
unfoldable pub find_block : (dev blockno : ℕ) → List Buf → (i : ℕ) → Option ℕ
find_block dev blockno [] i = none
find_block dev blockno (b ∷ rest) i =
    let later = find_block dev blockno rest (i + 1) in
    if is_block dev blockno b then some i else later

abbrev pub or_else : Option ℕ → Option ℕ → Option ℕ
or_else none d = d
or_else (some i) d = some i

-- The second loop, which goes backwards: the last buffer that is not in use.
unfoldable pub find_idle : List Buf → (i : ℕ) → Option ℕ
find_idle [] i = none
find_idle (b ∷ rest) i = or_else (find_idle rest (i + 1)) (if b.refcnt == 0 then some i else none)

abbrev pub referenced : Buf → Buf
referenced b = record b { refcnt = (b.refcnt + 1) % 2 ^ 32 }

abbrev pub unreferenced : Buf → Buf
unreferenced b = record b { refcnt = (b.refcnt + 2 ^ 32 - 1) % 2 ^ 32 }

abbrev pub reused : Buf → (dev blockno : ℕ) → Buf
reused b dev blockno = record b { dev = dev; blockno = blockno; valid = false; refcnt = 1 }

-- `bget` up to `acquiresleep`
unfoldable pub bget : List Buf → (dev blockno : ℕ) → Outcome (ℕ × List Buf)
bget l dev blockno = elim (find_block dev blockno l 0) [
  | some i ↦ ok (i, set l i (referenced (buf_at l i)))
  | none ↦ elim (find_idle l 0) [
    | some i ↦ ok (i, set l i (reused (buf_at l i) dev blockno))
    | none ↦ panic
  ]
]

-- `if(!b->valid) { virtio_disk_rw(b, 0); b->valid = 1; }`
abbrev pub filled : Device → Buf → Buf
filled disk b = if b.valid then b else record b { bytes = disk b.dev b.blockno; valid = true }

-- What a call of `bread` comes to: the buffer is locked and filled, or the process sleeps on its lock.
pub data Reading : Type 0 where
  ready asleep : (i : ℕ) → List Buf → Reading

abbrev pub lock_and_fill : Device → (pid : ℕ) → (i : ℕ) → List Buf → Reading
lock_and_fill disk pid i l = elim (acquiresleep (buf_at l i).lock pid) [
  | none ↦ asleep i l
  | some lk ↦ ready i (set l i (filled disk (record (buf_at l i) { lock = lk })))
]

unfoldable pub bread : Device → (pid : ℕ) → List Buf → (dev blockno : ℕ) → Outcome Reading
bread disk pid l dev blockno = bget l dev blockno >>= λ r. ok (lock_and_fill disk pid r.0 r.1)

-- `bwrite`: the device after it.
unfoldable pub bwrite : Device → (pid : ℕ) → List Buf → (i : ℕ) → Outcome Device
bwrite disk pid l i =
    let b = buf_at l i in
    if not (holdingsleep b.lock pid)
    then panic
    else ok (λ d n. if is_block d n b then b.bytes else disk d n)

unfoldable pub remove : List Buf → ℕ → List Buf
remove [] i = []
remove (b ∷ l) zero = l
remove (b ∷ l) (suc i) = b ∷ remove l i

-- The assignments that link a buffer behind the head.
abbrev pub to_front : List Buf → (i : ℕ) → List Buf
to_front l i = buf_at l i ∷ remove l i

unfoldable pub brelse : (pid : ℕ) → List Buf → (i : ℕ) → Outcome (List Buf)
brelse pid l i =
    let b = buf_at l i in
    let l' = set l i (unreferenced (record b { lock = releasesleep b.lock })) in
    if not (holdingsleep b.lock pid)
    then panic
    else ok (if (unreferenced b).refcnt == 0 then to_front l' i else l')

unfoldable pub bpin : List Buf → (i : ℕ) → List Buf
bpin l i = set l i (referenced (buf_at l i))

unfoldable pub bunpin : List Buf → (i : ℕ) → List Buf
bunpin l i = set l i (unreferenced (buf_at l i))
