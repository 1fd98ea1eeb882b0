-- ===== src/Log.antt =====
-- The log of the file system, kernel/log.c. `bread` is taken to give the newest contents of a block,
-- and each `bwrite` is one write of the disk, so a function also returns the writes it issues, the
-- first one first. The header block is kept as the block numbers it lists, so `n` is their number.
pub mod Recovery
pub mod Space
mod Tests
use fast_ipc.Base.{
  ℕ, zero, suc, ◌+◌, ◌-◌, ◌*◌, ◌^◌, ◌%◌, List, [], ◌∷◌, ◌++◌, Option, none, some, Bool, true, false,
  not, ◌&&◌, ◌||◌, ltb, leb, ◌==◌, if◌then◌else◌, Outcome, ok, panic, length, is_negative, to_int,
}

abbrev pub max_op_blocks : ℕ
max_op_blocks = 10

abbrev pub log_size : ℕ
log_size = max_op_blocks * 3

-- The bytes of a block.
abbrev pub Block : Type 0
Block = List ℕ

-- `block[0 .. n - 1]` of a `struct logheader`
abbrev pub Header : Type 0
Header = List ℕ

pub record Disk : Type 0 where
  pub blocks : ℕ → Block
  pub header : Header

pub data Write : Type 0 where
  block : (blockno : ℕ) → (contents : Block) → Write
  head : Header → Write

abbrev pub put : (ℕ → Block) → ℕ → Block → ℕ → Block
put m n b x = if x == n then b else m x

-- What a write leaves on the disk, and a sequence of them.
abbrev pub after : Disk → Write → Disk
after d (block n b) = record d { blocks = put d.blocks n b }
after d (head h) = record d { header = h }

abbrev pub after_all : Disk → List Write → Disk
after_all d [] = d
after_all d (w ∷ ws) = after_all (after d w) ws

-- The blocks as `bread` gives them, and how often each is pinned in the cache.
pub record Cache : Type 0 where
  pub contents : ℕ → Block
  pub pins : ℕ → ℕ

-- `memmove(to->data, from->data, BSIZE)` and `bwrite(to)`
abbrev pub copy_block : Cache → (to from : ℕ) → Cache
copy_block c to from = record c { contents = put c.contents to (c.contents from) }

-- `if(recovering == 0) bunpin(b)`
abbrev pub unpin : (recovering : Bool) → Cache → ℕ → Cache
unpin recovering c n = record c {
  pins = λ x. if x == n && not recovering then c.pins x - 1 else c.pins x;
}

-- The loop of `install_trans` at `tail`, with the blocks of the header that are left.
pub install_from : (recovering : Bool) → (start tail : ℕ) → Header → Cache → List Write × Cache
install_from recovering start tail [] c = ([], c)
install_from recovering start tail (b ∷ bs) c =
    let c1 = copy_block c b (start + tail + 1) in
    let (ws, c') = install_from recovering start (tail + 1) bs (unpin recovering c1 b) in
    (block b (c.contents (start + tail + 1)) ∷ ws, c')

-- The loop of `write_log`.
pub write_log_from : (start tail : ℕ) → Header → Cache → List Write × Cache
write_log_from start tail [] c = ([], c)
write_log_from start tail (b ∷ bs) c =
    let (ws, c') = write_log_from start (tail + 1) bs (copy_block c (start + tail + 1) b) in
    (block (start + tail + 1) (c.contents b) ∷ ws, c')

-- `commit` with the header `lh`, which is empty afterwards.
pub commit : (start : ℕ) → Header → Cache → List Write × Cache
commit start [] c = ([], c)
commit start (b ∷ bs) c =
    let (logged, c1) = write_log_from start 0 (b ∷ bs) c in
    let (installed, c2) = install_from false start 0 (b ∷ bs) c1 in
    (logged ++ (head (b ∷ bs) ∷ (installed ++ (head [] ∷ []))), c2)

-- `recover_from_log`, with the cache empty, so that `bread` reads the disk.
pub recover : (start : ℕ) → Disk → List Write
recover start d =
    let (installed, c) =
      install_from true start 0 d.header (record { contents = d.blocks; pins = λ x. 0 }) in
    installed ++ (head [] ∷ [])

-- `struct log`, without its lock and device.
pub record Log : Type 0 where
  pub start : ℕ
  pub size : ℕ
  pub outstanding : ℕ
  pub committing : Bool
  pub lh : Header

-- One round of `begin_op`: `none` where it sleeps.
unfoldable pub begin_op : Log → Option Log
begin_op l =
    if l.committing
    then none
    else if ltb log_size (length l.lh + (l.outstanding + 1) * max_op_blocks)
    then none
    else some (record l { outstanding = l.outstanding + 1 })

-- `end_op` up to its call of `commit`, which it makes where the `Bool` is true.
unfoldable pub end_op : Log → Outcome (Bool × Log)
end_op l =
    let left = to_int (l.outstanding + 2 ^ 32 - 1) in
    if l.committing
    then panic
    else if left == 0
    then ok (true, record l { outstanding = left; committing = true })
    else ok (false, record l { outstanding = left })

-- The state that the commit and the rest of `end_op` leave.
pub committed : Log → Log
committed l = record l { committing = false; lh = [] }

-- The loop of `log_write` and the store after it: the block numbers, and whether one was added.
pub absorb : Header → (blockno : ℕ) → Bool × Header
absorb [] n = (true, n ∷ [])
absorb (b ∷ bs) n =
    let (added, bs') = absorb bs n in if b == n then (false, n ∷ bs) else (added, b ∷ bs')

-- `log_write`: the `Bool` is whether it pins the buffer.
pub log_write : Log → (blockno : ℕ) → Outcome (Bool × Log)
log_write l n =
    if leb log_size (length l.lh) || (l.size == 0 || leb (l.size - 1) (length l.lh))
    then panic
    else if is_negative l.outstanding || ltb l.outstanding 1
    then panic
    else ok ((absorb l.lh n).0, record l { lh = (absorb l.lh n).1 })
