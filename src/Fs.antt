-- ===== src/Fs.antt =====
-- The file system of kernel/fs.c over its blocks. A block is the bytes that `bread` gives, and
-- `log_write` records its number. The room for it in the log is the matter of Log.antt.
pub mod Bits
pub mod Alloc
pub mod Inode
pub mod Content
pub mod Icache
pub mod Dir
pub mod Path
pub mod Ends
mod Tests
use fast_ipc.Base.{
  ℕ, zero, suc, ◌+◌, ◌-◌, ◌*◌, ◌/◌, ◌%◌, Option, none, some, Bool, true, false, not, ltb, leb, ◌==◌,
  if◌then◌else◌, Outcome, ok, panic, fault,
}
use fast_ipc.Memory.{Mem, memset}
use fast_ipc.Log.{Header, absorb}
use fast_ipc.Fs.Bits.{has_bit, with_bit, without_bit}

abbrev pub bsize : ℕ
bsize = 1024

-- `BPB`
abbrev pub bits_per_block : ℕ
bits_per_block = bsize * 8

-- `struct superblock`, the fields that are read after `fsinit`
pub record Superblock : Type 0 where
  pub size : ℕ
  pub ninodes : ℕ
  pub inodestart : ℕ
  pub bmapstart : ℕ

pub record Fs : Type 0 where
  pub sb : Superblock
  pub blocks : ℕ → Mem
  pub logged : Header

-- A change of a buffer's data, and `log_write` of the buffer.
abbrev pub put_block : Fs → ℕ → Mem → Fs
put_block f n m = record f {
  blocks = λ x. if x == n then m else f.blocks x;
  logged = (absorb f.logged n).1;
}

pub bzero : Fs → (bno : ℕ) → Fs
bzero f bno = put_block f bno (memset (f.blocks bno) 0 0 bsize)

-- `BBLOCK(b, sb)`
abbrev pub bblock : Fs → ℕ → ℕ
bblock f b = b / bits_per_block + f.sb.bmapstart

-- The inner loop of `balloc` at `bi`, in the block `m` of the map that begins with block `b`.
pub free_bit : (left b bi size : ℕ) → Mem → Option ℕ
free_bit zero b bi size m = none
free_bit (suc left) b bi size m =
    let rest = free_bit left b (bi + 1) size m in
    if leb size (b + bi) then none else if has_bit (m (bi / 8)) (bi % 8) then rest else some bi

-- `bp->data[bi/8] |= m`, for `m = 1 << (bi % 8)`, and `&= ~m`
abbrev pub mark : Mem → ℕ → Mem
mark m bi x = if x == bi / 8 then with_bit (m x) (bi % 8) else m x

abbrev pub unmark : Mem → ℕ → Mem
unmark m bi x = if x == bi / 8 then without_bit (m x) (bi % 8) else m x

-- The outer loop of `balloc` at block `b`, on fuel.
pub balloc_from : (fuel b : ℕ) → Fs → Outcome (ℕ × Fs)
balloc_from zero b f = fault
balloc_from (suc fuel) b f =
    let rest = balloc_from fuel (b + bits_per_block) f in
    if ltb b f.sb.size
    then elim (free_bit bits_per_block b 0 f.sb.size (f.blocks (bblock f b))) [
      | none ↦ rest
      | some bi ↦
          ok (b + bi, bzero (put_block f (bblock f b) (mark (f.blocks (bblock f b)) bi)) (b + bi))
    ]
    else panic

pub balloc : Fs → Outcome (ℕ × Fs)
balloc f = balloc_from (suc (f.sb.size / bits_per_block + 1)) 0 f

unfoldable pub bfree : Fs → (b : ℕ) → Outcome Fs
bfree f b =
    let bi = b % bits_per_block in
    let m = f.blocks (bblock f b) in
    if has_bit (m (bi / 8)) (bi % 8) then ok (put_block f (bblock f b) (unmark m bi)) else panic
