-- ===== src/Fs/Inode/Map.antt =====
-- The blocks of a file: what `bmap` returns, and that it keeps the blocks of a file apart.
use fast_ipc.Base.{
  ℕ, ◌+◌, ◌-◌, ◌*◌, ◌/◌, ◌^◌, ◌<◌, ◌≡◌, ◌≢◌, inl, inr, sym, ap, ◌∙◌, arith, true, false, length,
  ltb, ◌==◌, if◌then◌else◌, Bool-cases, get_or,
}
use fast_ipc.Memory.{load_le}
use fast_ipc.Fs.{Fs}
use fast_ipc.Fs.Alloc.{busy, OffMap}
use fast_ipc.Fs.Inode.{Inode, iblock, ndirect, maxfile}

-- The indirect block, and the block of the file that has the number `bn` in it; 0 for none.

abbrev pub indirect : Inode → ℕ
indirect ip = get_or ip.addrs ndirect 0

abbrev pub entry : Fs → (addr k : ℕ) → ℕ
entry f addr k = if addr == 0 then 0 else load_le (f.blocks addr) (4 * k) 4

abbrev pub address : Fs → Inode → (bn : ℕ) → ℕ
address f ip bn =
    if ltb bn ndirect then get_or ip.addrs bn 0 else entry f (indirect ip) (bn - ndirect)

-- A block that the file system may hand out.
abbrev pub IsFree : Fs → ℕ → Type 0
IsFree f n = (n ≢ 0) × (n < 2 ^ 32) × OffMap f n

-- The blocks of a file are in use, none of them in the map, and no two are the same; and what is not
-- in use may be handed out.
pub record IsFile (f : Fs) (ip : Inode) : Type 0 where
  pub count : length ip.addrs ≡ ndirect + 1
  pub free : (n : ℕ) → busy f n ≡ false → IsFree f n
  pub in_use : (k : ℕ) → k < maxfile → address f ip k ≢ 0 → busy f (address f ip k) ≡ true
  pub off_map : (k : ℕ) → k < maxfile → address f ip k ≢ 0 → OffMap f (address f ip k)
  pub apart :
      (j k : ℕ)
      → j < maxfile
      → k < maxfile
      → address f ip j ≢ 0
      → address f ip j ≡ address f ip k
      → j ≡ k
  pub indirect_used : indirect ip ≢ 0 → (busy f (indirect ip) ≡ true) × OffMap f (indirect ip)
  pub indirect_apart : (k : ℕ) → k < maxfile → address f ip k ≢ 0 → address f ip k ≢ indirect ip
  -- the block of the inode itself
  pub inode_used : (busy f (iblock f ip.inum) ≡ true) × OffMap f (iblock f ip.inum)
  pub inode_apart : (k : ℕ) → k < maxfile → address f ip k ≢ 0 → address f ip k ≢ iblock f ip.inum
  pub inode_indirect : indirect ip ≢ 0 → indirect ip ≢ iblock f ip.inum

-- What an allocation of block `n` does to the set of the blocks in use.
pub record Grows (f : Fs) (n : ℕ) (f' : Fs) : Type 0 where
  pub same_sb : f'.sb ≡ f.sb
  pub may : IsFree f n
  pub was_free : busy f n ≡ false
  pub marks : (j : ℕ) → busy f' j ≡ (if j == n then true else busy f j)

pub OffMap-same : (f f' : Fs) (n : ℕ) → f'.sb ≡ f.sb → OffMap f n → OffMap f' n
OffMap-same f f' n e off j lt q =
    off j (rw e at lt) (ap (λ sb. j / 8192 + sb.bmapstart) (sym e) ∙ q)

IsFree-Grows :
    (f : Fs) (ip : Inode) (n : ℕ) (f' : Fs)
    → IsFile f ip
    → Grows f n f'
    → (m : ℕ) → busy f' m ≡ false
    → IsFree f' m
IsFree-Grows f ip n f' v g m free =
    let (ne, small, off) = v.free m (ground (arith, g.marks m)) in
    (ne, small, OffMap-same f f' m g.same_sb off)

module _ (f : Fs) (ip : Inode) (n : ℕ) (f' : Fs) (ip' : Inode) (v : IsFile f ip) (g : Grows f n f')
    (counted : length ip'.addrs ≡ ndirect + 1) (same_inum : ip'.inum ≡ ip.inum) where
  still_used : (b : ℕ) → busy f b ≡ true → busy f' b ≡ true
  still_used b u = ground (arith, g.marks b)

  home : iblock f' ip'.inum ≡ iblock f ip.inum
  home = λ i. same_inum i / 16 + (g.same_sb i).inodestart

  home_used : (busy f' (iblock f' ip'.inum) ≡ true) × OffMap f' (iblock f' ip'.inum)
  home_used =
      rw home
        (still_used (iblock f ip.inum) v.inode_used.0, OffMap-same f f' _ g.same_sb v.inode_used.1)

  -- The block becomes number `bn` of the file.
  pub IsFile-add :
      (bn : ℕ)
      → ((k : ℕ) → k < maxfile → address f' ip' k ≡ (if k == bn then n else address f ip k))
      → indirect ip' ≡ indirect ip
      → IsFile f' ip'
  IsFile-add bn law same = record {
    count = counted;
    free = IsFree-Grows f ip n f' v g;
    in_use = λ k lt ne. elim (Bool-cases (k == bn)) [
      | inl here ↦ rw (law k lt, here) (ground (arith, g.marks n))
      | inr there ↦
          rw (law k lt, there)
            (still_used (address f ip k) (v.in_use k lt (rw (law k lt, there) at ne)))
    ];
    off_map = λ k lt ne. elim (Bool-cases (k == bn)) [
      | inl here ↦ rw (law k lt, here) (OffMap-same f f' n g.same_sb g.may.2)
      | inr there ↦
          rw (law k lt, there)
            (OffMap-same f f' _ g.same_sb (v.off_map k lt (rw (law k lt, there) at ne)))
    ];
    apart = λ j k lj lk ne e. ground (
      arith,
      law j lj,
      law k lk,
      v.apart j k lj lk,
      v.in_use j lj,
      v.in_use k lk,
      g.was_free,
      g.may.0,
    );
    indirect_used = λ ne. (
      rw same (still_used (indirect ip) (v.indirect_used (rw same at ne)).0),
      rw same (OffMap-same f f' _ g.same_sb (v.indirect_used (rw same at ne)).1),
    );
    indirect_apart = λ k lt ne e.
        ground (arith, law k lt, same, v.indirect_apart k lt, v.indirect_used, g.was_free, g.may.0);
    inode_used = home_used;
    inode_apart =
        λ k lt ne e. ground (arith, law k lt, home, v.inode_apart k lt, v.inode_used.0, g.was_free);
    inode_indirect = λ ne. rw (home, same) (v.inode_indirect (rw same at ne));
  }

  -- The block becomes the indirect block, and the file's blocks stay.
  pub IsFile-indirect :
      ((k : ℕ) → k < maxfile → address f' ip' k ≡ address f ip k) → indirect ip' ≡ n → IsFile f' ip'
  IsFile-indirect law made = record {
    count = counted;
    free = IsFree-Grows f ip n f' v g;
    in_use = λ k lt ne.
        rw (law k lt) (still_used (address f ip k) (v.in_use k lt (rw (law k lt) at ne)));
    off_map = λ k lt ne.
        rw (law k lt) (OffMap-same f f' _ g.same_sb (v.off_map k lt (rw (law k lt) at ne)));
    apart = λ j k lj lk ne e. ground (arith, law j lj, law k lk, v.apart j k lj lk);
    indirect_used =
        λ ne. (rw made (ground (arith, g.marks n)), rw made (OffMap-same f f' n g.same_sb g.may.2));
    indirect_apart = λ k lt ne e. ground (arith, law k lt, made, v.in_use k lt, g.was_free);
    inode_used = home_used;
    inode_apart = λ k lt ne e. ground (arith, law k lt, home, v.inode_apart k lt);
    inode_indirect = λ ne e. ground (arith, made, home, v.inode_used.0, g.was_free);
  }
