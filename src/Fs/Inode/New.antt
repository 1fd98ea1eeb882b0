-- ===== src/Fs/Inode/New.antt =====
-- A file after `balloc`, where the new block becomes one of it.
use fast_ipc.Base.{
  ℕ, ◌+◌, ◌-◌, ◌*◌, ◌/◌, ◌%◌, ◌<◌, ◌≡◌, ◌≢◌, inl, inr, refl, sym, ap, ◌∙◌, arith, true, false, ltb,
  ltb→lt, lt→ltb, ◌==◌, if◌then◌else◌, Bool-cases, ok, set, length-set, get_or-set_self,
  get_or-set_ne,
}
use fast_ipc.Memory.{Mem, store_le}
use fast_ipc.Memory.Words.{load_le-store_le_self, load_le-store_le_ne, load_le_zero}
use fast_ipc.Fs.{Fs, bits_per_block, put_block, bzero, balloc, bsize, bblock}
use fast_ipc.Fs.Bits.{has_bit}
use fast_ipc.Fs.Alloc.{used, busy, OffMap, balloc_ok, taken_lem}
use fast_ipc.Fs.Inode.{Inode, ndirect, nindirect, maxfile}
use fast_ipc.Fs.Inode.Map.{
  indirect, entry, address, IsFile, Grows, OffMap-same, IsFile-add, IsFile-indirect,
}

-- What `bmap` does where it returns `a` for block `bn` of a file.

pub record Mapped (f : Fs) (ip : Inode) (bn a : ℕ) (f' : Fs) (ip' : Inode) : Type 0 where
  pub file : IsFile f' ip'
  pub nonzero : a ≢ 0
  pub here : address f' ip' bn ≡ a
  pub rest : (k : ℕ) → k < maxfile → k ≢ bn → address f' ip' k ≡ address f ip k
  pub old : address f ip bn ≢ 0 → a ≡ address f ip bn
  pub same_sb : f'.sb ≡ f.sb
  pub contents :
      (k : ℕ)
      → k < maxfile
      → address f ip k ≢ 0
      → f'.blocks (address f ip k) ≡ f.blocks (address f ip k)
  pub blank : address f ip bn ≡ 0 → (x : ℕ) → x < bsize → f'.blocks a x ≡ 0
  pub inode : ip' ≡ record ip { addrs = ip'.addrs }

-- Nothing is done where the block is there.
pub Mapped-refl :
    (f : Fs) (ip : Inode) (bn : ℕ)
    → IsFile f ip
    → address f ip bn ≢ 0
    → Mapped f ip bn (address f ip bn) f ip
Mapped-refl f ip bn v ne = record {
  file = v;
  nonzero = ne;
  here = refl;
  rest = λ k lt q. refl;
  old = λ q. refl;
  same_sb = refl;
  contents = λ k lt q. refl;
  blank = λ e. absurd (ne e);
  inode = refl;
}

module _ (f : Fs) (ip : Inode) (n : ℕ) (f' : Fs) (v : IsFile f ip) (e : balloc f ≡ ok (n, f')) where
  pub balloc-Grows :
      Grows f n f'
      × ((x : ℕ) → x < bsize → f'.blocks n x ≡ 0)
      × ((b : ℕ) → b ≢ n → OffMap f b → f'.blocks b ≡ f.blocks b)
  unfolding bzero
  balloc-Grows =
      let (lt, free, made) = balloc_ok f n e in
      let idle : busy f n ≡ false = rw (lt→ltb n f.sb.size lt) free in
      let may = v.free n idle in
      let (marks, blank, others) = taken_lem f n may.2 in
      rw made (
        record {
          same_sb = refl;
          may = may;
          was_free = idle;
          marks = λ j. ground (arith, marks j, lt);
        },
        blank,
        λ b ne off. others b ne (λ q. off n lt (sym q)),
      )

  -- A block of the file is not the new one.
  fresh : (k : ℕ) → k < maxfile → address f ip k ≢ 0 → address f ip k ≢ n
  fresh k lt ne q = ground (arith, v.in_use k lt, balloc-Grows.0.was_free)

  pub keeps :
      (k : ℕ)
      → k < maxfile
      → address f ip k ≢ 0
      → f'.blocks (address f ip k) ≡ f.blocks (address f ip k)
  keeps k lt ne = balloc-Grows.2 (address f ip k) (fresh k lt ne) (v.off_map k lt ne)

  indirect_fresh : indirect ip ≢ 0 → indirect ip ≢ n
  indirect_fresh ne q = ground (arith, v.indirect_used, balloc-Grows.0.was_free)

  entries : (k : ℕ) → entry f' (indirect ip) k ≡ entry f (indirect ip) k
  entries k = elim (Bool-cases (indirect ip == 0)) [
    | inl none ↦ rw none
    | inr there ↦
        (let ne : indirect ip ≢ 0 = ground arith in
          rw (there, balloc-Grows.2 (indirect ip) (indirect_fresh ne) (v.indirect_used ne).1))
  ]

  -- The new block as a direct one.
  pub direct_new :
      (bn : ℕ)
      → bn < ndirect
      → address f ip bn ≡ 0
      → Mapped f ip bn n f' (record ip { addrs = set ip.addrs bn n })
  direct_new bn lt hole = record {
    file = IsFile-add f ip n f' ip' v g (length-set ip.addrs bn n ∙ v.count) refl bn law same;
    nonzero = g.may.0;
    here = ground (arith, law bn (omega arith));
    rest = λ k l ne. ground (arith, law k l);
    old = λ ne. absurd (ne hole);
    same_sb = g.same_sb;
    contents = keeps;
    blank = λ q. balloc-Grows.1;
    inode = refl;
  }
    where
      g : Grows f n f'
      g = balloc-Grows.0

      ip' : Inode
      ip' = record ip { addrs = set ip.addrs bn n }

      same : indirect ip' ≡ indirect ip
      same = get_or-set_ne ip.addrs bn ndirect n 0 (omega arith)

      law : (k : ℕ) → k < maxfile → address f' ip' k ≡ (if k == bn then n else address f ip k)
      law k l = elim (Bool-cases (k == bn)) [
        | inl eq ↦
            (let q : k ≡ bn = ground arith in
              let low : ltb bn ndirect ≡ true = ground arith in
              rw (eq, q, low) (get_or-set_self ip.addrs bn n 0 (omega (arith, v.count))))
        | inr ne ↦ elim (Bool-cases (ltb k ndirect)) [
          | inl low ↦ rw (ne, low) (get_or-set_ne ip.addrs bn k n 0 (ground arith))
          | inr high ↦ rw (ne, high, same) (entries (k - ndirect))
        ]
      ]

  -- The new block as the indirect one, all of whose entries are 0.
  pub indirect_new :
      indirect ip ≡ 0
      → let ip' = record ip { addrs = set ip.addrs ndirect n } in
        IsFile f' ip'
        × (indirect ip' ≡ n)
        × ((k : ℕ) → k < maxfile → address f' ip' k ≡ address f ip k)
  indirect_new hole = (
    IsFile-indirect f ip n f' ip' v g (length-set ip.addrs ndirect n ∙ v.count) refl law made,
    made,
    law,
  )
    where
      g : Grows f n f'
      g = balloc-Grows.0

      ip' : Inode
      ip' = record ip { addrs = set ip.addrs ndirect n }

      made : indirect ip' ≡ n
      made = get_or-set_self ip.addrs ndirect n 0 (omega (arith, v.count))

      blank : (k : ℕ) → k < nindirect → entry f' n k ≡ 0
      blank k l =
          let bytes =
            load_le_zero (f'.blocks n) 4 (4 * k) (λ x lo hi. balloc-Grows.1 x (omega arith)) in
          ground (arith, bytes)

      law : (k : ℕ) → k < maxfile → address f' ip' k ≡ address f ip k
      law k l = elim (Bool-cases (ltb k ndirect)) [
        | inl low ↦ rw low (get_or-set_ne ip.addrs ndirect k n 0 (ground arith))
        | inr high ↦ rw (high, made, hole) (blank (k - ndirect) (ground arith))
      ]

  -- The new block as an entry of the indirect block.
  pub entry_new :
      (k0 : ℕ)
      → k0 < nindirect
      → indirect ip ≢ 0
      → address f ip (k0 + ndirect) ≡ 0
      → Mapped f ip
          (k0 + ndirect)
          n
          (put_block f' (indirect ip) (store_le (f'.blocks (indirect ip)) (4 * k0) 4 n))
          ip
  entry_new k0 lt there hole = record {
    file = IsFile-add f ip n f'' ip v g' v.count refl (k0 + ndirect) law refl;
    nonzero = g.may.0;
    here = ground (arith, law (k0 + ndirect) (omega arith));
    rest = λ k l ne. ground (arith, law k l);
    old = λ ne. absurd (ne hole);
    same_sb = g.same_sb;
    contents = λ k l ne. other (address f ip k) (v.indirect_apart k l ne) ∙ keeps k l ne;
    blank = λ q x l.
        ap (λ (m : Mem). m x) (other n (λ q'. indirect_fresh there (sym q'))) ∙ balloc-Grows.1 x l;
    inode = refl;
  }
    where
      g : Grows f n f'
      g = balloc-Grows.0

      f'' : Fs
      f'' = put_block f' (indirect ip) (store_le (f'.blocks (indirect ip)) (4 * k0) 4 n)

      other : (b : ℕ) → b ≢ indirect ip → f''.blocks b ≡ f'.blocks b
      other b ne = let no : (b == indirect ip) ≡ false = ground arith in rw no

      g' : Grows f n f''
      g' = record {
        same_sb = g.same_sb;
        may = g.may;
        was_free = g.was_free;
        marks = λ j. elim (Bool-cases (ltb j f'.sb.size)) [
          | inr past ↦ ground (arith, g.marks j)
          | inl inside ↦
              (let same : used f'' j ≡ used f' j =
                  ap (λ (m : Mem). has_bit (m (j % bits_per_block / 8)) (j % 8))
                    (other (bblock f' j) (
                      OffMap-same f f' (indirect ip) g.same_sb (v.indirect_used there).1 j
                        (ltb→lt j f'.sb.size inside))) in
                rw (inside, same) (rw inside at (g.marks j)))
        ];
      }

      stored : f''.blocks (indirect ip) ≡ store_le (f'.blocks (indirect ip)) (4 * k0) 4 n
      stored = let yes_it : (indirect ip == indirect ip) ≡ true = ground arith in rw yes_it

      is_there : (indirect ip == 0) ≡ false
      is_there = ground arith

      law :
          (k : ℕ)
          → k < maxfile
          → address f'' ip k ≡ (if k == k0 + ndirect then n else address f ip k)
      law k l = elim (Bool-cases (ltb k ndirect)) [
        | inl low ↦ (let no : (k == k0 + ndirect) ≡ false = ground arith in rw (no, low))
        | inr high ↦ elim (Bool-cases (k == k0 + ndirect)) [
          | inl eq ↦
              (let place : k - ndirect ≡ k0 = ground arith in
                rw (eq, high, is_there, stored, place)
                  (load_le-store_le_self (f'.blocks (indirect ip)) (4 * k0) 4 n
                    (omega (arith, g.may.1))))
          | inr ne ↦
              (let kept = entries (k - ndirect) in
                rw (ne, high, is_there, stored)
                  (load_le-store_le_ne (f'.blocks (indirect ip)) (4 * k0) 4 n (4 * (k - ndirect)) 4
                      (ground arith)
                    ∙ ground (arith, kept, is_there)))
        ]
      ]
