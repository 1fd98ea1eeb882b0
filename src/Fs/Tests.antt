-- ===== src/Fs/Tests.antt =====
-- A file system of eight blocks: the map is block 1, the inodes are in block 2, and the file of inode
-- 1 has block 3 and a size of 1022 bytes. Block 7 is free.
use fast_ipc.Base.{
  List, ◌>>=◌, length, ◌*◌, ℕ, zero, suc, ◌+◌, ◌%◌, ◌<◌, ◌≡◌, ◌≢◌, ◌⊎◌, inl, inr, refl, subst,
  arith, [], ◌∷◌, true, false, Option, none, some, ltb, ◌==◌, if◌then◌else◌, Bool-cases, Outcome,
  ok, panic, fault, get_or, take, ◌&&◌,
}
use fast_ipc.Memory.{Mem, load_le}
use fast_ipc.Fs.{Fs, bsize, bblock, bzero, balloc, balloc_from, free_bit, bfree}
use fast_ipc.Fs.Bits.{without_bit, has_bit}
use fast_ipc.Fs.Alloc.{used, busy, OffMap, balloc_lem}
use fast_ipc.Fs.Inode.{
  ilock, get_dinode, itrunc, free_direct, Inode, ndirect, maxfile, bmap, bmap_indirect, iupdate,
}
use fast_ipc.Fs.Inode.Disk.{on_disk, iupdate_lem}
use fast_ipc.Fs.Inode.Map.{address, IsFile}
use fast_ipc.Fs.Inode.New.{Mapped}
use fast_ipc.Fs.Inode.Bmap.{bmap_lem}
use fast_ipc.Fs.Content.{readi, bytes_from, writei, write_from}
use fast_ipc.Fs.Content.Reads.{content, Present, readi_lem}
use fast_ipc.Fs.Content.Writes.{Written, writei_lem}
use fast_ipc.File.Counts.{count}
use fast_ipc.Fs.Icache.Dropped.{iput_lem}
use fast_ipc.Fs.Icache.Locks.{iunlock-ilock}
use fast_ipc.Fs.Icache.{
  iput, ilock_at, iunlock, free_inode, Store, no_inode, inode_at, iget, is_entry,
}
use fast_ipc.Fs.Icache.Held.{IsTable, Got, iget_lem}
use fast_ipc.Fs.Dir.{dirlookup, dirent_inum, dirent_size}
use fast_ipc.Fs.Dir.Lookup.{IsDir, entry_at, matches, dirlookup_lem}
use fast_ipc.Fs.Path.{skipelem, starts_at_root}
use fast_ipc.Fs.Path.Elements.{elements, skipelem_lem}

abbrev sample : Fs
sample = record {
  sb = record { size = 8; ninodes = 16; inodestart = 2; bmapstart = 1 };
  blocks = λ b x. if b == 1 then (if x == 0 then 127 else 0) else if b == 3 then x % 256 else 0;
  logged = [];
}

abbrev file : Inode
file = record {
  dev = 1;
  inum = 1;
  ref = 1;
  valid = true;
  type = 2;
  major = 0;
  minor = 0;
  nlink = 1;
  size = 1022;
  locked = false;
  addrs = 3 ∷ 0 ∷ 0 ∷ 0 ∷ 0 ∷ 0 ∷ 0 ∷ 0 ∷ 0 ∷ 0 ∷ 0 ∷ 0 ∷ 0 ∷ [];
}

sample-used : (n : ℕ) → n < 7 → used sample n ≡ true
unfolding has_bit
sample-used zero lt = refl
sample-used (suc zero) lt = refl
sample-used (suc (suc zero)) lt = refl
sample-used (suc (suc (suc zero))) lt = refl
sample-used (suc (suc (suc (suc zero)))) lt = refl
sample-used (suc (suc (suc (suc (suc zero))))) lt = refl
sample-used (suc (suc (suc (suc (suc (suc zero)))))) lt = refl
sample-used (suc (suc (suc (suc (suc (suc (suc n))))))) lt = absurd (omega arith)

sample-free : (n : ℕ) → busy sample n ≡ false → n ≡ 7
sample-free n e = ground (arith, sample-used n)

no_entry : (k : ℕ) → ◌≡◌ {A = ℕ} (get_or (0 ∷ 0 ∷ 0 ∷ 0 ∷ 0 ∷ 0 ∷ 0 ∷ 0 ∷ 0 ∷ 0 ∷ 0 ∷ 0 ∷ []) k 0) 0
no_entry zero = refl
no_entry (suc zero) = refl
no_entry (suc (suc zero)) = refl
no_entry (suc (suc (suc zero))) = refl
no_entry (suc (suc (suc (suc zero)))) = refl
no_entry (suc (suc (suc (suc (suc zero))))) = refl
no_entry (suc (suc (suc (suc (suc (suc zero)))))) = refl
no_entry (suc (suc (suc (suc (suc (suc (suc zero))))))) = refl
no_entry (suc (suc (suc (suc (suc (suc (suc (suc zero)))))))) = refl
no_entry (suc (suc (suc (suc (suc (suc (suc (suc (suc zero))))))))) = refl
no_entry (suc (suc (suc (suc (suc (suc (suc (suc (suc (suc zero)))))))))) = refl
no_entry (suc (suc (suc (suc (suc (suc (suc (suc (suc (suc (suc zero))))))))))) = refl
no_entry (suc (suc (suc (suc (suc (suc (suc (suc (suc (suc (suc (suc k)))))))))))) = refl

one_block : (k : ℕ) → (k ≡ 0) × (address sample file k ≡ 3) ⊎ (address sample file k ≡ 0)
one_block zero = inl (refl, refl)
one_block (suc k) =
    inr (elim (Bool-cases (ltb (suc k) ndirect)) [
      | inl low ↦ rw low (no_entry k)
      | inr high ↦ rw high
    ])

off_sample : (n : ℕ) → n ≢ 1 → OffMap sample n
off_sample n ne j lt = λ e. ne (omega arith)

file-IsFile : IsFile sample file
unfolding has_bit
file-IsFile = record {
  count = refl;
  free = λ n e. (
    ground (arith, sample-free n),
    ground (arith, sample-free n),
    off_sample n (ground (arith, sample-free n)),
  );
  in_use = λ k lt ne. rw (three k ne);
  off_map = λ k lt ne. rw (three k ne) (off_sample 3 (omega arith));
  apart = λ j k lj lk ne e. ground (arith, one_block j, one_block k);
  indirect_used = λ ne. absurd (ne refl);
  indirect_apart = λ k lt ne. ne;
  inode_used = (refl, off_sample 2 (omega arith));
  inode_apart = λ k lt ne. ground (arith, three k ne);
  inode_indirect = λ ne. absurd (ne refl);
}
  where
    three : (k : ℕ) → address sample file k ≢ 0 → address sample file k ≡ 3
    three k ne = ground (arith, one_block k)

balloc_lem_example :
    ((n : ℕ) × (f' : Fs) × (balloc sample ≡ ok (n, f'))
      × (n < 8)
      × (used sample n ≡ false)
      × ((j : ℕ) → j < n → used sample j ≡ true)
      × (OffMap sample n
          → ((j : ℕ) → j < 8 → used f' j ≡ (if j == n then true else used sample j))
            × ((x : ℕ) → x < bsize → f'.blocks n x ≡ 0)
            × ((b : ℕ) → b ≢ n → b ≢ bblock sample n → f'.blocks b ≡ sample.blocks b)))
    ⊎ ((balloc sample ≡ panic) × ((j : ℕ) → j < 8 → used sample j ≡ true))
balloc_lem_example = balloc_lem sample

-- What a run that ends well comes to.
abbrev value_or {ℓ} : {X : Type ℓ} → X → Outcome X → X
value_or d (ok x) = x
value_or d panic = d
value_or d fault = d

abbrev allocated : ℕ × Fs
allocated = value_or (0, sample) (balloc sample)

allocates : balloc sample ≡ ok (7, allocated.1)
unfolding balloc balloc_from free_bit has_bit bzero
allocates = refl

iupdate_lem_example :
    (on_disk (iupdate sample file) 1 file ≡ file)
    × ((j : ℕ) → j ≢ 1 → on_disk (iupdate sample file) j file ≡ on_disk sample j file)
iupdate_lem_example = iupdate_lem sample file file (record {
  type_fits = omega arith;
  major_fits = omega arith;
  minor_fits = omega arith;
  nlink_fits = omega arith;
  size_fits = omega arith;
  addrs_fit = (
    omega arith,
    (
      omega arith,
      (
        omega arith,
        (
          omega arith,
          (
            omega arith,
            (
              omega arith,
              (
                omega arith,
                (
                  omega arith,
                  (omega arith, (omega arith, (omega arith, (omega arith, (omega arith, tt))))),
                ),
              ),
            ),
          ),
        ),
      ),
    ),
  );
  addrs_count = refl;
})

abbrev mapped : ℕ × Inode × Fs
mapped = value_or (0, file, sample) (bmap sample file 1)

maps : bmap sample file 1 ≡ ok mapped
unfolding bmap balloc balloc_from free_bit has_bit bzero
maps = refl

-- The second block of the file is new.
bmap_lem_example : (1 < maxfile) × Mapped sample file 1 mapped.0 mapped.2 mapped.1
bmap_lem_example = bmap_lem sample file 1 mapped.0 mapped.1 mapped.2 file-IsFile maps

-- Only two bytes are left at 1020.
readi_lem_example :
    readi sample file (λ k. true) 1020 10
    ≡ ok (some 2, bytes_from (content sample file) 1020 2, file, sample)
readi_lem_example =
    readi_lem sample file (λ k. true) 1020 10 whole (λ k. refl) (omega arith) (omega arith)
      (omega arith)
  where
    whole : Present sample file 1022
    whole bn lt =
        let q : 0 ≡ bn = omega arith in
        subst (λ b. (b < maxfile) × (address sample file b ≢ 0)) q (omega arith, λ e. cc)

abbrev all : ℕ → ℕ
all k = bsize

abbrev grown : Option ℕ × Inode × Fs
grown = value_or (none, file, sample) (writei sample file (λ k. k + 65) all 1022 4)

-- The last two of four bytes go to a new block.
grows : writei sample file (λ k. k + 65) all 1022 4 ≡ ok (some 4, grown.1, grown.2)
unfolding writei write_from bmap bmap_indirect balloc balloc_from free_bit has_bit bzero iupdate
grows = refl

writei_lem_example :
    (writei sample file (λ k. k + 65) all 1022 4 ≡ panic)
    ⊎ ((ip' : Inode) × (f' : Fs) × (writei sample file (λ k. k + 65) all 1022 4
          ≡ ok (some 4, ip', f'))
        × Written sample file (λ k. k + 65) 1022 4 ip' f')
writei_lem_example =
    writei_lem sample file (λ k. k + 65) all 1022 4 file-IsFile (omega arith) (omega arith)
      (λ k. omega arith)

-- "a//b"
skipelem_lem_example :
    ((skipelem (97 ∷ 47 ∷ 47 ∷ 98 ∷ []) ≡ none) × (elements (97 ∷ 47 ∷ 47 ∷ 98 ∷ []) ≡ []))
    ⊎ ((w : List ℕ) × (rest : List ℕ) × (skipelem (97 ∷ 47 ∷ 47 ∷ 98 ∷ []) ≡ some (take 14 w, rest))
        × (elements (97 ∷ 47 ∷ 47 ∷ 98 ∷ []) ≡ w ∷ elements rest)
        × (w ≢ [])
        × (length rest < 4)
        × (starts_at_root rest ≡ false))
skipelem_lem_example = skipelem_lem (97 ∷ 47 ∷ 47 ∷ 98 ∷ [])

-- Block 3 of a directory has two entries: one of no inode, and inode 5 with the name "a".
abbrev dir_block : Mem
dir_block x = if x == 16 then 5 else if x == 18 then 97 else 0

abbrev dir_disk : Fs
dir_disk = record sample { blocks = λ b x. if b == 3 then dir_block x else sample.blocks b x }

abbrev dir : Inode
dir = record file { type = 1; size = 32 }

abbrev store : Store
store = record { inodes = dir ∷ no_inode ∷ []; fs = dir_disk }

dir-IsDir : IsDir dir_disk dir 2
dir-IsDir = record {
  kind = refl;
  whole = refl;
  present = λ bn lt.
      let q : 0 ≡ bn = omega arith in
      subst (λ b. (b < maxfile) × (address dir_disk dir b ≢ 0)) q (omega arith, λ e. cc);
  small = omega arith;
}

dirlookup_lem_example :
    ((dirlookup store 0 (97 ∷ []) ≡ ok (none, store))
      × ((k : ℕ) → k < 2 → matches (97 ∷ []) (entry_at dir_disk dir k) ≡ false))
    ⊎ ((k : ℕ) × (k < 2)
        × (matches (97 ∷ []) (entry_at dir_disk dir k) ≡ true)
        × ((j : ℕ) → j < k → matches (97 ∷ []) (entry_at dir_disk dir j) ≡ false)
        × (dirlookup store 0 (97 ∷ []) ≡ (
            iget store.inodes 1 (dirent_inum (entry_at dir_disk dir k)) >>= λ q.
            ok (some (q.0, dirent_size * k), record store { inodes = q.1 }))))
dirlookup_lem_example = dirlookup_lem store 0 2 (97 ∷ []) dir-IsDir

one_inode : IsTable (file ∷ no_inode ∷ []) (0 ∷ [])
one_inode = record { refs = at; few = omega arith; apart = λ i j hi hj ed ei. ground arith }
  where
    at : (i : ℕ) → (inode_at (file ∷ no_inode ∷ []) i).ref ≡ count i (0 ∷ [])
    at zero = refl
    at (suc zero) = refl
    at (suc (suc i)) = ground arith

iget_lem_example :
    ((i : ℕ) × (l : List Inode) × (iget (file ∷ no_inode ∷ []) 1 5 ≡ ok (i, l))
      × Got (file ∷ no_inode ∷ []) (0 ∷ []) 1 5 i l)
    ⊎ ((iget (file ∷ no_inode ∷ []) 1 5 ≡ panic)
        × ((j : ℕ)
            → j < 2
            → (is_entry 1 5 (inode_at (file ∷ no_inode ∷ []) j) ≡ false) × (0 < count j (0 ∷ []))))
iget_lem_example = iget_lem (file ∷ no_inode ∷ []) (0 ∷ []) 1 5 one_inode (omega arith)

-- The file has no links, and its only reference is put.
abbrev unlinked : Store
unlinked = record { inodes = record file { nlink = 0 } ∷ no_inode ∷ []; fs = sample }

abbrev after_put : Store
after_put = value_or unlinked (iput unlinked 0)

puts : iput unlinked 0 ≡ ok after_put
unfolding iput free_inode itrunc free_direct bfree has_bit without_bit iupdate
puts = refl

one_unlinked : IsTable unlinked.inodes (0 ∷ [])
one_unlinked = record { refs = at; few = omega arith; apart = λ i j hi hj ed ei. ground arith }
  where
    at : (i : ℕ) → (inode_at unlinked.inodes i).ref ≡ count i (0 ∷ [])
    at zero = refl
    at (suc zero) = refl
    at (suc (suc i)) = ground arith

iput_lem_example :
    IsTable after_put.inodes []
    × (((inode_at after_put.inodes 0).valid ≡ false) × ((inode_at after_put.inodes 0).type ≡ 0))
iput_lem_example = iput_lem unlinked after_put [] 0 one_unlinked puts

-- An entry whose inode is not loaded yet, and the inode on disk, a directory.
abbrev unloaded : Store
unloaded = record {
  inodes = record dir { valid = false } ∷ no_inode ∷ [];
  fs = record dir_disk { blocks = λ b x. if b == 2 && x == 64 then 1 else dir_disk.blocks b x };
}

abbrev lock_and_load : Store
lock_and_load = value_or unloaded (ilock_at unloaded 0)

locks : ilock_at unloaded 0 ≡ ok lock_and_load
unfolding ilock_at ilock get_dinode load_le
locks = refl

iunlock-ilock_example :
    ((inode_at unloaded.inodes 0).locked ≡ false)
    × ((inode_at lock_and_load.inodes 0).valid ≡ true)
    × (ilock_at lock_and_load 0 ≡ fault)
    × ((s'' : Store) × (iunlock lock_and_load 0 ≡ ok s'')
        × (iunlock s'' 0 ≡ panic)
        × (s''.fs ≡ unloaded.fs)
        × (inode_at s''.inodes 0 ≡ record (inode_at lock_and_load.inodes 0) { locked = false })
        × ((j : ℕ) → j ≢ 0 → inode_at s''.inodes j ≡ inode_at unloaded.inodes j))
iunlock-ilock_example = iunlock-ilock unloaded 0 (omega arith) (omega arith) locks
