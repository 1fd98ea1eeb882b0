-- ===== src/Fs/Dir/Lookup.antt =====
-- `dirlookup` against the entries that the bytes of a directory stand for.
use fast_ipc.Base.{
  ℕ, zero, suc, ◌+◌, ◌-◌, ◌*◌, ◌/◌, ◌^◌, ◌<◌, ◌≤◌, ◌≡◌, ◌⊎◌, inl, inr, refl, ◌∙◌, arith, List,
  Option, none, some, Bool, true, false, not, ◌==◌, ◌&&◌, ltb, leb, if◌then◌else◌, Bool-cases, ok,
  ◌>>=◌, set-get_or,
}
use fast_ipc.Fs.{Fs}
use fast_ipc.Fs.Inode.{Inode}
use fast_ipc.Fs.Content.{bytes_from}
use fast_ipc.Fs.Content.Reads.{content, Present, readi_lem}
use fast_ipc.Fs.Icache.{Store, inode_at, iget, no_inode}
use fast_ipc.Fs.Dir.{
  dirent_size, t_dir, same_name, dirent_inum, dirent_name, read_dirent, lookup_from, dirlookup,
}

-- Entry `k` of a directory.

abbrev pub entry_at : Fs → Inode → (k : ℕ) → List ℕ
entry_at f dp k = bytes_from (content f dp) (dirent_size * k) dirent_size

-- An entry in use that has the name.
abbrev pub matches : (name de : List ℕ) → Bool
matches name de = not (dirent_inum de == 0) && same_name name (dirent_name de)

-- A directory of `count` entries, all of whose blocks are there.
pub record IsDir (f : Fs) (dp : Inode) (count : ℕ) : Type 0 where
  pub kind : dp.type ≡ t_dir
  pub whole : dp.size ≡ dirent_size * count
  pub present : Present f dp dp.size
  pub small : dp.size < 2 ^ 31

read_dirent_lem :
    (f : Fs) (dp : Inode) (count k : ℕ)
    → IsDir f dp count
    → k < count
    → read_dirent f dp (dirent_size * k) ≡ ok (entry_at f dp k, dp, f)
unfolding read_dirent
read_dirent_lem f dp count k d lt =
    let inside : ltb (dp.size - dirent_size * k) dirent_size ≡ false = ground (arith, d.whole) in
    let read =
      readi_lem f dp (λ j. true) (dirent_size * k) dirent_size d.present (λ j. refl)
        (omega (arith, d.small)) (omega (arith, d.small, d.whole))
        (omega (arith, d.small, d.whole)) in
    rw (rw inside at read)

-- The first entry from `k` on that matches, if any.
Found : Fs → Inode → (count k : ℕ) → (name : List ℕ) → Option (ℕ × ℕ) → Type 0
Found f dp count k name none = (j : ℕ) → k ≤ j → j < count → matches name (entry_at f dp j) ≡ false
Found f dp count k name (some e) =
    (m : ℕ) × (k ≤ m)
    × (m < count)
    × (matches name (entry_at f dp m) ≡ true)
    × ((j : ℕ) → k ≤ j → j < m → matches name (entry_at f dp j) ≡ false)
    × (e ≡ (dirent_inum (entry_at f dp m), dirent_size * m))

Found-later :
    (f : Fs) (dp : Inode) (count k : ℕ) (name : List ℕ) (o : Option (ℕ × ℕ))
    → matches name (entry_at f dp k) ≡ false
    → Found f dp count (k + 1) name o
    → Found f dp count k name o
unfolding Found
Found-later f dp count k name none here h = λ j le lt. elim (Bool-cases (j == k)) [
  | inl e ↦ (let q : k ≡ j = ground arith in rw q at here)
  | inr e ↦ h j (ground arith) lt
]
Found-later f dp count k name (some e) here (m, le, lt, yes_m, before, q) = (
  m,
  omega arith,
  lt,
  yes_m,
  λ j l1 l2. elim (Bool-cases (j == k)) [
    | inl e ↦ (let q : k ≡ j = ground arith in rw q at here)
    | inr e ↦ before j (ground arith) l2
  ],
  q,
)

-- What the loop does at an entry that is there.
lookup_from-at :
    (fuel count k : ℕ) (name : List ℕ) (dp : Inode) (f : Fs)
    → IsDir f dp count
    → k < count
    → lookup_from (suc fuel) (dirent_size * k) name dp f ≡ (
        if matches name (entry_at f dp k)
        then ok (some (dirent_inum (entry_at f dp k), dirent_size * k), dp, f)
        else lookup_from fuel (dirent_size * (k + 1)) name dp f)
unfolding lookup_from
lookup_from-at fuel count k name dp f d lt =
    let more : ltb (dirent_size * k) dp.size ≡ true = ground (arith, d.whole) in
    let de = entry_at f dp k in
    let next : dirent_size * k + dirent_size ≡ dirent_size * (k + 1) = omega arith in
    rw (more, read_dirent_lem f dp count k d lt, next)
      (elim (Bool-cases (dirent_inum de == 0)) [
        | inl e ↦ rw e
        | inr e ↦ elim (Bool-cases (same_name name (dirent_name de))) [
          | inl q ↦ rw (e, q)
          | inr q ↦ rw (e, q)
        ]
      ])

lookup_from-end :
    (fuel count k : ℕ) (name : List ℕ) (dp : Inode) (f : Fs)
    → IsDir f dp count
    → count ≤ k
    → lookup_from (suc fuel) (dirent_size * k) name dp f ≡ ok (none, dp, f)
unfolding lookup_from
lookup_from-end fuel count k name dp f d le =
    let done : ltb (dirent_size * k) dp.size ≡ false = ground (arith, d.whole) in rw done

lookup_from_lem :
    (fuel count k : ℕ) (name : List ℕ) (dp : Inode) (f : Fs)
    → IsDir f dp count
    → count ≤ k + fuel
    → (o : Option (ℕ × ℕ)) × (lookup_from (suc fuel) (dirent_size * k) name dp f ≡ ok (o, dp, f))
      × Found f dp count k name o
unfolding Found
lookup_from_lem zero count k name dp f d enough =
    (none, lookup_from-end zero count k name dp f d (omega arith), λ j le lt. absurd (omega arith))
lookup_from_lem (suc fuel) count k name dp f d enough = elim (Bool-cases (leb count k)) [
  | inl past ↦ (
    none,
    lookup_from-end (suc fuel) count k name dp f d (ground arith),
    λ j le lt. absurd (ground arith),
  )
  | inr inside ↦
      (let lt : k < count = ground arith in
        let step = lookup_from-at (suc fuel) count k name dp f d lt in
        elim (Bool-cases (matches name (entry_at f dp k))) [
          | inl here ↦ (
            some (dirent_inum (entry_at f dp k), dirent_size * k),
            rw here at step,
            (k, omega arith, lt, here, λ j l1 l2. absurd (omega arith), refl),
          )
          | inr other ↦
              (let (o, run, found) = lookup_from_lem fuel count (k + 1) name dp f d (omega arith) in
                (o, (rw other at step) ∙ run, Found-later f dp count k name o other found))
        ])
]

dirlookup-found :
    (s : Store) (i : ℕ) (name : List ℕ) (o : Option (ℕ × ℕ))
    → let dp = inode_at s.inodes i in
      dp.type ≡ t_dir
      → lookup_from (suc (dp.size / dirent_size + 1)) 0 name dp s.fs ≡ ok (o, dp, s.fs)
      → dirlookup s i name ≡ elim o [
        | none ↦ ok (none, s)
        | some e ↦
            (iget s.inodes dp.dev e.0 >>= λ q. ok (some (q.0, e.1), record s { inodes = q.1 }))
      ]
unfolding dirlookup
dirlookup-found s i name none kind run =
    let is_dir : ((inode_at s.inodes i).type == t_dir) ≡ true = ground arith in
    rw (is_dir, run) (λ t. ok (none, record s { inodes = set-get_or s.inodes i no_inode t }))
dirlookup-found s i name (some e) kind run =
    let is_dir : ((inode_at s.inodes i).type == t_dir) ≡ true = ground arith in
    rw (is_dir, run)
      (λ t. iget (set-get_or s.inodes i no_inode t) (inode_at s.inodes i).dev e.0 >>= λ q.
        ok (some (q.0, e.1), record s { inodes = q.1 }))

-- `dirlookup` of a directory whose blocks are all there finds the first entry in use that has the
-- name, and gets the inode that the entry names; where there is none it returns 0. Neither the
-- directory nor the disk is changed.
pub dirlookup_lem :
    (s : Store) (i count : ℕ) (name : List ℕ)
    → IsDir s.fs (inode_at s.inodes i) count
    → let dp = inode_at s.inodes i in
      ((dirlookup s i name ≡ ok (none, s))
        × ((k : ℕ) → k < count → matches name (entry_at s.fs dp k) ≡ false))
      ⊎ ((k : ℕ) × (k < count)
          × (matches name (entry_at s.fs dp k) ≡ true)
          × ((j : ℕ) → j < k → matches name (entry_at s.fs dp j) ≡ false)
          × (dirlookup s i name ≡ (
              iget s.inodes dp.dev (dirent_inum (entry_at s.fs dp k)) >>= λ q.
              ok (some (q.0, dirent_size * k), record s { inodes = q.1 }))))
unfolding Found
dirlookup_lem s i count name d =
    let dp = inode_at s.inodes i in
    let (o, run, found) =
      lookup_from_lem (dp.size / dirent_size + 1) count 0 name dp s.fs d (omega (arith, d.whole)) in
    split o (dirlookup-found s i name o d.kind run) found
  where
    split :
        (o : Option (ℕ × ℕ))
        → (dirlookup s i name ≡ elim o [
          | none ↦ ok (none, s)
          | some e ↦
              (iget s.inodes (inode_at s.inodes i).dev e.0 >>= λ q.
              ok (some (q.0, e.1), record s { inodes = q.1 }))
        ])
        → Found s.fs (inode_at s.inodes i) count 0 name o
        → ((dirlookup s i name ≡ ok (none, s))
            × ((k : ℕ) → k < count → matches name (entry_at s.fs (inode_at s.inodes i) k) ≡ false))
          ⊎ ((k : ℕ) × (k < count)
              × (matches name (entry_at s.fs (inode_at s.inodes i) k) ≡ true)
              × ((j : ℕ) → j < k → matches name (entry_at s.fs (inode_at s.inodes i) j) ≡ false)
              × (dirlookup s i name ≡ (
                  iget s.inodes
                    (inode_at s.inodes i).dev
                    (dirent_inum (entry_at s.fs (inode_at s.inodes i) k))
                  >>= λ q. ok (some (q.0, dirent_size * k), record s { inodes = q.1 }))))
    split none run h = inl (run, λ k lt. h k (omega arith) lt)
    split (some e) run (m, le, lt, yes_m, before, q) = inr (
      m,
      lt,
      yes_m,
      λ j l. before j (omega arith) l,
      run ∙ (λ t. iget s.inodes (inode_at s.inodes i).dev (q t).0 >>= λ r.
          ok (some (r.0, (q t).1), record s { inodes = r.1 })),
    )
