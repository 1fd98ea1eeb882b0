-- ===== src/Fs/Alloc.antt =====
-- `balloc` and `bfree` against the set of the blocks in use.
use fast_ipc.Base.{
  ℕ, zero, suc, ◌+◌, ◌-◌, ◌*◌, ◌/◌, ◌%◌, ◌<◌, ◌≤◌, ◌≡◌, ◌≢◌, ◌⊎◌, inl, inr, refl, sym, ap, ◌∙◌,
  arith, none, some, Bool, true, false, ltb, leb, ◌==◌, if◌then◌else◌, Outcome, ok, panic, fault,
  Bool-cases, Option-cases,
}
use fast_ipc.Memory.{Mem}
use fast_ipc.Memory.Moves.{memset_lem}
use fast_ipc.Fs.Bits.{has_bit, has_bit-with_bit, has_bit-without_bit}
use fast_ipc.Fs.{
  Fs, bsize, bits_per_block, put_block, bzero, bblock, free_bit, mark, unmark, balloc_from, balloc,
  bfree,
}

-- The bit of block `n` in the map.

abbrev pub used : Fs → ℕ → Bool
used f n = has_bit (f.blocks (bblock f n) (n % bits_per_block / 8)) (n % 8)

-- A block past the end counts as in use.
abbrev pub busy : Fs → ℕ → Bool
busy f n = if ltb n f.sb.size then used f n else true

-- No block of the map is `n`.
abbrev pub OffMap : Fs → ℕ → Type 0
OffMap f n = (j : ℕ) → j < f.sb.size → bblock f j ≢ n

free_bit-some :
    (left b bi size : ℕ) (m : Mem) (r : ℕ)
    → free_bit left b bi size m ≡ some r
    → (bi ≤ r)
      × (r < bi + left)
      × (b + r < size)
      × (has_bit (m (r / 8)) (r % 8) ≡ false)
      × ((j : ℕ) → bi ≤ j → j < r → has_bit (m (j / 8)) (j % 8) ≡ true)
unfolding free_bit
free_bit-some zero b bi size m r e = absurd (cc)
free_bit-some (suc left) b bi size m r e = elim (Bool-cases (leb size (b + bi))) [
  | inl over ↦ absurd (ground (arith, e))
  | inr inside ↦ elim (Bool-cases (has_bit (m (bi / 8)) (bi % 8))) [
    | inr free ↦
        (let same : bi ≡ r = ground (arith, e, inside, free) in
          (
            omega arith,
            omega arith,
            ground arith,
            rw same at free,
            λ j lo hi. absurd (omega arith),
          ))
    | inl taken ↦
        (let (lo, hi, lt, free, rest) =
            free_bit-some left b (bi + 1) size m r (rw (inside, taken) at e) in
          (
            omega arith,
            omega arith,
            lt,
            free,
            λ j from to. elim (Bool-cases (j == bi)) [
              | inl here ↦ (let q : j ≡ bi = ground arith in rw q taken)
              | inr there ↦ rest j (ground arith) to
            ],
          ))
  ]
]

free_bit-none :
    (left b bi size : ℕ) (m : Mem)
    → free_bit left b bi size m ≡ none
    → (j : ℕ) → bi ≤ j
    → j < bi + left
    → b + j < size
    → has_bit (m (j / 8)) (j % 8) ≡ true
unfolding free_bit
free_bit-none zero b bi size m e j lo hi lt = absurd (omega arith)
free_bit-none (suc left) b bi size m e j lo hi lt = elim (Bool-cases (j == bi)) [
  | inl here ↦ (let q : j ≡ bi = ground arith in rw q (ground (arith, e)))
  | inr there ↦
      free_bit-none left b (bi + 1) size m (ground (arith, e)) j (ground arith) (omega arith) lt
]

-- Marking block `n` in the map marks it and no other.
used-mark :
    (f : Fs) (n j : ℕ)
    → used (put_block f (bblock f n) (mark (f.blocks (bblock f n)) (n % bits_per_block))) j
      ≡ (if j == n then true else used f j)
used-mark f n j = ground (
  arith,
  has_bit-with_bit (f.blocks (bblock f n) (n % bits_per_block / 8)) (n % bits_per_block % 8)
      (j % 8),
)

used-unmark :
    (f : Fs) (n j : ℕ)
    → used (put_block f (bblock f n) (unmark (f.blocks (bblock f n)) (n % bits_per_block))) j
      ≡ (if j == n then false else used f j)
used-unmark f n j = ground (
  arith,
  has_bit-without_bit (f.blocks (bblock f n) (n % bits_per_block / 8)) (n % bits_per_block % 8)
      (j % 8),
)

-- What `balloc` makes of a file system where it takes block `n`.
abbrev pub taken : Fs → ℕ → Fs
taken f n = bzero (put_block f (bblock f n) (mark (f.blocks (bblock f n)) (n % bits_per_block))) n

-- How a run of the outer loop ends.
abbrev Ends : Fs → Outcome (ℕ × Fs) → Type 0
Ends f (ok (n, f')) =
    (n < f.sb.size) × (used f n ≡ false) × ((j : ℕ) → j < n → used f j ≡ true) × (f' ≡ taken f n)
Ends f panic = (j : ℕ) → j < f.sb.size → used f j ≡ true
Ends f fault = ⊥

block_full :
    (b : ℕ) (f : Fs) (k : ℕ)
    → b % bits_per_block ≡ 0
    → ((j : ℕ) → j < k → b + j < f.sb.size → has_bit (f.blocks (bblock f b) (j / 8)) (j % 8) ≡ true)
    → k ≤ bits_per_block
    → ((j : ℕ) → j < b → j < f.sb.size → used f j ≡ true)
    → (j : ℕ) → j < b + k
    → j < f.sb.size
    → used f j ≡ true
block_full b f k al bits le before j lt inside = elim (Bool-cases (ltb j b)) [
  | inl low ↦ before j (ground arith) inside
  | inr high ↦
      (let at : bblock f j ≡ bblock f b = ground arith in
        let byte : j % bits_per_block / 8 ≡ (j - b) / 8 = ground arith in
        let bit : j % 8 ≡ (j - b) % 8 = ground arith in
        rw (at, byte, bit) (bits (j - b) (ground arith) (ground arith)))
]

-- A free bit found in the part of the map that begins with block `b`.
found_here :
    (b bi : ℕ) (f : Fs)
    → b % bits_per_block ≡ 0
    → ((j : ℕ) → j < b → j < f.sb.size → used f j ≡ true)
    → free_bit bits_per_block b 0 f.sb.size (f.blocks (bblock f b)) ≡ some bi
    → Ends f
        (ok (b + bi, bzero (put_block f (bblock f b) (mark (f.blocks (bblock f b)) bi)) (b + bi)))
found_here b bi f al before found =
    let (lo, hi, lt, free, full) =
      free_bit-some bits_per_block b 0 f.sb.size (f.blocks (bblock f b)) bi found in
    let at : bblock f (b + bi) ≡ bblock f b = ground arith in
    let place : (b + bi) % bits_per_block ≡ bi = omega arith in
    let bit : (b + bi) % 8 ≡ bi % 8 = omega arith in
    (
      lt,
      rw (at, place, bit) free,
      (λ j less.
          block_full b f bi al (λ i l q. full i (omega arith) l) (omega arith) before j less
            (omega arith)),
      rw (at, place) refl,
    )

balloc_from-Ends :
    (fuel b : ℕ) (f : Fs)
    → b % bits_per_block ≡ 0
    → f.sb.size < b + fuel * bits_per_block
    → ((j : ℕ) → j < b → j < f.sb.size → used f j ≡ true)
    → Ends f (balloc_from (suc fuel) b f)
unfolding balloc_from
balloc_from-Ends zero b f al enough before =
    let past : ltb b f.sb.size ≡ false = ground arith in rw past (λ j lt. before j (omega arith) lt)
balloc_from-Ends (suc fuel) b f al enough before = elim (Bool-cases (ltb b f.sb.size)) [
  | inr past ↦ rw past (λ j lt. before j (ground arith) lt)
  | inl inside ↦
      elim (Option-cases (free_bit bits_per_block b 0 f.sb.size (f.blocks (bblock f b)))) [
        | inr (bi, found) ↦ rw (inside, found) (found_here b bi f al before found)
        | inl full ↦
            rw (inside, full)
              (balloc_from-Ends fuel (b + bits_per_block) f (omega arith) (omega arith)
                (λ j less lt.
                  block_full b f bits_per_block al
                    (λ i l q.
                      free_bit-none bits_per_block b 0 f.sb.size (f.blocks (bblock f b)) full i
                        (omega arith) (omega arith) q)
                    (omega arith) before j less lt))
      ]
]

-- `balloc` returns the first block that is not in use, or panics where every block is; it never
-- looks further than the map.
balloc-Ends : (f : Fs) → Ends f (balloc f)
unfolding balloc
balloc-Ends f =
    balloc_from-Ends (f.sb.size / bits_per_block + 1) 0 f (omega arith) (omega arith)
      (λ j lt. absurd (omega arith))

-- In the new state the block is marked, and no other one, and its bytes are 0.
pub taken_lem :
    (f : Fs) (n : ℕ)
    → OffMap f n
    → ((j : ℕ) → j < f.sb.size → used (taken f n) j ≡ (if j == n then true else used f j))
      × ((x : ℕ) → x < bsize → (taken f n).blocks n x ≡ 0)
      × ((b : ℕ) → b ≢ n → b ≢ bblock f n → (taken f n).blocks b ≡ f.blocks b)
unfolding bzero
taken_lem f n off = (
  λ j lt. ground (arith, used-mark f n j, off j lt),
  λ x lt. ground (
    arith,
    memset_lem
        ((put_block f (bblock f n) (mark (f.blocks (bblock f n)) (n % bits_per_block))).blocks n) 0
        0 bsize x,
  ),
  λ b ne no. ground arith,
)

-- `balloc` takes the first block that is not in use, and panics exactly where there is none. Where
-- the block is none of the map's own, it is then marked and no other block is, its bytes are 0, and
-- no block but it and the one of the map that holds its bit is changed.
pub balloc_lem :
    (f : Fs)
    → ((n : ℕ) × (f' : Fs) × (balloc f ≡ ok (n, f'))
        × (n < f.sb.size)
        × (used f n ≡ false)
        × ((j : ℕ) → j < n → used f j ≡ true)
        × (OffMap f n
            → ((j : ℕ) → j < f.sb.size → used f' j ≡ (if j == n then true else used f j))
              × ((x : ℕ) → x < bsize → f'.blocks n x ≡ 0)
              × ((b : ℕ) → b ≢ n → b ≢ bblock f n → f'.blocks b ≡ f.blocks b)))
      ⊎ ((balloc f ≡ panic) × ((j : ℕ) → j < f.sb.size → used f j ≡ true))
balloc_lem f = split (balloc f) refl (balloc-Ends f)
  where
    split :
        (r : Outcome (ℕ × Fs))
        → balloc f ≡ r
        → Ends f r
        → ((n : ℕ) × (f' : Fs) × (balloc f ≡ ok (n, f'))
            × (n < f.sb.size)
            × (used f n ≡ false)
            × ((j : ℕ) → j < n → used f j ≡ true)
            × (OffMap f n
                → ((j : ℕ) → j < f.sb.size → used f' j ≡ (if j == n then true else used f j))
                  × ((x : ℕ) → x < bsize → f'.blocks n x ≡ 0)
                  × ((b : ℕ) → b ≢ n → b ≢ bblock f n → f'.blocks b ≡ f.blocks b)))
          ⊎ ((balloc f ≡ panic) × ((j : ℕ) → j < f.sb.size → used f j ≡ true))
    split (ok (n, f')) e (lt, free, first, made) =
        inl (n, f', e, lt, free, first, λ off. rw made (taken_lem f n off))
    split panic e full = inr (e, full)
    split fault e h = absurd h

-- `bfree` of a block in use clears its mark and no other, and changes only the block of the map that
-- holds it; of any other block it panics.
pub bfree_lem :
    (f : Fs) (b : ℕ)
    → (used f b ≡ true
        → (f' : Fs) × (bfree f b ≡ ok f')
          × ((j : ℕ) → used f' j ≡ (if j == b then false else used f j))
          × ((n : ℕ) → n ≢ bblock f b → f'.blocks n ≡ f.blocks n))
      × (used f b ≡ false → bfree f b ≡ panic)
unfolding bfree
bfree_lem f b = (
  λ u. (
    put_block f (bblock f b) (unmark (f.blocks (bblock f b)) (b % bits_per_block)),
    rw (sym bit ∙ u),
    used-unmark f b,
    λ n ne. ground arith,
  ),
  λ u. rw (sym bit ∙ u),
)
  where
    bit :
        has_bit (f.blocks (bblock f b) (b % bits_per_block / 8)) (b % 8)
        ≡ has_bit (f.blocks (bblock f b) (b % bits_per_block / 8)) (b % bits_per_block % 8)
    bit = ap (λ k. has_bit (f.blocks (bblock f b) (b % bits_per_block / 8)) k) (omega arith)

-- A block that `balloc` gave can be freed, and then the same blocks are in use as before.
pub bfree-balloc :
    (f : Fs) (n : ℕ) {f' : Fs}
    → balloc f ≡ ok (n, f')
    → OffMap f n
    → (f'' : Fs) × (bfree f' n ≡ ok f'') × ((j : ℕ) → j < f.sb.size → used f'' j ≡ used f j)
bfree-balloc f n {f'} e off = elim (balloc_lem f) [
  | inr (stops, full) ↦ absurd (cc)
  | inl (m, g, e', lt, free, first, rest) ↦
      (let same_n : n ≡ m = cc in
        let same_f : f' ≡ g = cc in
        let (marks, zero_bytes, others) = rest (rw same_n at off) in
        let (f'', done, cleared, kept) = (bfree_lem g m).0 (marks m lt ∙ ground arith) in
        (f'', rw (same_n, same_f) done, λ j l. ground (arith, cleared j, marks j l, free)))
]

pub balloc_ok :
    (f : Fs) (n : ℕ) {f' : Fs}
    → balloc f ≡ ok (n, f')
    → (n < f.sb.size) × (used f n ≡ false) × (f' ≡ taken f n)
balloc_ok f n {f'} e = split (balloc f) e (balloc-Ends f)
  where
    split :
        (r : Outcome (ℕ × Fs))
        → r ≡ ok (n, f')
        → Ends f r
        → (n < f.sb.size) × (used f n ≡ false) × (f' ≡ taken f n)
    split (ok (m, g)) q (lt, free, first, made) =
        let e1 : n ≡ m = cc in let e2 : f' ≡ g = cc in rw e1 (lt, free, e2 ∙ made)
    split panic q h = cc
    split fault q h = cc
