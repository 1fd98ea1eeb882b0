-- ===== src/Bio/Release.antt =====
-- What `brelse` does to the cache.
use fast_ipc.Base.{
  ℕ, zero, suc, ◌+◌, ◌-◌, ◌^◌, ◌<◌, ◌≡◌, inl, inr, refl, sym, ap, ◌∙◌, arith, List, [], ◌∷◌, true,
  false, ◌==◌, ltb, if◌then◌else◌, Bool-cases, ok, panic, set, get_or-set_self, length,
}
use fast_ipc.Sleeplock.{releasesleep, holdingsleep}
use fast_ipc.Bio.{Buf, no_buf, Device, buf_at, unreferenced, remove, to_front, brelse}
use fast_ipc.Bio.Contents.{Holds, buf_at-set}

-- A buffer whose lock and count change.

module _ (l : List Buf) (disk c : Device) (i : ℕ) (b : Buf) (v : Holds l disk c) (lt : i < length l)
    (same_dev : b.dev ≡ (buf_at l i).dev) (same_block : b.blockno ≡ (buf_at l i).blockno)
    (same_valid : b.valid ≡ (buf_at l i).valid) (same_bytes : b.bytes ≡ (buf_at l i).bytes)
    (safe : b.refcnt ≡ 0 → b.valid ≡ true → b.bytes ≡ disk b.dev b.blockno) where
  at : (j : ℕ) → buf_at (set l i b) j ≡ (if j == i then b else buf_at l j)
  at j = buf_at-set l i j b lt

  dev_at : (j : ℕ) → (buf_at (set l i b) j).dev ≡ (buf_at l j).dev
  dev_at j = elim (Bool-cases (j == i)) [
    | inl e ↦ (let q : j ≡ i = ground arith in rw (at j, e, q) same_dev)
    | inr e ↦ rw (at j, e)
  ]

  block_at : (j : ℕ) → (buf_at (set l i b) j).blockno ≡ (buf_at l j).blockno
  block_at j = elim (Bool-cases (j == i)) [
    | inl e ↦ (let q : j ≡ i = ground arith in rw (at j, e, q) same_block)
    | inr e ↦ rw (at j, e)
  ]

  valid_at : (j : ℕ) → (buf_at (set l i b) j).valid ≡ (buf_at l j).valid
  valid_at j = elim (Bool-cases (j == i)) [
    | inl e ↦ (let q : j ≡ i = ground arith in rw (at j, e, q) same_valid)
    | inr e ↦ rw (at j, e)
  ]

  bytes_at : (j : ℕ) → (buf_at (set l i b) j).bytes ≡ (buf_at l j).bytes
  bytes_at j = elim (Bool-cases (j == i)) [
    | inl e ↦ (let q : j ≡ i = ground arith in rw (at j, e, q) same_bytes)
    | inr e ↦ rw (at j, e)
  ]

  Holds-recount : Holds (set l i b) disk c
  Holds-recount = record {
    apart = λ j k ne ed eb.
        v.apart j k (λ q. ne (dev_at j ∙ q)) (sym (dev_at j) ∙ ed ∙ dev_at k)
          (sym (block_at j) ∙ eb ∙ block_at k);
    loaded = λ j ne val.
        bytes_at j
        ∙ v.loaded j (λ q. ne (dev_at j ∙ q)) (sym (valid_at j) ∙ val)
        ∙ sym (λ t. c (dev_at j t) (block_at j t));
    clean = λ j ne val idle. elim (Bool-cases (j == i)) [
      | inl e ↦ rw (at j, e) (safe (rw (at j, e) at idle) (rw (at j, e) at val))
      | inr e ↦
          rw (at j, e) (v.clean j (rw (at j, e) at ne) (rw (at j, e) at val) (rw (at j, e) at idle))
    ];
    away = λ d n ne h.
        v.away d n ne (λ j jd jb. sym (valid_at j) ∙ h j (dev_at j ∙ jd) (block_at j ∙ jb));
  }

-- Where each place of the new list was in the old one, and the other way round.
abbrev was_at : (i j : ℕ) → ℕ
was_at i j = if j == 0 then i else if ltb (j - 1) i then j - 1 else j

abbrev goes_to : (i j : ℕ) → ℕ
goes_to i j = if j == i then 0 else if ltb j i then j + 1 else j

buf_at-remove :
    (l : List Buf) (i j : ℕ) → buf_at (remove l i) j ≡ buf_at l (if ltb j i then j else suc j)
unfolding remove
buf_at-remove [] i j = refl
buf_at-remove (b ∷ l) zero j = let low : ltb j 0 ≡ false = ground arith in rw low
buf_at-remove (b ∷ l) (suc i) zero = let low : ltb 0 (suc i) ≡ true = ground arith in rw low
buf_at-remove (b ∷ l) (suc i) (suc j) = elim (Bool-cases (ltb j i)) [
  | inl low ↦
      (let low' : ltb (suc j) (suc i) ≡ true = ground arith in
        rw low' (rw low at (buf_at-remove l i j)))
  | inr high ↦
      (let high' : ltb (suc j) (suc i) ≡ false = ground arith in
        rw high' (rw high at (buf_at-remove l i j)))
]

buf_at-to_front : (l : List Buf) (i j : ℕ) → buf_at (to_front l i) j ≡ buf_at l (was_at i j)
buf_at-to_front l i zero = refl
buf_at-to_front l i (suc j) =
    let pred : suc j - 1 ≡ j = omega arith in
    let more : (suc j == 0) ≡ false = ground arith in rw (more, pred) (buf_at-remove l i j)

-- The order of the list does not matter to what the blocks hold.
Holds-to_front :
    (l : List Buf) (disk c : Device) (i : ℕ) → Holds l disk c → Holds (to_front l i) disk c
Holds-to_front l disk c i v = record {
  apart = λ j k ne ed eb.
      let same =
        v.apart (was_at i j) (was_at i k) (rw (at j) at ne) (rw (at j, at k) at ed)
          (rw (at j, at k) at eb) in
      ground (arith, same);
  loaded = λ j. rw (at j) (v.loaded (was_at i j));
  clean = λ j. rw (at j) (v.clean (was_at i j));
  away = λ d n ne h. v.away d n ne (λ j. rw (back j) at (h (goes_to i j)));
}
  where
    at : (j : ℕ) → buf_at (to_front l i) j ≡ buf_at l (was_at i j)
    at = buf_at-to_front l i

    back : (j : ℕ) → buf_at (to_front l i) (goes_to i j) ≡ buf_at l j
    back j = at (goes_to i j) ∙ ap (buf_at l) (ground arith)

-- `brelse` by the process that holds the lock, of a buffer that is on the device where this is its
-- last reference: it succeeds and the blocks hold what they held; where it was the last reference the
-- buffer becomes the most recently used. Without the lock it panics.
pub brelse_lem :
    (l : List Buf) (disk c : Device) (pid i : ℕ)
    → Holds l disk c
    → i < length l
    → 0 < (buf_at l i).refcnt
    → (buf_at l i).refcnt < 2 ^ 32
    → ((buf_at l i).refcnt ≡ 1
        → (buf_at l i).valid ≡ true
        → (buf_at l i).bytes ≡ disk (buf_at l i).dev (buf_at l i).blockno)
    → (holdingsleep (buf_at l i).lock pid ≡ true
        → (l' : List Buf) × (brelse pid l i ≡ ok l')
          × Holds l' disk c
          × ((buf_at l i).refcnt ≡ 1
              → buf_at l' 0
                ≡ record (buf_at l i) { refcnt = 0; lock = releasesleep (buf_at l i).lock }))
      × (holdingsleep (buf_at l i).lock pid ≡ false → brelse pid l i ≡ panic)
unfolding brelse
brelse_lem l disk c pid i v lt held fits on_disk = (
  λ mine. elim (Bool-cases ((unreferenced (buf_at l i)).refcnt == 0)) [
    | inl last ↦
        rw (mine, last)
          (
            to_front (set l i b) i,
            refl,
            Holds-to_front (set l i b) disk c i sound,
            λ one. get_or-set_self l i b no_buf lt ∙ (λ t. record (buf_at l i) {
              refcnt = none_left one t;
              lock = releasesleep (buf_at l i).lock;
            }),
          )
    | inr more ↦ rw (mine, more) (set l i b, refl, sound, λ one. absurd (ground (arith, more)))
  ],
  λ other. rw other,
)
  where
    b : Buf
    b = unreferenced (record (buf_at l i) { lock = releasesleep (buf_at l i).lock })

    none_left : (buf_at l i).refcnt ≡ 1 → b.refcnt ≡ 0
    none_left one = ground arith

    sound : Holds (set l i b) disk c
    sound =
        Holds-recount l disk c i b v lt refl refl refl refl (λ idle val. on_disk (ground arith) val)
