-- ===== src/Bio/Read.antt =====
-- What `bread` does to the cache.
use fast_ipc.Base.{
  ℕ, ◌+◌, ◌-◌, ◌^◌, ◌<◌, ◌≡◌, ◌≢◌, ◌⊎◌, inl, inr, refl, sym, ap, ◌∙◌, subst, arith, List, none,
  some, true, false, ◌==◌, if◌then◌else◌, Bool-cases, Option-cases, Outcome, ok, panic, ◌>>=◌, set,
  get_or-set_self, set-set, length,
}
use fast_ipc.Sleeplock.{SleepLock, acquiresleep, holdingsleep}
use fast_ipc.Bio.{
  Buf, no_buf, Device, buf_at, is_block, find_block, find_idle, referenced, reused, bget, filled,
  Reading, ready, asleep, lock_and_fill, bread,
}
use fast_ipc.Bio.Contents.{Holds, buf_at-set, Holds-set}
use fast_ipc.Bio.Find.{block-some, block-none, idle-some, in_cache}

-- What `bread` leaves where the buffer `i` is ready.

pub record Ready (l : List Buf) (disk c : Device) (pid d n i : ℕ) (l' : List Buf) : Type 0 where
  pub holds : Holds l' disk c
  pub bytes : (buf_at l' i).bytes ≡ c d n
  pub block : is_block d n (buf_at l' i) ≡ true
  pub is_valid : (buf_at l' i).valid ≡ true
  pub locked : holdingsleep (buf_at l' i).lock pid ≡ true
  pub others : (j : ℕ) → j ≢ i → buf_at l' j ≡ buf_at l j
  pub not_taken : (buf_at l i).refcnt ≢ 0 → is_block d n (buf_at l i) ≡ true
  -- where the block was in no buffer, the last one that nobody held is taken
  pub least :
      ((j : ℕ) → j < length l → is_block d n (buf_at l j) ≡ false)
      → (j : ℕ) → i < j
      → j < length l
      → (buf_at l j).refcnt ≢ 0

module _ (l : List Buf) (disk c : Device) (pid d n : ℕ) (v : Holds l disk c) (real : d ≢ 0) (i : ℕ)
    (b : Buf) (lt : i < length l) (same_dev : b.dev ≡ d) (same_block : b.blockno ≡ n)
    (old : b.valid ≡ true → b.bytes ≡ c d n) (new : b.valid ≡ false → disk d n ≡ c d n)
    (held : b.refcnt ≢ 0)
    (alone : (j : ℕ) → j ≢ i → (buf_at l j).dev ≡ d → (buf_at l j).blockno ≢ n)
    (may : ((buf_at l i).dev ≡ d) × ((buf_at l i).blockno ≡ n) ⊎ ((buf_at l i).refcnt ≡ 0))
    (last : ((j : ℕ) → j < length l → is_block d n (buf_at l j) ≡ false)
      → (j : ℕ) → i < j
      → j < length l
      → (buf_at l j).refcnt ≢ 0) where
  abbrev mine : Buf
  mine = filled disk (record b { lock = record { locked = true; pid = pid } })

  mine_lem :
      (mine.dev ≡ d)
      × (mine.blockno ≡ n)
      × (mine.valid ≡ true)
      × (mine.bytes ≡ c d n)
      × (mine.refcnt ≢ 0)
      × (holdingsleep mine.lock pid ≡ true)
  mine_lem =
      let self : (pid == pid) ≡ true = ground arith in
      elim (Bool-cases b.valid) [
        | inl e ↦ rw (e, self) (same_dev, same_block, refl, old e, held, refl)
        | inr e ↦
            rw (e, self)
              (
                same_dev,
                same_block,
                refl,
                (λ t. disk (same_dev t) (same_block t)) ∙ new e,
                held,
                refl,
              )
      ]

  Ready-set : Ready l disk c pid d n i (set l i mine)
  Ready-set =
      let it : (i == i) ≡ true = ground arith in
      let at : (j : ℕ) → buf_at (set l i mine) j ≡ (if j == i then mine else buf_at l j) =
        λ j. buf_at-set l i j mine lt in
      let (m_dev, m_block, m_valid, m_bytes, m_held, m_lock) = mine_lem in
      record {
        holds =
            Holds-set l disk c i d n mine v lt real m_dev m_block m_valid m_bytes m_held alone may;
        bytes = rw (at i, it) m_bytes;
        block = rw (at i, it) (ground arith);
        is_valid = rw (at i, it) m_valid;
        locked = rw (at i, it) m_lock;
        others = λ j ne. (let e : (j == i) ≡ false = ground arith in rw (at j, e));
        not_taken = λ ne. ground arith;
        least = last;
      }

  abbrev locking : List Buf → Buf → Reading
  locking l1 x = elim (acquiresleep x.lock pid) [
    | none ↦ asleep i l1
    | some lk ↦ ready i (set l1 i (filled disk (record x { lock = lk })))
  ]

  never :
      (lk : SleepLock) (x : Buf) (l1 : List Buf) (k : ℕ) (l' : List Buf)
      → lk.locked ≡ true
      → elim (acquiresleep lk pid) [
        | none ↦ asleep i l1
        | some q ↦ ready i (set l1 i (filled disk (record x { lock = q })))
      ]
        ≢ ready k l'
  unfolding acquiresleep
  never lk x l1 k l' waits e = let q : asleep i l1 ≡ ready k l' = rw waits at e in cc

  gets :
      (lk : SleepLock) (x : Buf) (l1 : List Buf)
      → lk.locked ≡ false
      → elim (acquiresleep lk pid) [
        | none ↦ asleep i l1
        | some q ↦ ready i (set l1 i (filled disk (record x { lock = q })))
      ]
        ≡ ready i (set l1 i (filled disk (record x { lock = record { locked = true; pid = pid } })))
  unfolding acquiresleep
  gets lk x l1 free = rw free

  -- Where the lock is free.
  Ready-fill :
      (k : ℕ) (l' : List Buf)
      → lock_and_fill disk pid i (set l i b) ≡ ready k l'
      → Ready l disk c pid d n k l'
  Ready-fill k l' e =
      let here : buf_at (set l i b) i ≡ b = get_or-set_self l i b no_buf lt in
      let run : locking (set l i b) b ≡ ready k l' = sym (ap (locking (set l i b)) here) ∙ e in
      elim (Bool-cases b.lock.locked) [
        | inl waits ↦ absurd (never b.lock b (set l i b) k l' waits run)
        | inr free ↦
            (let q : ready i (set (set l i b) i mine) ≡ ready k l' =
                sym (gets b.lock b (set l i b) free) ∙ run in
              let q1 : i ≡ k = cc q in
              let q2 : set (set l i b) i mine ≡ l' = cc q in
              subst (λ x. Ready l disk c pid d n x l') q1
                (subst (λ x. Ready l disk c pid d n i x) (sym (set-set l i b mine) ∙ q2) Ready-set))
      ]

bget-found :
    (l : List Buf) (d n k : ℕ)
    → find_block d n l 0 ≡ some k
    → bget l d n ≡ ok (k, set l k (referenced (buf_at l k)))
unfolding bget
bget-found l d n k found = rw (found, bget)

bget-idle :
    (l : List Buf) (d n k : ℕ)
    → find_block d n l 0 ≡ none
    → find_idle l 0 ≡ some k
    → bget l d n ≡ ok (k, set l k (reused (buf_at l k) d n))
unfolding bget
bget-idle l d n k missing idle = rw (missing, idle, bget)

bget-full :
    (l : List Buf) (d n : ℕ) → find_block d n l 0 ≡ none → find_idle l 0 ≡ none → bget l d n ≡ panic
unfolding bget
bget-full l d n missing full = rw (missing, full, bget)

-- `bread` of a block, where the buffer is ready and not waited for: the cache holds what it held, the
-- buffer has the bytes of the block and is locked by the process, no other buffer is changed, and none
-- that somebody holds is taken for another block; where the block was in no buffer, it is the least
-- recently used of those that nobody holds.
pub bread_lem :
    (l : List Buf) (disk c : Device) (pid d n i : ℕ) (l' : List Buf)
    → Holds l disk c
    → d ≢ 0
    → ((j : ℕ) → (buf_at l j).refcnt + 1 < 2 ^ 32)
    → bread disk pid l d n ≡ ok (ready i l')
    → Ready l disk c pid d n i l'
unfolding bread
bread_lem l disk c pid d n i l' v real few e = elim (Option-cases (find_block d n l 0)) [
  | inr (k, found) ↦
      (let (le, lt, yes_block) = block-some d n l 0 k found in
        let same : k - 0 ≡ k = omega arith in
        let is_it : is_block d n (buf_at l k) ≡ true = rw same at yes_block in
        let k_dev : (buf_at l k).dev ≡ d = ground arith in
        let k_block : (buf_at l k).blockno ≡ n = ground arith in
        let k_real : (buf_at l k).dev ≢ 0 = λ q. real (sym k_dev ∙ q) in
        let q : ok (lock_and_fill disk pid k (set l k (referenced (buf_at l k))))
            ≡ ok (ready i l') =
          sym (ap next (bget-found l d n k found)) ∙ e in
        Ready-fill l disk c pid d n v real k (referenced (buf_at l k)) (omega arith) k_dev k_block
          (λ val. v.loaded k k_real val ∙ (λ t. c (k_dev t) (k_block t)))
          (λ inv. v.away d n real (λ j jd jb.
            (let j_k : k ≡ j = v.apart k j k_real (k_dev ∙ sym jd) (k_block ∙ sym jb) in
              subst (λ x. (buf_at l x).valid ≡ false) j_k inv)))
          (ground (arith, few k))
          (λ j ne jd jb. ne (sym (v.apart k j k_real (k_dev ∙ sym jd) (k_block ∙ sym jb))))
          (inl (k_dev, k_block)) (λ h. absurd (ground (arith, h k (omega arith), is_it))) i l'
          (cc q))
  | inl missing ↦ elim (Option-cases (find_idle l 0)) [
    | inl full ↦ absurd (stops (sym (ap next (bget-full l d n missing full)) ∙ e))
    | inr (k, idle) ↦
        (let (le, lt, unheld, last) = idle-some l 0 k idle in
          let same : k - 0 ≡ k = omega arith in
          let nowhere = block-none d n l 0 missing in
          let q : ok (lock_and_fill disk pid k (set l k (reused (buf_at l k) d n)))
              ≡ ok (ready i l') =
            sym (ap next (bget-idle l d n k missing idle)) ∙ e in
          Ready-fill l disk c pid d n v real k (reused (buf_at l k) d n) (omega arith) refl refl
            (λ val. cc) (λ inv. v.away d n real (λ j jd jb. absurd (elsewhere j nowhere jd jb)))
            (λ z. cc) (λ j ne jd jb. elsewhere j nowhere jd jb) (inr (rw same at unheld))
            (λ h j lo hi. last j (omega arith) hi) i l' (cc q))
  ]
]
  where
    next : Outcome (ℕ × List Buf) → Outcome Reading
    next run = run >>= λ r. ok (lock_and_fill disk pid r.0 r.1)

    stops : ◌≢◌ {A = Outcome Reading} panic (ok (ready i l'))
    stops q = cc

    elsewhere :
        (j : ℕ)
        → ((k : ℕ) → k < length l → is_block d n (buf_at l k) ≡ false)
        → (buf_at l j).dev ≡ d
        → (buf_at l j).blockno ≢ n
    elsewhere j nowhere jd jb =
        let inside : j < length l = in_cache l j (λ q. real (sym jd ∙ q)) in
        ground (arith, nowhere j inside)
