-- ===== src/Bio/Contents.antt =====
-- The cache as a map from blocks to what they hold.
use fast_ipc.Base.{
  ℕ, zero, suc, ◌<◌, ◌≡◌, ◌≢◌, ◌⊎◌, inl, inr, refl, sym, ap, ◌∙◌, arith, List, true, false, ◌&&◌,
  ◌==◌, if◌then◌else◌, Bool-cases, set, get_or-set_self, get_or-set_ne, length,
}
use fast_ipc.Bio.{binit, Buf, no_buf, Device, buf_at, is_block}

-- The blocks hold `c`, in the cache or on the device. Device 0 is that of the buffers never used.

pub record Holds (l : List Buf) (disk c : Device) : Type 0 where
  pub apart :
      (i j : ℕ)
      → (buf_at l i).dev ≢ 0
      → (buf_at l i).dev ≡ (buf_at l j).dev
      → (buf_at l i).blockno ≡ (buf_at l j).blockno
      → i ≡ j
  pub loaded :
      (i : ℕ)
      → (buf_at l i).dev ≢ 0
      → (buf_at l i).valid ≡ true
      → (buf_at l i).bytes ≡ c (buf_at l i).dev (buf_at l i).blockno
  -- what nobody holds is on the device
  pub clean :
      (i : ℕ)
      → (buf_at l i).dev ≢ 0
      → (buf_at l i).valid ≡ true
      → (buf_at l i).refcnt ≡ 0
      → (buf_at l i).bytes ≡ disk (buf_at l i).dev (buf_at l i).blockno
  pub away :
      (d n : ℕ)
      → d ≢ 0
      → ((i : ℕ) → (buf_at l i).dev ≡ d → (buf_at l i).blockno ≡ n → (buf_at l i).valid ≡ false)
      → disk d n ≡ c d n

pub buf_at-set :
    (l : List Buf) (i j : ℕ) (b : Buf)
    → i < length l
    → buf_at (set l i b) j ≡ (if j == i then b else buf_at l j)
buf_at-set l i j b lt = elim (Bool-cases (j == i)) [
  | inl same ↦ (let e : j ≡ i = ground arith in rw (same, e) (get_or-set_self l i b no_buf lt))
  | inr differ ↦ rw differ (get_or-set_ne l i j b no_buf (ground arith))
]

-- A buffer that holds the block or that nobody holds comes to hold it with its bytes.
module _ (l : List Buf) (disk c : Device) (i d n : ℕ) (b : Buf) (v : Holds l disk c)
    (lt : i < length l) (real : d ≢ 0) (same_dev : b.dev ≡ d) (same_block : b.blockno ≡ n)
    (valid : b.valid ≡ true) (holds : b.bytes ≡ c d n) (held : b.refcnt ≢ 0)
    (alone : (j : ℕ) → j ≢ i → (buf_at l j).dev ≡ d → (buf_at l j).blockno ≢ n)
    (may : ((buf_at l i).dev ≡ d) × ((buf_at l i).blockno ≡ n) ⊎ ((buf_at l i).refcnt ≡ 0)) where
  at : (j : ℕ) → buf_at (set l i b) j ≡ (if j == i then b else buf_at l j)
  at j = buf_at-set l i j b lt

  replaced :
      (d' n' : ℕ)
      → d' ≢ 0
      → ((k : ℕ)
          → (buf_at (set l i b) k).dev ≡ d'
          → (buf_at (set l i b) k).blockno ≡ n'
          → (buf_at (set l i b) k).valid ≡ false)
      → (buf_at l i).dev ≡ d'
      → (buf_at l i).blockno ≡ n'
      → (buf_at l i).valid ≡ true
      → disk d' n' ≡ c d' n'
  replaced d' n' ne h q1 q2 val = elim may [
    | inl (k1, k2) ↦
        (let it : (i == i) ≡ true = ground arith in
          let gone : b.valid ≡ false =
            rw (at i, it) at
              (h i (rw (at i, it) (same_dev ∙ sym k1 ∙ q1))
                (rw (at i, it) (same_block ∙ sym k2 ∙ q2))) in
          absurd (ground (arith, gone)))
    | inr idle ↦
        (let real_i : (buf_at l i).dev ≢ 0 = λ e. ne (sym q1 ∙ e) in
          sym (λ t. disk (q1 t) (q2 t))
          ∙ sym (v.clean i real_i val idle)
          ∙ v.loaded i real_i val
          ∙ (λ t. c (q1 t) (q2 t)))
  ]

  unloaded :
      (k d' n' : ℕ)
      → k ≡ i
      → (is_block d' n' (buf_at l i) && (buf_at l i).valid) ≡ false
      → (buf_at l k).dev ≡ d'
      → (buf_at l k).blockno ≡ n'
      → (buf_at l k).valid ≡ false
  unloaded k d' n' q other kd kb =
      let e = sym q in
      let other_k : (is_block d' n' (buf_at l k) && (buf_at l k).valid) ≡ false = rw e at other in
      ground arith

  pub Holds-set : Holds (set l i b) disk c
  Holds-set = record {
    apart = λ j k ne ed eb. elim (Bool-cases (j == i)) [
      | inl ej ↦ elim (Bool-cases (k == i)) [
        | inl ek ↦ ground arith
        | inr ek ↦ absurd (
            alone k (ground arith) (sym (rw (at j, at k, ej, ek) at ed) ∙ same_dev)
              (sym (rw (at j, at k, ej, ek) at eb) ∙ same_block))
      ]
      | inr ej ↦ elim (Bool-cases (k == i)) [
        | inl ek ↦ absurd (
            alone j (ground arith) ((rw (at j, at k, ej, ek) at ed) ∙ same_dev)
              ((rw (at j, at k, ej, ek) at eb) ∙ same_block))
        | inr ek ↦
            v.apart j k (rw (at j, ej) at ne) (rw (at j, at k, ej, ek) at ed)
              (rw (at j, at k, ej, ek) at eb)
      ]
    ];
    loaded = λ j ne val. elim (Bool-cases (j == i)) [
      | inl ej ↦ rw (at j, ej) (holds ∙ sym (λ t. c (same_dev t) (same_block t)))
      | inr ej ↦ rw (at j, ej) (v.loaded j (rw (at j, ej) at ne) (rw (at j, ej) at val))
    ];
    clean = λ j ne val idle. elim (Bool-cases (j == i)) [
      | inl ej ↦ absurd (held (rw (at j, ej) at idle))
      | inr ej ↦
          rw (at j, ej)
            (v.clean j (rw (at j, ej) at ne) (rw (at j, ej) at val) (rw (at j, ej) at idle))
    ];
    away = λ d' n' ne h. elim (Bool-cases (is_block d' n' (buf_at l i) && (buf_at l i).valid)) [
      | inl was ↦ replaced d' n' ne h (ground arith) (ground arith) (ground arith)
      | inr other ↦ v.away d' n' ne (λ k kd kb. elim (Bool-cases (k == i)) [
        | inl ek ↦ (let q : k ≡ i = ground arith in unloaded k d' n' q other kd kb)
        | inr ek ↦ (rw (at k, ek) at (h k)) kd kb
      ])
    ];
  }

buf_at-binit : (n i : ℕ) → buf_at (binit n) i ≡ no_buf
unfolding binit
buf_at-binit zero i = refl
buf_at-binit (suc n) zero = refl
buf_at-binit (suc n) (suc i) = buf_at-binit n i

-- At the start the blocks hold what the device has.
pub Holds-binit : (n : ℕ) (disk : Device) → Holds (binit n) disk disk
Holds-binit n disk = record {
  apart = λ i j ne ed eb. absurd (ne (unused i));
  loaded = λ i ne val. absurd (ne (unused i));
  clean = λ i ne val idle. absurd (ne (unused i));
  away = λ d n ne h. refl;
}
  where
    unused : (i : ℕ) → (buf_at (binit n) i).dev ≡ 0
    unused i = ap (λ (b : Buf). b.dev) (buf_at-binit n i)
