-- ===== src/Fs/Inode/Disk.antt =====
-- An inode written to the disk and read back.
use fast_ipc.Base.{
  ℕ, zero, suc, ◌+◌, ◌*◌, ◌^◌, ◌<◌, ◌≤◌, ◌≡◌, ◌≢◌, ◌⊎◌, inl, inr, refl, sym, ap, ◌∙◌, arith, List,
  [], ◌∷◌, true, length, ◌==◌, Bool-cases,
}
use fast_ipc.Memory.{Mem, load_le, store_le}
use fast_ipc.Memory.Words.{load_le-store_le_self, load_le-store_le_ne}
use fast_ipc.Fs.{Fs}
use fast_ipc.Fs.Inode.{
  Inode, load_words, store_words, put_dinode, get_dinode, iupdate, iblock, dinode_at, ndirect,
}

-- Every number is one of 32 bits.

abbrev pub Words : List ℕ → Type 0
Words [] = Unit {0}
Words (w ∷ ws) = (w < 2 ^ 32) × Words ws

store_words_ne :
    (ws : List ℕ) (m : Mem) (a b k : ℕ)
    → (b + k ≤ a) ⊎ (a + 4 * length ws ≤ b)
    → load_le (store_words m a ws) b k ≡ load_le m b k
unfolding store_words
store_words_ne [] m a b k apart = refl
store_words_ne (w ∷ ws) m a b k apart =
    store_words_ne ws (store_le m a 4 w) (a + 4) b k (omega arith)
    ∙ load_le-store_le_ne m a 4 w b k (omega arith)

load_words-store_words :
    (ws : List ℕ) (m : Mem) (a : ℕ) → Words ws → load_words (length ws) (store_words m a ws) a ≡ ws
unfolding store_words load_words
load_words-store_words [] m a small = refl
load_words-store_words (w ∷ ws) m a small =
    rw
      (
        store_words_ne ws (store_le m a 4 w) (a + 4) a 4 (omega arith),
        load_le-store_le_self m a 4 w (omega arith),
      )
      (ap (λ l. w ∷ l) (load_words-store_words ws (store_le m a 4 w) (a + 4) small.1))

-- The fields of an inode that lie on disk have their widths.
pub record IsDinode (ip : Inode) : Type 0 where
  pub type_fits : ip.type < 2 ^ 16
  pub major_fits : ip.major < 2 ^ 16
  pub minor_fits : ip.minor < 2 ^ 16
  pub nlink_fits : ip.nlink < 2 ^ 16
  pub size_fits : ip.size < 2 ^ 32
  pub addrs_fit : Words ip.addrs
  pub addrs_count : length ip.addrs ≡ ndirect + 1

-- Each field of the `struct dinode` at `a` after the assignments.
module _ (m : Mem) (a : ℕ) (ip : Inode) (v : IsDinode ip) where
  m1 : Mem
  m1 = store_le m a 2 ip.type

  m2 : Mem
  m2 = store_le m1 (a + 2) 2 ip.major

  m3 : Mem
  m3 = store_le m2 (a + 4) 2 ip.minor

  m4 : Mem
  m4 = store_le m3 (a + 6) 2 ip.nlink

  m5 : Mem
  m5 = store_le m4 (a + 8) 4 ip.size

  m6 : Mem
  m6 = store_words m5 (a + 12) ip.addrs

  put_type : load_le m6 a 2 ≡ ip.type
  unfolding m1 m2 m3 m4 m5 m6
  put_type =
      store_words_ne ip.addrs m5 (a + 12) a 2 (omega arith)
      ∙ load_le-store_le_ne m4 (a + 8) 4 ip.size a 2 (omega arith)
      ∙ load_le-store_le_ne m3 (a + 6) 2 ip.nlink a 2 (omega arith)
      ∙ load_le-store_le_ne m2 (a + 4) 2 ip.minor a 2 (omega arith)
      ∙ load_le-store_le_ne m1 (a + 2) 2 ip.major a 2 (omega arith)
      ∙ load_le-store_le_self m a 2 ip.type (omega (arith, v.type_fits))

  put_major : load_le m6 (a + 2) 2 ≡ ip.major
  unfolding m1 m2 m3 m4 m5 m6
  put_major =
      store_words_ne ip.addrs m5 (a + 12) (a + 2) 2 (omega arith)
      ∙ load_le-store_le_ne m4 (a + 8) 4 ip.size (a + 2) 2 (omega arith)
      ∙ load_le-store_le_ne m3 (a + 6) 2 ip.nlink (a + 2) 2 (omega arith)
      ∙ load_le-store_le_ne m2 (a + 4) 2 ip.minor (a + 2) 2 (omega arith)
      ∙ load_le-store_le_self m1 (a + 2) 2 ip.major (omega (arith, v.major_fits))

  put_minor : load_le m6 (a + 4) 2 ≡ ip.minor
  unfolding m1 m2 m3 m4 m5 m6
  put_minor =
      store_words_ne ip.addrs m5 (a + 12) (a + 4) 2 (omega arith)
      ∙ load_le-store_le_ne m4 (a + 8) 4 ip.size (a + 4) 2 (omega arith)
      ∙ load_le-store_le_ne m3 (a + 6) 2 ip.nlink (a + 4) 2 (omega arith)
      ∙ load_le-store_le_self m2 (a + 4) 2 ip.minor (omega (arith, v.minor_fits))

  put_nlink : load_le m6 (a + 6) 2 ≡ ip.nlink
  unfolding m1 m2 m3 m4 m5 m6
  put_nlink =
      store_words_ne ip.addrs m5 (a + 12) (a + 6) 2 (omega arith)
      ∙ load_le-store_le_ne m4 (a + 8) 4 ip.size (a + 6) 2 (omega arith)
      ∙ load_le-store_le_self m3 (a + 6) 2 ip.nlink (omega (arith, v.nlink_fits))

  put_size : load_le m6 (a + 8) 4 ≡ ip.size
  unfolding m1 m2 m3 m4 m5 m6
  put_size =
      store_words_ne ip.addrs m5 (a + 12) (a + 8) 4 (omega arith)
      ∙ load_le-store_le_self m4 (a + 8) 4 ip.size (omega (arith, v.size_fits))

  put_addrs : load_words (ndirect + 1) m6 (a + 12) ≡ ip.addrs
  unfolding m6
  put_addrs =
      ap (λ n. load_words n m6 (a + 12)) (sym v.addrs_count)
      ∙ load_words-store_words ip.addrs m5 (a + 12) v.addrs_fit

  -- What is written as a `struct dinode` is read back.
  get_dinode-put_dinode :
      (ip0 : Inode)
      → get_dinode (put_dinode m a ip) a ip0 ≡ record ip {
        dev = ip0.dev;
        inum = ip0.inum;
        ref = ip0.ref;
        locked = ip0.locked;
        valid = true;
      }
  unfolding get_dinode put_dinode m1 m2 m3 m4 m5 m6
  get_dinode-put_dinode ip0 = λ i. record {
    dev = ip0.dev;
    inum = ip0.inum;
    ref = ip0.ref;
    locked = ip0.locked;
    valid = true;
    type = put_type i;
    major = put_major i;
    minor = put_minor i;
    nlink = put_nlink i;
    size = put_size i;
    addrs = put_addrs i;
  }

-- A `struct dinode` at another place of the block stays as it was.
load_words-ext :
    (n : ℕ) (m m' : Mem) (a : ℕ)
    → ((b k : ℕ) → a ≤ b → b + k ≤ a + 4 * n → load_le m b k ≡ load_le m' b k)
    → load_words n m a ≡ load_words n m' a
unfolding load_words
load_words-ext zero m m' a h = refl
load_words-ext (suc n) m m' a h = λ i.
    h a 4 (omega arith) (omega arith) i
    ∷ load_words-ext n m m' (a + 4) (λ b k lo hi. h b k (omega arith) (omega arith)) i

module _ (m : Mem) (a : ℕ) (ip : Inode) (v : IsDinode ip) where
  put_dinode_ne :
      (b k : ℕ) → (b + k ≤ a) ⊎ (a + 64 ≤ b) → load_le (put_dinode m a ip) b k ≡ load_le m b k
  unfolding put_dinode
  put_dinode_ne b k apart =
      store_words_ne ip.addrs _ (a + 12) b k (omega (arith, v.addrs_count))
      ∙ load_le-store_le_ne _ (a + 8) 4 ip.size b k (omega arith)
      ∙ load_le-store_le_ne _ (a + 6) 2 ip.nlink b k (omega arith)
      ∙ load_le-store_le_ne _ (a + 4) 2 ip.minor b k (omega arith)
      ∙ load_le-store_le_ne _ (a + 2) 2 ip.major b k (omega arith)
      ∙ load_le-store_le_ne m a 2 ip.type b k (omega arith)

  get_dinode_ne :
      (b : ℕ) (ip0 : Inode)
      → (b + 64 ≤ a) ⊎ (a + 64 ≤ b)
      → get_dinode (put_dinode m a ip) b ip0 ≡ get_dinode m b ip0
  unfolding get_dinode
  get_dinode_ne b ip0 apart = λ i. record {
    dev = ip0.dev;
    inum = ip0.inum;
    ref = ip0.ref;
    locked = ip0.locked;
    valid = true;
    type = put_dinode_ne b 2 (omega arith) i;
    major = put_dinode_ne (b + 2) 2 (omega arith) i;
    minor = put_dinode_ne (b + 4) 2 (omega arith) i;
    nlink = put_dinode_ne (b + 6) 2 (omega arith) i;
    size = put_dinode_ne (b + 8) 4 (omega arith) i;
    addrs =
        load_words-ext (ndirect + 1) (put_dinode m a ip) m (b + 12)
          (λ c k lo hi. put_dinode_ne c k (omega arith)) i;
  }

-- The inode `inum` as the disk has it, in the form that `ilock` reads.
abbrev pub on_disk : Fs → (inum : ℕ) → Inode → Inode
on_disk f inum ip0 = get_dinode (f.blocks (iblock f inum)) (dinode_at inum) ip0

-- After `iupdate` the disk has the inode as it is in memory, and every other inode as before.
pub iupdate_lem :
    (f : Fs) (ip ip0 : Inode)
    → IsDinode ip
    → (on_disk (iupdate f ip) ip.inum ip0 ≡ record ip {
      dev = ip0.dev;
      inum = ip0.inum;
      ref = ip0.ref;
      locked = ip0.locked;
      valid = true;
    })
      × ((j : ℕ) → j ≢ ip.inum → on_disk (iupdate f ip) j ip0 ≡ on_disk f j ip0)
unfolding iupdate
iupdate_lem f ip ip0 v = (
  rw same (get_dinode-put_dinode (f.blocks (iblock f ip.inum)) (dinode_at ip.inum) ip v ip0),
  λ j ne. elim (Bool-cases (iblock f j == iblock f ip.inum)) [
    | inr there ↦ rw there
    | inl here ↦
        (let e : iblock f j ≡ iblock f ip.inum = ground arith in
          rw (here, e)
            (get_dinode_ne (f.blocks (iblock f ip.inum)) (dinode_at ip.inum) ip v (dinode_at j) ip0
              (ground arith)))
  ],
)
  where
    same : (iblock f ip.inum == iblock f ip.inum) ≡ true
    same = ground arith
