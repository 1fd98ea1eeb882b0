-- ===== src/Fs/Icache/Held.antt =====
-- The table of inodes against the references that are held.
use fast_ipc.Base.{
  ℕ, zero, suc, ◌+◌, ◌-◌, ◌^◌, ◌<◌, ◌≤◌, ◌≡◌, ◌≢◌, ◌⊎◌, inl, inr, refl, sym, ap, ◌∙◌, arith, List,
  [], ◌∷◌, Option, none, some, true, false, ◌==◌, if◌then◌else◌, Bool-cases, ok, panic, set,
  get_or-set_self, get_or-set_ne, length, to_int,
}
use fast_ipc.File.Counts.{count}
use fast_ipc.Fs.Inode.{Inode}
use fast_ipc.Fs.Icache.{no_inode, inode_at, is_entry, find_inode, one_more, recycled, iget}
use fast_ipc.Fs.Icache.Find.{FindEnds, find_inode-Ends}

-- The counts are the numbers of references held, fewer than 2^31, and no inode has two entries in use.

pub record IsTable (l : List Inode) (hs : List ℕ) : Type 0 where
  pub refs : (i : ℕ) → (inode_at l i).ref ≡ count i hs
  pub few : length hs < 2 ^ 31
  pub apart :
      (i j : ℕ)
      → 0 < count i hs
      → 0 < count j hs
      → (inode_at l i).dev ≡ (inode_at l j).dev
      → (inode_at l i).inum ≡ (inode_at l j).inum
      → i ≡ j

pub count_le : (i : ℕ) (hs : List ℕ) → count i hs ≤ length hs
count_le i [] = omega arith
count_le i (h ∷ hs) = ground (arith, count_le i hs)

pub inode_at-set :
    (l : List Inode) (i j : ℕ) (ip : Inode)
    → i < length l
    → inode_at (set l i ip) j ≡ (if j == i then ip else inode_at l j)
inode_at-set l i j ip lt = elim (Bool-cases (j == i)) [
  | inl same ↦ (let e : j ≡ i = ground arith in rw (same, e) (get_or-set_self l i ip no_inode lt))
  | inr differ ↦ rw differ (get_or-set_ne l i j ip no_inode (ground arith))
]

-- An entry of the inode, in use.
is_entry_iff :
    (dev inum : ℕ) (ip : Inode)
    → is_entry dev inum ip ≡ true
    → (0 < ip.ref) × (ip.ref < 2 ^ 31) × (ip.dev ≡ dev) × (ip.inum ≡ inum)
is_entry_iff dev inum ip e = (ground arith, ground arith, ground arith, ground arith)

-- What `iget` leaves where it returns the entry `i`. Where some reference to the inode was held, that
-- entry keeps all else that it had; else nothing is loaded in it.
pub record Got (l : List Inode) (hs : List ℕ) (dev inum i : ℕ) (l' : List Inode) : Type 0 where
  pub table : IsTable l' (i ∷ hs)
  pub same_dev : (inode_at l' i).dev ≡ dev
  pub same_inum : (inode_at l' i).inum ≡ inum
  pub others : (j : ℕ) → j ≢ i → inode_at l' j ≡ inode_at l j
  pub kept : 0 < count i hs → inode_at l' i ≡ record (inode_at l i) { ref = count i hs + 1 }
  pub fresh :
      ((j : ℕ) → 0 < count j hs → (inode_at l j).dev ≡ dev → (inode_at l j).inum ≢ inum)
      → (inode_at l' i).valid ≡ false

pub in_table : (l : List Inode) (j : ℕ) → 0 < (inode_at l j).ref → j < length l
in_table [] j lt = elim lt [ ]
in_table (ip ∷ l) zero lt = omega arith
in_table (ip ∷ l) (suc j) lt = omega (arith, in_table l j lt)

module _ (l : List Inode) (hs : List ℕ) (dev inum : ℕ) (v : IsTable l hs)
    (few : length hs + 1 < 2 ^ 31) where
  pub Got-again :
      (i : ℕ)
      → i < length l
      → is_entry dev inum (inode_at l i) ≡ true
      → Got l hs dev inum i (set l i (one_more (inode_at l i)))
  Got-again i lt here = record {
    table = record {
      refs = λ j. elim (Bool-cases (j == i)) [
        | inl e ↦
            (let q : i ≡ j = ground arith in rw (at j, e) (rw q (ground (arith, v.refs i, bound))))
        | inr e ↦ rw (at j, e) (v.refs j)
      ];
      few = omega arith;
      apart = λ a b ha hb ed ei.
          v.apart a b (was a ha) (was b hb) (sym (dev_at a) ∙ ed ∙ dev_at b)
            (sym (inum_at a) ∙ ei ∙ inum_at b);
    };
    same_dev = dev_at i ∙ (is_entry_iff dev inum (inode_at l i) here).2;
    same_inum = inum_at i ∙ (is_entry_iff dev inum (inode_at l i) here).3;
    others = λ j ne. (let e : (j == i) ≡ false = ground arith in rw (at j, e));
    kept = λ h. rw (at i, it) (λ t. record (inode_at l i) { ref = more t });
    fresh = λ h. absurd (
        h i held (is_entry_iff dev inum (inode_at l i) here).2
          (is_entry_iff dev inum (inode_at l i) here).3);
  }
    where
      at :
          (j : ℕ)
          → inode_at (set l i (one_more (inode_at l i))) j
            ≡ (if j == i then one_more (inode_at l i) else inode_at l j)
      at j = inode_at-set l i j (one_more (inode_at l i)) lt

      it : (i == i) ≡ true
      it = ground arith

      bound : count i hs ≤ length hs
      bound = count_le i hs

      held : 0 < count i hs
      held = rw (v.refs i) at (is_entry_iff dev inum (inode_at l i) here).0

      more : to_int ((inode_at l i).ref + 1) ≡ count i hs + 1
      more = ground (arith, v.refs i, bound)

      was : (a : ℕ) → 0 < count a (i ∷ hs) → 0 < count a hs
      was a h = ground (arith, held)

      dev_at : (j : ℕ) → (inode_at (set l i (one_more (inode_at l i))) j).dev ≡ (inode_at l j).dev
      dev_at j = elim (Bool-cases (j == i)) [
        | inl e ↦ (let q : j ≡ i = ground arith in rw (at j, e, q))
        | inr e ↦ rw (at j, e)
      ]

      inum_at :
          (j : ℕ) → (inode_at (set l i (one_more (inode_at l i))) j).inum ≡ (inode_at l j).inum
      inum_at j = elim (Bool-cases (j == i)) [
        | inl e ↦ (let q : j ≡ i = ground arith in rw (at j, e, q))
        | inr e ↦ rw (at j, e)
      ]

  Got-new :
      (i : ℕ)
      → i < length l
      → (inode_at l i).ref ≡ 0
      → ((j : ℕ) → j < length l → is_entry dev inum (inode_at l j) ≡ false)
      → Got l hs dev inum i (set l i (recycled (inode_at l i) dev inum))
  Got-new i lt idle none_held = record {
    table = record {
      refs = λ j. elim (Bool-cases (j == i)) [
        | inl e ↦
            (let q : i ≡ j = ground arith in
              rw (at j, e) (ground (arith, v.refs i, ap (λ k. count k hs) q)))
        | inr e ↦ rw (at j, e) (v.refs j)
      ];
      few = omega arith;
      apart = λ a b ha hb ed ei. elim (Bool-cases (a == i)) [
        | inl ea ↦ elim (Bool-cases (b == i)) [
          | inl eb ↦ ground arith
          | inr eb ↦ absurd (
              other b (ground arith) (rw (at a, at b, ea, eb) at (sym ed))
                (rw (at a, at b, ea, eb) at (sym ei)))
        ]
        | inr ea ↦ elim (Bool-cases (b == i)) [
          | inl eb ↦ absurd (
              other a (ground arith) (rw (at a, at b, ea, eb) at ed)
                (rw (at a, at b, ea, eb) at ei))
          | inr eb ↦
              v.apart a b (ground arith) (ground arith) (rw (at a, at b, ea, eb) at ed)
                (rw (at a, at b, ea, eb) at ei)
        ]
      ];
    };
    same_dev = rw (at i, it);
    same_inum = rw (at i, it);
    others = λ j ne. (let e : (j == i) ≡ false = ground arith in rw (at j, e));
    kept = λ h. absurd (ground (arith, v.refs i));
    fresh = λ h. rw (at i, it);
  }
    where
      at :
          (j : ℕ)
          → inode_at (set l i (recycled (inode_at l i) dev inum)) j
            ≡ (if j == i then recycled (inode_at l i) dev inum else inode_at l j)
      at j = inode_at-set l i j (recycled (inode_at l i) dev inum) lt

      it : (i == i) ≡ true
      it = ground arith

      other : (j : ℕ) → 0 < count j hs → (inode_at l j).dev ≡ dev → (inode_at l j).inum ≡ inum → ⊥
      other j held ed ei =
          let there : 0 < (inode_at l j).ref = rw (v.refs j) held in
          ground (arith, none_held j (in_table l j there), v.refs j, count_le j hs)

-- `iget` returns an entry of the inode with one reference more, or panics where every entry is in use
-- and none is of the inode. Where it returns, the counts are again the references, and no inode has
-- two entries in use.
pub iget_lem :
    (l : List Inode) (hs : List ℕ) (dev inum : ℕ)
    → IsTable l hs
    → length hs + 1 < 2 ^ 31
    → ((i : ℕ) × (l' : List Inode) × (iget l dev inum ≡ ok (i, l')) × Got l hs dev inum i l')
      ⊎ ((iget l dev inum ≡ panic)
          × ((j : ℕ)
              → j < length l
              → (is_entry dev inum (inode_at l j) ≡ false) × (0 < count j hs)))
unfolding iget FindEnds
iget_lem l hs dev inum v few =
    split (find_inode dev inum l 0 none) refl (find_inode-Ends dev inum l 0 none)
  where
    split :
        (r : ℕ ⊎ Option ℕ)
        → find_inode dev inum l 0 none ≡ r
        → FindEnds dev inum l 0 none r
        → ((i : ℕ) × (l' : List Inode) × (iget l dev inum ≡ ok (i, l')) × Got l hs dev inum i l')
          ⊎ ((iget l dev inum ≡ panic)
              × ((j : ℕ)
                  → j < length l
                  → (is_entry dev inum (inode_at l j) ≡ false) × (0 < count j hs)))
    split (inl i) e (le, lt, here) =
        let same : i - 0 ≡ i = omega arith in
        inl (
          i,
          set l i (one_more (inode_at l i)),
          rw (e, iget),
          Got-again l hs dev inum v few i (omega arith) (rw same at here),
        )
    split (inr none) e (unset, full) =
        inr (rw (e, iget), λ j lt. ((full j lt).0, ground (arith, (full j lt).1, v.refs j)))
    split (inr (some k)) e (other, inl q) = absurd (cc)
    split (inr (some k)) e (other, inr (le, lt, idle)) =
        let same : k - 0 ≡ k = omega arith in
        inl (
          k,
          set l k (recycled (inode_at l k) dev inum),
          rw (e, iget),
          Got-new l hs dev inum v few k (omega arith) (rw same at idle) other,
        )
