-- ===== src/Fs/Icache/Dropped.antt =====
-- `idup` and `iput` against the references that are held.
use fast_ipc.Base.{
  Outcome, fault, ℕ, suc, ◌+◌, ◌-◌, ◌^◌, ◌<◌, ◌≡◌, inl, inr, refl, sym, ap, ◌∙◌, subst, arith, List,
  ◌∷◌, Bool, true, false, ◌==◌, ◌&&◌, if◌then◌else◌, Bool-cases, ok, ◌>>=◌, >>=-eq-ok, set, get_or,
  length, to_int, take,
}
use fast_ipc.File.Counts.{count}
use fast_ipc.Fs.{Fs, bfree}
use fast_ipc.Fs.Inode.{
  Inode, iupdate, itrunc, ndirect, nindirect, free_direct, free_indirect, no_addrs,
}
use fast_ipc.Fs.Icache.{Store, inode_at, is_entry, one_less, idup, free_inode, iput}
use fast_ipc.Fs.Icache.Held.{IsTable, Got-again, count_le, inode_at-set, in_table}

-- A holder can duplicate its reference, and one more is counted.

pub idup_lem :
    (l : List Inode) (hs : List ℕ) (i : ℕ)
    → IsTable l hs
    → length hs + 1 < 2 ^ 31
    → 0 < count i hs
    → IsTable (idup l i) (i ∷ hs)
unfolding idup
idup_lem l hs i v few held =
    let ip = inode_at l i in
    let there : 0 < ip.ref = rw (v.refs i) held in
    let mine : is_entry ip.dev ip.inum ip ≡ true = ground (arith, v.refs i, count_le i hs) in
    (Got-again l hs ip.dev ip.inum v few i (in_table l i there) mine).table

-- One reference fewer.
IsTable-drop :
    (l : List Inode) (hs : List ℕ) (i : ℕ) (ip : Inode)
    → IsTable l (i ∷ hs)
    → ip.ref ≡ count i hs
    → ip.dev ≡ (inode_at l i).dev
    → ip.inum ≡ (inode_at l i).inum
    → IsTable (set l i ip) hs
IsTable-drop l hs i ip v now same_dev same_inum = record {
  refs = λ j. elim (Bool-cases (j == i)) [
    | inl e ↦ (let q : i ≡ j = ground arith in rw (at j, e) (now ∙ ap (λ k. count k hs) q))
    | inr e ↦ rw (at j, e) (v.refs j ∙ rw e)
  ];
  few = omega (arith, v.few);
  apart = λ a b ha hb ed ei.
      v.apart a b (more a ha) (more b hb) (sym (dev_at a) ∙ ed ∙ dev_at b)
        (sym (inum_at a) ∙ ei ∙ inum_at b);
}
  where
    lt : i < length l
    lt = in_table l i (ground (arith, v.refs i))

    at : (j : ℕ) → inode_at (set l i ip) j ≡ (if j == i then ip else inode_at l j)
    at j = inode_at-set l i j ip lt

    more : (a : ℕ) → 0 < count a hs → 0 < count a (i ∷ hs)
    more a h = ground arith

    dev_at : (j : ℕ) → (inode_at (set l i ip) j).dev ≡ (inode_at l j).dev
    dev_at j = elim (Bool-cases (j == i)) [
      | inl e ↦ (let q : j ≡ i = ground arith in rw (at j, e, q) same_dev)
      | inr e ↦ rw (at j, e)
    ]

    inum_at : (j : ℕ) → (inode_at (set l i ip) j).inum ≡ (inode_at l j).inum
    inum_at j = elim (Bool-cases (j == i)) [
      | inl e ↦ (let q : j ≡ i = ground arith in rw (at j, e, q) same_inum)
      | inr e ↦ rw (at j, e)
    ]

-- What `itrunc` does to the inode in memory.
itrunc-inode :
    (f : Fs) (ip : Inode) {r : Inode × Fs}
    → itrunc f ip ≡ ok r
    → record ip { addrs = no_addrs; size = 0 } ≡ r.0
unfolding itrunc
itrunc-inode f ip {r} e =
    let (f1, e1, rest) = >>=-eq-ok (free_direct (take ndirect ip.addrs) f) _ e in
    let (f3, e3, last) =
      >>=-eq-ok
        (if get_or ip.addrs ndirect 0 == 0
          then ok f1
          else free_indirect nindirect 0 (get_or ip.addrs ndirect 0) f1 >>= λ f2.
              bfree f2 (get_or ip.addrs ndirect 0))
        _ rest in
    cc last

-- A run that a test allows.
run-eq :
    (b : Bool) (run : Outcome (Inode × Fs)) {r : Inode × Fs}
    → (if b then fault else run) ≡ ok r
    → run ≡ ok r
run-eq true run e = absurd (cc)
run-eq false run e = e

free_inode-inode :
    (f : Fs) (ip : Inode) {r : Inode × Fs}
    → free_inode f ip ≡ ok r
    → record ip { addrs = no_addrs; size = 0; type = 0; valid = false } ≡ r.0
unfolding free_inode
free_inode-inode f ip {r} e =
    let free_it = itrunc f ip >>= λ q.
    let ip' = record (q.0) { type = 0 } in ok (record ip' { valid = false }, iupdate q.1 ip') in
    let (q, e1, last) = >>=-eq-ok (itrunc f ip) _ (run-eq ip.locked free_it e) in
    let same : record (q.0) { type = 0; valid = false } ≡ r.0 = cc last in
    ap (λ (k : Inode). record k { type = 0; valid = false }) (itrunc-inode f ip e1) ∙ same

-- The last reference to an inode that is loaded and has no links.
abbrev is_last : Inode → Bool
is_last ip = ip.ref == 1 && (ip.valid && ip.nlink == 0)

-- Where `iput` by a holder of a reference returns, one reference fewer is counted. Where the reference
-- was the last one to an inode that is loaded and has no links, the entry is no longer loaded, and its
-- inode has the type 0; else nothing is written.
pub iput_lem :
    (s s' : Store) (hs : List ℕ) (i : ℕ)
    → IsTable s.inodes (i ∷ hs)
    → iput s i ≡ ok s'
    → IsTable s'.inodes hs
      × (if is_last (inode_at s.inodes i)
          then ((inode_at s'.inodes i).valid ≡ false) × ((inode_at s'.inodes i).type ≡ 0)
          else s'.fs ≡ s.fs)
unfolding iput
iput_lem s s' hs i v e = elim (Bool-cases (is_last ip)) [
  | inr kept ↦
      (let q : ok (record s { inodes = set s.inodes i (one_less ip) }) ≡ ok s' = rw kept at e in
        let same : record s { inodes = set s.inodes i (one_less ip) } ≡ s' = cc q in
        rw kept (
          subst (λ (x : Store). IsTable x.inodes hs × (x.fs ≡ s.fs)) same
            (IsTable-drop s.inodes hs i (one_less ip) v fewer refl refl, refl)))
  | inl last ↦
      (let (r, e1, rest) = >>=-eq-ok (free_inode s.fs ip) _ (rw last at e) in
        let same : record { inodes = set s.inodes i (one_less r.0); fs = r.1 } ≡ s' = cc rest in
        let freed = free_inode-inode s.fs ip e1 in
        let table =
          IsTable-drop s.inodes hs i
            (one_less (record ip { addrs = no_addrs; size = 0; type = 0; valid = false })) v fewer
            refl refl in
        let here = inode_at-set s.inodes i i (one_less r.0) lt in
        let it : (i == i) ≡ true = ground arith in
        let (counted, off, freed_type) =
          (subst
            (λ (x : Store).
              IsTable x.inodes hs
              × ((inode_at x.inodes i).valid ≡ false)
              × ((inode_at x.inodes i).type ≡ 0))
            same
            (
              subst (λ j. IsTable (set s.inodes i (one_less j)) hs) freed table,
              rw (here, it) (sym (ap (λ (j : Inode). j.valid) freed)),
              rw (here, it) (sym (ap (λ (j : Inode). j.type) freed)),
            )) in
        rw last (counted, (off, freed_type)))
]
  where
    ip : Inode
    ip = inode_at s.inodes i

    now : ip.ref ≡ suc (count i hs)
    now = ground (arith, v.refs i)

    lt : i < length s.inodes
    lt = in_table s.inodes i (ground (arith, v.refs i))

    fewer : to_int (ip.ref + 2 ^ 32 - 1) ≡ count i hs
    fewer = ground (arith, now, count_le i hs, v.few)
