-- ===== src/Fs/Icache/Locks.antt =====
-- The sleep locks of inodes, `ilock` and `iunlock` of kernel/fs.c.
use fast_ipc.Base.{
  ℕ, ◌^◌, ◌<◌, ◌≡◌, ◌≢◌, refl, sym, ap, ◌∙◌, arith, true, false, ltb, set, length, ok, panic, fault,
  >>=-eq-ok, get_or-set_self, get_or-set_ne, length-set, subst, ◌>>=◌,
}
use fast_ipc.Fs.{Fs}
use fast_ipc.Fs.Inode.{Inode, ilock, get_dinode}
use fast_ipc.Fs.Icache.{Store, no_inode, inode_at, ilock_at, iunlock}

ok-eq : {a b : Inode} → ok a ≡ ok b → a ≡ b
ok-eq e = cc

-- What `ilock` of an inode returns.
record IsLocked (ip ip' : Inode) : Type 0 where
  was_free : ip.locked ≡ false
  counted : ltb ip.ref 1 ≡ false
  locked : ip'.locked ≡ true
  loaded : ip'.valid ≡ true
  refs : ip'.ref ≡ ip.ref

ilock-IsLocked : (f : Fs) (ip : Inode) {ip' : Inode} → ilock f ip ≡ ok ip' → IsLocked ip ip'
unfolding ilock get_dinode
ilock-IsLocked f ip {ip'} e = record {
  was_free = ground arith;
  counted = ground arith;
  locked = ground arith;
  loaded = ground arith;
  refs = ground arith;
}

-- An inode whose lock is held, or is not.
ilock-held : (f : Fs) (ip : Inode) → ltb ip.ref 1 ≡ false → ip.locked ≡ true → ilock f ip ≡ fault
unfolding ilock
ilock-held f ip counted held = ground arith

iunlock-free : (s : Store) (i : ℕ) → (inode_at s.inodes i).locked ≡ false → iunlock s i ≡ panic
unfolding iunlock
iunlock-free s i e = rw e refl

-- The state after `iunlock`.
abbrev unlocked : Store → ℕ → Store
unlocked s i = record s {
  inodes = set s.inodes i (record (inode_at s.inodes i) { locked = false });
}

iunlock-held :
    (s : Store) (i : ℕ)
    → (inode_at s.inodes i).locked ≡ true
    → ltb (inode_at s.inodes i).ref 1 ≡ false
    → (inode_at s.inodes i).ref < 2 ^ 31
    → iunlock s i ≡ ok (unlocked s i)
unfolding iunlock
iunlock-held s i held counted few = ground (arith, held, counted, few)

store-eq : {a b : Store} → ok a ≡ ok b → b ≡ a
store-eq e = cc

-- Where `ilock` of an entry of the table returns, and the count of references is no negative `int`,
-- the lock was free and the inode is loaded. A second `ilock` before `iunlock` does not return.
-- `iunlock` succeeds and frees the lock, and a second `iunlock` panics. The two change no other inode
-- and nothing of the disk.
pub iunlock-ilock :
    (s : Store) (i : ℕ) {s' : Store}
    → i < length s.inodes
    → (inode_at s.inodes i).ref < 2 ^ 31
    → ilock_at s i ≡ ok s'
    → ((inode_at s.inodes i).locked ≡ false)
      × ((inode_at s'.inodes i).valid ≡ true)
      × (ilock_at s' i ≡ fault)
      × ((s'' : Store) × (iunlock s' i ≡ ok s'')
          × (iunlock s'' i ≡ panic)
          × (s''.fs ≡ s.fs)
          × (inode_at s''.inodes i ≡ record (inode_at s'.inodes i) { locked = false })
          × ((j : ℕ) → j ≢ i → inode_at s''.inodes j ≡ inode_at s.inodes j))
unfolding ilock_at
iunlock-ilock s i {s'} lt few e =
    let ip = inode_at s.inodes i in
    let (ip', a, b) = >>=-eq-ok (ilock s.fs ip) _ e in
    let k = ilock-IsLocked s.fs ip a in
    let is : s' ≡ record s { inodes = set s.inodes i ip' } = store-eq b in
    let table : s'.inodes ≡ set s.inodes i ip' = ap (λ (x : Store). x.inodes) is in
    let here : inode_at s'.inodes i ≡ ip' =
      ap (λ l. inode_at l i) table ∙ get_or-set_self s.inodes i ip' no_inode lt in
    let held : (inode_at s'.inodes i).locked ≡ true =
      ap (λ (x : Inode). x.locked) here ∙ k.locked in
    let refs : (inode_at s'.inodes i).ref ≡ ip.ref = ap (λ (x : Inode). x.ref) here ∙ k.refs in
    let counted : ltb (inode_at s'.inodes i).ref 1 ≡ false = ap (λ n. ltb n 1) refs ∙ k.counted in
    let lt' : i < length s'.inodes = rw (table, length-set s.inodes i ip') lt in
    let p = record (inode_at s'.inodes i) { locked = false } in
    let there : inode_at (unlocked s' i).inodes i ≡ p =
      get_or-set_self s'.inodes i p no_inode lt' in
    (
      k.was_free,
      ap (λ (x : Inode). x.valid) here ∙ k.loaded,
      ap (λ r. r >>= λ q. ok (record s' { inodes = set s'.inodes i q }))
          (ilock-held s'.fs (inode_at s'.inodes i) counted held),
      (
        unlocked s' i,
        iunlock-held s' i held counted (subst (λ n. n < 2 ^ 31) (sym refs) few),
        iunlock-free (unlocked s' i) i (ap (λ (x : Inode). x.locked) there),
        ap (λ (x : Store). x.fs) is,
        there,
        λ j ne.
            get_or-set_ne s'.inodes i j p no_inode (λ h. ne (sym h))
            ∙ ap (λ l. inode_at l j) table
            ∙ get_or-set_ne s.inodes i j ip' no_inode (λ h. ne (sym h)),
      ),
    )
