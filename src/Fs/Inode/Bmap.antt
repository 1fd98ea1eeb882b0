-- ===== src/Fs/Inode/Bmap.antt =====
-- `bmap` on the blocks of a file.
use fast_ipc.Base.{
  ℕ, ◌+◌, ◌-◌, ◌*◌, ◌<◌, ◌≤◌, ◌≡◌, ◌≢◌, inl, inr, refl, sym, ap, ◌∙◌, subst, arith, true, false,
  ltb, ltb→lt, ◌==◌, Bool-cases, Outcome, ok, panic, ◌>>=◌, >>=-eq-ok, get_or, set, set-get_or,
}
use fast_ipc.Memory.{load_le, store_le}
use fast_ipc.Fs.{Fs, put_block, balloc}
use fast_ipc.Fs.Inode.{Inode, ndirect, nindirect, maxfile, at_least, bmap_indirect, bmap}
use fast_ipc.Fs.Inode.New.{
  Mapped, Mapped-refl, balloc-Grows, keeps, direct_new, indirect_new, entry_new,
}
use fast_ipc.Fs.Inode.Map.{indirect, address, IsFile}

-- The part of `bmap` behind the indirect block.

bmap_indirect-Mapped :
    (f : Fs) (ip : Inode) (k0 a : ℕ) (f' : Fs)
    → IsFile f ip
    → indirect ip ≢ 0
    → k0 < nindirect
    → bmap_indirect f (indirect ip) k0 ≡ ok (a, f')
    → Mapped f ip (k0 + ndirect) a f' ip
unfolding bmap_indirect
bmap_indirect-Mapped f ip k0 a f' v there lt e =
    elim (Bool-cases (load_le (f.blocks (indirect ip)) (4 * k0) 4 == 0)) [
      | inl hole ↦
          (let ((n, f1), e1, last) = >>=-eq-ok (balloc f) _ (rw hole at e) in
            let same_a : n ≡ a = cc last in
            let same_f : put_block f1 (indirect ip)
                  (store_le (f1.blocks (indirect ip)) (4 * k0) 4 n)
                ≡ f' =
              cc last in
            rw (← same_f, ← same_a)
              (entry_new f ip n f1 v e1 k0 lt there (at_entry ∙ ground arith)))
      | inr mapped ↦
          (let same_a : load_le (f.blocks (indirect ip)) (4 * k0) 4 ≡ a = cc (rw mapped at e) in
            let same_f : f ≡ f' = cc (rw mapped at e) in
            rw (← same_f, ← same_a, ← at_entry)
              (Mapped-refl f ip (k0 + ndirect) v (λ q. ground (arith, at_entry, q, mapped))))
    ]
  where
    at_entry : address f ip (k0 + ndirect) ≡ load_le (f.blocks (indirect ip)) (4 * k0) 4
    at_entry =
        let high : ltb (k0 + ndirect) ndirect ≡ false = ground arith in
        let is_there : (indirect ip == 0) ≡ false = ground arith in
        let place : k0 + ndirect - ndirect ≡ k0 = omega arith in rw (high, is_there, place)

-- After the indirect block was made.
Mapped-indirect_new :
    (f : Fs) (ip : Inode) (n : ℕ) (f1 : Fs) (bn a : ℕ) (f' : Fs)
    → IsFile f ip
    → balloc f ≡ ok (n, f1)
    → indirect ip ≡ 0
    → bn < maxfile
    → let ip1 = record ip { addrs = set ip.addrs ndirect n } in
      Mapped f1 ip1 bn a f' ip1 → Mapped f ip bn a f' ip1
Mapped-indirect_new f ip n f1 bn a f' v e hole lt w =
    let (v1, made, law) = indirect_new f ip n f1 v e hole in
    record {
      file = w.file;
      nonzero = w.nonzero;
      here = w.here;
      rest = λ k l ne. w.rest k l ne ∙ law k l;
      old = λ ne. w.old (λ q. ne (sym (law bn lt) ∙ q)) ∙ law bn lt;
      same_sb = w.same_sb ∙ (balloc-Grows f ip n f1 v e).0.same_sb;
      contents = λ k l ne.
          ap (λ b. f'.blocks b) (sym (law k l))
          ∙ w.contents k l (λ q. ne (sym (law k l) ∙ q))
          ∙ ap (λ b. f1.blocks b) (law k l)
          ∙ keeps f ip n f1 v e k l ne;
      blank = λ q. w.blank (law bn lt ∙ q);
      inode = refl;
    }

direct-Mapped :
    (f : Fs) (ip : Inode) (bn a : ℕ) (ip' : Inode) (f' : Fs)
    → IsFile f ip
    → ltb bn ndirect ≡ true
    → ◌>>=◌ {Y = ℕ × Inode × Fs}
        (at_least f (get_or ip.addrs bn 0))
        (λ r. ok (r.0, record ip { addrs = set ip.addrs bn r.0 }, r.1))
      ≡ ok (a, ip', f')
    → Mapped f ip bn a f' ip'
direct-Mapped f ip bn a ip' f' v low e = elim (Bool-cases (get_or ip.addrs bn 0 == 0)) [
  | inl hole ↦
      (let ((n, f1), e1, last) = >>=-eq-ok (balloc f) _ (rw hole at e) in
        let same_a : n ≡ a = cc last in
        let same_f : f1 ≡ f' = cc last in
        let same_i : record ip { addrs = set ip.addrs bn n } ≡ ip' = cc last in
        rw (← same_f, ← same_a, ← same_i)
          (direct_new f ip n f1 v e1 bn (ltb→lt bn ndirect low) (at_entry ∙ ground arith)))
  | inr there ↦
      (let same_a : get_or ip.addrs bn 0 ≡ a = cc (rw there at e) in
        let same_f : f ≡ f' = cc (rw there at e) in
        let same_i : record ip { addrs = set ip.addrs bn (get_or ip.addrs bn 0) } ≡ ip' =
          cc (rw there at e) in
        let kept : record ip { addrs = set ip.addrs bn (get_or ip.addrs bn 0) } ≡ ip =
          ap (λ l. record ip { addrs = l }) (set-get_or ip.addrs bn 0) in
        subst (λ j. Mapped f ip bn a f' j) (sym kept ∙ same_i)
          (subst (λ g. Mapped f ip bn a g ip) same_f
            (subst (λ b. Mapped f ip bn b f ip) (at_entry ∙ same_a)
              (Mapped-refl f ip bn v (λ q. ground (arith, at_entry, q, there))))))
]
  where
    at_entry : address f ip bn ≡ get_or ip.addrs bn 0
    at_entry = rw low

behind-Mapped :
    (f : Fs) (ip : Inode) (bn a : ℕ) (ip' : Inode) (f' : Fs)
    → IsFile f ip
    → ndirect ≤ bn
    → bn - ndirect < nindirect
    → ◌>>=◌ {Y = ℕ × Inode × Fs} (at_least f (get_or ip.addrs ndirect 0)) (λ r.
      bmap_indirect r.1 r.0 (bn - ndirect) >>= λ s.
      ok (s.0, record ip { addrs = set ip.addrs ndirect r.0 }, s.1))
      ≡ ok (a, ip', f')
    → Mapped f ip bn a f' ip'
behind-Mapped f ip bn a ip' f' v high inside e =
    elim (Bool-cases (get_or ip.addrs ndirect 0 == 0)) [
      | inl hole ↦
          (let ((n, f1), e1, rest) = >>=-eq-ok (balloc f) _ (rw hole at e) in
            let ((b, f2), e2, last) = >>=-eq-ok (bmap_indirect f1 n (bn - ndirect)) _ rest in
            let empty : indirect ip ≡ 0 = ground arith in
            let (v1, made, law) = indirect_new f ip n f1 v e1 empty in
            let ne : n ≢ 0 = (balloc-Grows f ip n f1 v e1).0.may.0 in
            let ip1 : Inode = record ip { addrs = set ip.addrs ndirect n } in
            let step : Mapped f1 ip1 (bn - ndirect + ndirect) b f2 ip1 =
              bmap_indirect-Mapped f1 ip1 (bn - ndirect) b f2 v1 (λ q. ne (sym made ∙ q)) inside
                (ap (λ x. bmap_indirect f1 x (bn - ndirect)) made ∙ e2) in
            let same_a : b ≡ a = cc last in
            let same_f : f2 ≡ f' = cc last in
            let same_i : ip1 ≡ ip' = cc last in
            subst (λ j. Mapped f ip bn a f' j) same_i
              (subst (λ g. Mapped f ip bn a g ip1) same_f
                (subst (λ x. Mapped f ip bn x f2 ip1) same_a
                  (Mapped-indirect_new f ip n f1 bn b f2 v e1 empty (omega arith)
                    (subst (λ x. Mapped f1 ip1 x b f2 ip1) (omega arith) step)))))
      | inr there ↦
          (let ((b, f2), e2, last) =
              >>=-eq-ok (bmap_indirect f (get_or ip.addrs ndirect 0) (bn - ndirect)) _
                (rw there at e) in
            let step : Mapped f ip (bn - ndirect + ndirect) b f2 ip =
              bmap_indirect-Mapped f ip (bn - ndirect) b f2 v (ground arith) inside e2 in
            let kept : record ip { addrs = set ip.addrs ndirect (get_or ip.addrs ndirect 0) } ≡ ip =
              ap (λ l. record ip { addrs = l }) (set-get_or ip.addrs ndirect 0) in
            let same_a : b ≡ a = cc last in
            let same_f : f2 ≡ f' = cc last in
            let same_i : record ip { addrs = set ip.addrs ndirect (get_or ip.addrs ndirect 0) }
                ≡ ip' =
              cc last in
            subst (λ j. Mapped f ip bn a f' j) (sym kept ∙ same_i)
              (subst (λ g. Mapped f ip bn a g ip) same_f
                (subst (λ x. Mapped f ip bn x f2 ip) same_a
                  (subst (λ x. Mapped f ip x b f2 ip) (omega arith) step))))
    ]

-- Where `bmap` returns `a` for block `bn` of a file, the file is still one, with `a` as that block and
-- all other blocks as they were; a block that the file had is returned as it is, a new one holds
-- zeros; and no byte of the file's blocks has changed.
pub bmap_lem :
    (f : Fs) (ip : Inode) (bn a : ℕ) (ip' : Inode) (f' : Fs)
    → IsFile f ip
    → bmap f ip bn ≡ ok (a, ip', f')
    → (bn < maxfile) × Mapped f ip bn a f' ip'
unfolding bmap
bmap_lem f ip bn a ip' f' v e = elim (Bool-cases (ltb bn ndirect)) [
  | inl low ↦
      (omega (arith, ltb→lt bn ndirect low), direct-Mapped f ip bn a ip' f' v low (rw low at e))
  | inr high ↦ elim (Bool-cases (ltb (bn - ndirect) nindirect)) [
    | inl inside ↦ (
      ground arith,
      behind-Mapped f ip bn a ip' f' v (ground arith) (ltb→lt _ nindirect inside)
          (rw (high, inside) at e),
    )
    | inr past ↦ absurd (no_panic (rw (high, past) at e))
  ]
]
  where
    no_panic : ◌≡◌ {A = Outcome (ℕ × Inode × Fs)} panic (ok (a, ip', f')) → ⊥
    no_panic q = cc

-- `bmap` of a block that is there changes nothing.
pub bmap_there :
    (f : Fs) (ip : Inode) (bn : ℕ)
    → bn < maxfile
    → address f ip bn ≢ 0
    → bmap f ip bn ≡ ok (address f ip bn, ip, f)
unfolding bmap bmap_indirect
bmap_there f ip bn lt ne = elim (Bool-cases (ltb bn ndirect)) [
  | inl low ↦
      (let there : (get_or ip.addrs bn 0 == 0) ≡ false = ground (arith, ne, low) in
        rw (low, there)
          (λ i. ok (get_or ip.addrs bn 0, record ip { addrs = set-get_or ip.addrs bn 0 i }, f)))
  | inr high ↦ elim (Bool-cases (indirect ip == 0)) [
    | inl hole ↦ absurd (ne (rw (high, hole)))
    | inr there ↦
        (let inside : ltb (bn - ndirect) nindirect ≡ true = ground arith in
          let full : (load_le (f.blocks (indirect ip)) (4 * (bn - ndirect)) 4 == 0) ≡ false =
            ground (arith, ne, high, there) in
          rw (high, inside, there, full)
            (λ i. ok (
              load_le (f.blocks (indirect ip)) (4 * (bn - ndirect)) 4,
              record ip { addrs = set-get_or ip.addrs ndirect 0 i },
              f,
            )))
  ]
]
