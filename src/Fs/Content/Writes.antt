-- ===== src/Fs/Content/Writes.antt =====
-- What `writei` leaves of a file.
use fast_ipc.Base.{
  ℕ, zero, suc, ◌+◌, ◌-◌, ◌*◌, ◌/◌, ◌<◌, ◌≤◌, ◌≡◌, inl, inr, refl, sym, ap, ◌∙◌, subst, arith,
  false, Option, some, ◌||◌, ◌&&◌, ltb, leb, if◌then◌else◌, Bool-cases, Outcome, ok, panic, ◌⊎◌,
  Outcome-cases, >>=-eq-ok,
}
use fast_ipc.Fs.Ends.{writei_ends}
use fast_ipc.Fs.{Fs, bsize}
use fast_ipc.Fs.Inode.{Inode, maxfile, iupdate, iblock, put_dinode, dinode_at}
use fast_ipc.Fs.Inode.Map.{IsFile}
use fast_ipc.Fs.Content.{uint, chunk, write_from, writei}
use fast_ipc.Fs.Content.Reads.{content, chunk_lem}
use fast_ipc.Fs.Content.Chunks.{Wrote, one_round, Wrote-nothing, written-IsFile, content_out}

-- The rounds that are left.

write_from-Wrote :
    (fuel tot n off : ℕ) (src copies : ℕ → ℕ) (ip : Inode) (f : Fs) {t o : ℕ} {ip' : Inode}
    {f' : Fs}
    → tot ≤ n
    → n - tot ≤ fuel
    → off + (n - tot) ≤ maxfile * bsize
    → ((k : ℕ) → bsize ≤ copies k)
    → IsFile f ip
    → write_from (suc fuel) tot n off src copies ip f ≡ ok (t, o, ip', f')
    → (t ≡ n) × (o ≡ off + (n - tot)) × Wrote f ip tot n off src f' ip'
unfolding write_from
write_from-Wrote zero tot n off src copies ip f le enough fits all v e =
    let done : ltb tot n ≡ false = ground arith in
    Wrote-nothing tot n off src ip f (omega arith) v (rw done at e)
write_from-Wrote (suc fuel) tot n off src copies ip f {t} {o} {ip'} {f'} le enough fits all v e =
    elim (Bool-cases (ltb tot n)) [
      | inr done ↦ Wrote-nothing tot n off src ip f (ground arith) v (rw done at e)
      | inl more ↦
          (let m = chunk (n - tot) off in
            let (pos, le_left, within) = chunk_lem (n - tot) off (ground arith) in
            one_round tot n off m src copies ip f v fits pos le_left within (all tot)
              (write_from (suc fuel) (tot + m) n (off + m) src copies)
              (λ ip1 f1 file run.
                write_from-Wrote fuel (tot + m) n (off + m) src copies ip1 f1 (omega arith)
                  (omega arith) (omega arith) all file run)
              (rw more at e))
    ]

-- The size is no part of the map of a file.
IsFile-resize : (f : Fs) (ip : Inode) (s : ℕ) → IsFile f ip → IsFile f (record ip { size = s })
IsFile-resize f ip s v = record {
  count = v.count;
  free = v.free;
  in_use = v.in_use;
  off_map = v.off_map;
  apart = v.apart;
  indirect_used = v.indirect_used;
  indirect_apart = v.indirect_apart;
  inode_used = v.inode_used;
  inode_apart = v.inode_apart;
  inode_indirect = v.inode_indirect;
}

-- The inode's block is none of the file's.
iupdate-IsFile :
    (f : Fs) (ip : Inode)
    → IsFile f ip
    → IsFile (iupdate f ip) ip
      × ((x : ℕ) → x / bsize < maxfile → content (iupdate f ip) ip x ≡ content f ip x)
unfolding iupdate
iupdate-IsFile f ip v =
    let a = iblock f ip.inum in
    let m = put_dinode (f.blocks a) (dinode_at ip.inum) ip in
    (
      written-IsFile f ip a m v v.inode_used.1 v.inode_indirect,
      λ x lt.
          content_out f ip a m v v.inode_used.1 v.inode_indirect x (v.inode_apart (x / bsize) lt),
    )

abbrev pub larger : ℕ → ℕ → ℕ
larger a b = if ltb a b then b else a

-- What `writei` does after the loop.
abbrev resized : Inode → (off : ℕ) → Inode
resized ip off = if ltb ip.size off then record ip { size = off } else ip

resized-IsFile :
    (f : Fs) (ip : Inode) (off : ℕ)
    → IsFile f ip
    → IsFile f (resized ip off)
      × ((resized ip off).size ≡ larger ip.size off)
      × ((x : ℕ) → content f (resized ip off) x ≡ content f ip x)
resized-IsFile f ip off v = elim (Bool-cases (ltb ip.size off)) [
  | inl more ↦ rw more (IsFile-resize f ip off v, refl, λ x. refl)
  | inr kept ↦ rw kept (v, refl, λ x. refl)
]

-- What `writei` of `n` bytes leaves.
abbrev pub Written : Fs → Inode → (src : ℕ → ℕ) → (off n : ℕ) → Inode → Fs → Type 0
Written f ip src off n ip' f' =
    IsFile f' ip'
    × (ip'.size ≡ larger ip.size (off + n))
    × ((x : ℕ)
        → x / bsize < maxfile
        → content f' ip' x
          ≡ (if leb off x && ltb x (off + n) then src (x - off) else content f ip x))

Wrote-Written :
    (f : Fs) (ip : Inode) (src : ℕ → ℕ) (off n : ℕ) (f2 : Fs) (ip2 : Inode)
    → Wrote f ip 0 n off src f2 ip2
    → Written f ip src off n (resized ip2 (off + n)) (iupdate f2 (resized ip2 (off + n)))
Wrote-Written f ip src off n f2 ip2 w =
    let (sound, size, same) = resized-IsFile f2 ip2 (off + n) w.file in
    let (file, kept) = iupdate-IsFile f2 (resized ip2 (off + n)) sound in
    let count : n - 0 ≡ n = omega arith in
    let first : (x : ℕ) → 0 + (x - off) ≡ x - off = λ x. omega arith in
    let old : ip2.size ≡ ip.size = ap (λ (j : Inode). j.size) w.inode in
    (
      file,
      size ∙ ap (λ s. larger s (off + n)) old,
      λ x lt.
          kept x lt
          ∙ same x
          ∙ w.bytes x lt
          ∙ (λ i. if leb off x && ltb x (off + count i) then src (first x i) else content f ip x),
    )

-- Where it returns.
writei-Written :
    (f : Fs) (ip : Inode) (src copies : ℕ → ℕ) (off n : ℕ) {r : Option ℕ} {ip' : Inode} {f' : Fs}
    → IsFile f ip
    → off ≤ ip.size
    → off + n ≤ maxfile * bsize
    → ((k : ℕ) → bsize ≤ copies k)
    → writei f ip src copies off n ≡ ok (r, ip', f')
    → (r ≡ some n) × Written f ip src off n ip' f'
unfolding writei
writei-Written f ip src copies off n {r} {ip'} {f'} v inside fits all e =
    let whole : uint (off + n) ≡ off + n = omega arith in
    let starts : (ltb ip.size off || ltb (off + n) off) ≡ false = ground arith in
    let small : ltb (maxfile * bsize) (off + n) ≡ false = ground arith in
    returned
      (>>=-eq-ok (write_from (suc n) 0 n off src copies ip f) _ (rw (whole, starts, small) at e))
  where
    returned :
        (r1 : ℕ × ℕ × Inode × Fs) × (write_from (suc n) 0 n off src copies ip f ≡ ok r1)
          × ◌≡◌ {A = Outcome (Option ℕ × Inode × Fs)}
              (ok (some r1.0, resized r1.2 r1.1, iupdate r1.3 (resized r1.2 r1.1)))
              (ok (r, ip', f'))
        → (r ≡ some n) × Written f ip src off n ip' f'
    returned ((t, o, ip2, f2), e2, rest) =
        let (t_is, o_is, w) =
          write_from-Wrote n 0 n off src copies ip f (omega arith) (omega arith) (omega arith) all v
            e2 in
        let end : o ≡ off + n = o_is ∙ omega arith in
        let e0 : some t ≡ r = cc rest in
        let e1 : resized ip2 o ≡ ip' = cc rest in
        let e3 : iupdate f2 (resized ip2 o) ≡ f' = cc rest in
        let made = Wrote-Written f ip src off n f2 ip2 w in
        (
          sym e0 ∙ ap (λ k. some k) t_is,
          subst (λ g. Written f ip src off n ip' g)
              (ap (λ k. iupdate f2 (resized ip2 k)) (sym end) ∙ e3)
              (subst (λ j. Written f ip src off n j (iupdate f2 (resized ip2 (off + n))))
                (ap (resized ip2) (sym end) ∙ e1) made),
        )

-- `writei` of `n` bytes at an offset within a file whose map is sound, with room below the largest size
-- and a copy that does not fail, panics or returns `n`. Where it returns, the file's map is sound again;
-- the size grows to the end of what is written and never shrinks; the bytes of the range are those of the
-- source, and all others of the file are what they were.
pub writei_lem :
    (f : Fs) (ip : Inode) (src copies : ℕ → ℕ) (off n : ℕ)
    → IsFile f ip
    → off ≤ ip.size
    → off + n ≤ maxfile * bsize
    → ((k : ℕ) → bsize ≤ copies k)
    → (writei f ip src copies off n ≡ panic)
      ⊎ ((ip' : Inode) × (f' : Fs) × (writei f ip src copies off n ≡ ok (some n, ip', f'))
          × Written f ip src off n ip' f')
writei_lem f ip src copies off n v inside fits all =
    elim (Outcome-cases (writei f ip src copies off n)) [
      | inr (inl stops) ↦ inl stops
      | inr (inr out) ↦ absurd (writei_ends f ip src copies off n out)
      | inl ((r, ip', f'), e) ↦
          (let (count, written) = writei-Written f ip src copies off n v inside fits all e in
            inr (ip', f', e ∙ (λ t. ok (count t, ip', f')), written))
    ]
