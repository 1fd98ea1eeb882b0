-- ===== src/Fs/Content/Chunks.antt =====
-- What one round of the loop of `writei` leaves of a file.
use fast_ipc.Base.{
  ℕ, ◌+◌, ◌-◌, ◌*◌, ◌/◌, ◌%◌, ◌<◌, ◌≤◌, ◌≡◌, ◌≢◌, inl, inr, refl, sym, ap, ◌∙◌, subst, arith, true,
  false, ◌&&◌, ltb, leb, ltb→lt, ◌==◌, if◌then◌else◌, Bool-cases, Outcome, ok, ◌>>=◌, >>=-eq-ok,
}
use fast_ipc.Memory.{Mem}
use fast_ipc.Fs.{Fs, put_block, bsize, bits_per_block, bblock}
use fast_ipc.Fs.Bits.{has_bit}
use fast_ipc.Fs.Alloc.{busy, OffMap}
use fast_ipc.Fs.Inode.{Inode, ndirect, maxfile, bmap, iblock}
use fast_ipc.Fs.Inode.Map.{indirect, address, IsFile}
use fast_ipc.Fs.Inode.New.{Mapped}
use fast_ipc.Fs.Inode.Bmap.{bmap_lem}
use fast_ipc.Fs.Content.{overwrite}
use fast_ipc.Fs.Content.Reads.{content}

-- `bmap` changes no byte of the file.

pub content-Mapped :
    (f : Fs) (ip : Inode) (bn a : ℕ) (f' : Fs) (ip' : Inode) (x : ℕ)
    → Mapped f ip bn a f' ip'
    → x / bsize < maxfile
    → content f' ip' x ≡ content f ip x
content-Mapped f ip bn a f' ip' x w lt = elim (Bool-cases (x / bsize == bn)) [
  | inl here ↦
      (let q : x / bsize ≡ bn = ground arith in
        let there : (a == 0) ≡ false = ground (arith, w.nonzero) in
        elim (Bool-cases (address f ip bn == 0)) [
          | inl hole ↦
              rw (q, w.here, there, hole) (w.blank (ground arith) (x % bsize) (omega arith))
          | inr old ↦
              (let ne : address f ip bn ≢ 0 = ground arith in
                rw (q, w.here, there, old, w.old ne)
                  (ap (λ (m : Mem). m (x % bsize)) (w.contents bn (rw q at lt) ne)))
        ])
  | inr elsewhere ↦
      (let same = w.rest (x / bsize) lt (ground arith) in
        rw same (elim (Bool-cases (address f ip (x / bsize) == 0)) [
          | inl hole ↦ rw hole
          | inr old ↦
              rw old (ap (λ (m : Mem). m (x % bsize)) (w.contents (x / bsize) lt (ground arith)))
        ]))
]

-- A block is written that is neither of the map nor the indirect block.
module _ (f : Fs) (ip : Inode) (a : ℕ) (m : Mem) (v : IsFile f ip) (off_map : OffMap f a)
    (apart : indirect ip ≢ 0 → indirect ip ≢ a) where
  abbrev pub written : Fs
  written = put_block f a m

  written_else : (b : ℕ) → b ≢ a → written.blocks b ≡ f.blocks b
  written_else b ne = let no : (b == a) ≡ false = ground arith in rw no

  same_address : (k : ℕ) → address written ip k ≡ address f ip k
  same_address k = elim (Bool-cases (ltb k ndirect)) [
    | inl low ↦ rw low
    | inr high ↦ elim (Bool-cases (indirect ip == 0)) [
      | inl hole ↦ rw (high, hole)
      | inr there ↦
          (let ne : indirect ip ≢ 0 = ground arith in
            rw (high, there, written_else (indirect ip) (apart ne)))
    ]
  ]

  same_used : (j : ℕ) → busy written j ≡ busy f j
  same_used j = elim (Bool-cases (ltb j f.sb.size)) [
    | inr past ↦ rw past
    | inl inside ↦ rw inside (
        ap (λ (q : Mem). has_bit (q (j % bits_per_block / 8)) (j % 8))
          (written_else (bblock f j) (off_map j (ltb→lt j f.sb.size inside))))
  ]

  pub written-IsFile : IsFile written ip
  written-IsFile = record {
    count = v.count;
    free = λ n e. v.free n (sym (same_used n) ∙ e);
    in_use = λ k lt ne.
        rw (same_address k)
          (same_used (address f ip k) ∙ v.in_use k lt (rw (same_address k) at ne));
    off_map = λ k lt ne. rw (same_address k) (v.off_map k lt (rw (same_address k) at ne));
    apart = λ j k lj lk ne e.
        v.apart j k lj lk (rw (same_address j) at ne) (rw (same_address j, same_address k) at e);
    indirect_used =
        λ ne. (same_used (indirect ip) ∙ (v.indirect_used ne).0, (v.indirect_used ne).1);
    indirect_apart =
        λ k lt ne. rw (same_address k) (v.indirect_apart k lt (rw (same_address k) at ne));
    inode_used = (same_used (iblock f ip.inum) ∙ v.inode_used.0, v.inode_used.1);
    inode_apart = λ k lt ne. rw (same_address k) (v.inode_apart k lt (rw (same_address k) at ne));
    inode_indirect = v.inode_indirect;
  }

  -- The bytes of the file then: where the block is the file's, and where it is not.
  content_in :
      (bn x : ℕ)
      → address f ip bn ≡ a
      → a ≢ 0
      → bn < maxfile
      → x / bsize < maxfile
      → content written ip x ≡ (if x / bsize == bn then m (x % bsize) else content f ip x)
  content_in bn x at ne lb lx = elim (Bool-cases (x / bsize == bn)) [
    | inl here ↦
        (let q : x / bsize ≡ bn = ground arith in
          let there : (a == 0) ≡ false = ground arith in
          let it : (a == a) ≡ true = ground arith in
          rw (here, same_address (x / bsize), q, at, there, it))
    | inr elsewhere ↦
        (let other : address f ip (x / bsize) ≢ 0 → address f ip (x / bsize) ≢ a = λ h e.
            absurd (ground (arith, v.apart (x / bsize) bn lx lb h (e ∙ sym at), elsewhere)) in
          rw (elsewhere, same_address (x / bsize))
            (elim (Bool-cases (address f ip (x / bsize) == 0)) [
              | inl hole ↦ rw hole
              | inr old ↦ rw old (
                  ap (λ (q : Mem). q (x % bsize))
                    (written_else (address f ip (x / bsize)) (other (ground arith))))
            ]))
  ]

  pub content_out :
      (x : ℕ)
      → (address f ip (x / bsize) ≢ 0 → address f ip (x / bsize) ≢ a)
      → content written ip x ≡ content f ip x
  content_out x other =
      rw (same_address (x / bsize)) (elim (Bool-cases (address f ip (x / bsize) == 0)) [
        | inl hole ↦ rw hole
        | inr old ↦ rw old (
            ap (λ (q : Mem). q (x % bsize))
              (written_else (address f ip (x / bsize)) (other (ground arith))))
      ])

-- What the loop leaves.
pub record Wrote (f : Fs) (ip : Inode) (tot n off : ℕ) (src : ℕ → ℕ) (f' : Fs) (ip' : Inode)
    : Type 0 where
  pub file : IsFile f' ip'
  pub same_sb : f'.sb ≡ f.sb
  pub inode : ip' ≡ record ip { addrs = ip'.addrs }
  pub bytes :
      (x : ℕ)
      → x / bsize < maxfile
      → content f' ip' x
        ≡ (if leb off x && ltb x (off + (n - tot)) then src (tot + (x - off)) else content f ip x)

-- One chunk.
module _ (f : Fs) (ip : Inode) (tot off m : ℕ) (src : ℕ → ℕ) (a : ℕ) (f1 : Fs) (ip1 : Inode)
    (w : Mapped f ip (off / bsize) a f1 ip1) (lt : off / bsize < maxfile)
    (fits : off % bsize + m ≤ bsize) where
  abbrev buffer : Mem
  buffer = overwrite (f1.blocks a) (off % bsize) tot m src

  one_chunk :
      IsFile (put_block f1 a buffer) ip1
      × ((x : ℕ)
          → x / bsize < maxfile
          → content (put_block f1 a buffer) ip1 x
            ≡ (if leb off x && ltb x (off + m) then src (tot + (x - off)) else content f ip x))
  one_chunk = (written-IsFile f1 ip1 a buffer w.file off_map apart, bytes)
    where
      there : address f1 ip1 (off / bsize) ≢ 0
      there e = w.nonzero (sym w.here ∙ e)

      off_map : OffMap f1 a
      off_map = subst (λ b. OffMap f1 b) w.here (w.file.off_map (off / bsize) lt there)

      apart : indirect ip1 ≢ 0 → indirect ip1 ≢ a
      apart ne e = w.file.indirect_apart (off / bsize) lt there (w.here ∙ sym e)

      bytes :
          (x : ℕ)
          → x / bsize < maxfile
          → content (put_block f1 a buffer) ip1 x
            ≡ (if leb off x && ltb x (off + m) then src (tot + (x - off)) else content f ip x)
      bytes x lx =
          content_in f1 ip1 a buffer w.file off_map apart (off / bsize) x w.here w.nonzero lt lx
          ∙ elim (Bool-cases (x / bsize == off / bsize)) [
            | inl here ↦
                (let q : x / bsize ≡ off / bsize = ground arith in
                  let there_bit : (a == 0) ≡ false = ground (arith, w.nonzero) in
                  let old : f1.blocks a (x % bsize) ≡ content f1 ip1 x =
                    rw (q, w.here, there_bit) in
                  let test : (leb (off % bsize) (x % bsize) && ltb (x % bsize) (off % bsize + m))
                      ≡ (leb off x && ltb x (off + m)) =
                    ground arith in
                  let index : x % bsize - off % bsize ≡ x - off = omega arith in
                  rw (here, old ∙ content-Mapped f ip (off / bsize) a f1 ip1 x w lx, test, index))
            | inr elsewhere ↦
                (let test : (leb off x && ltb x (off + m)) ≡ false = ground arith in
                  rw (elsewhere, test) (content-Mapped f ip (off / bsize) a f1 ip1 x w lx))
          ]

-- The range of two chunks in a row.
two_ranges :
    (tot n off m x a b c : ℕ)
    → tot + m ≤ n
    → (leb (off + m) x ≡ true → a ≡ b)
    → (if leb (off + m) x && ltb x (off + m + (n - (tot + m)))
        then a
        else if leb off x && ltb x (off + m)
        then b
        else c)
      ≡ (if leb off x && ltb x (off + (n - tot)) then b else c)
two_ranges tot n off m x a b c le same = ground arith

pub Wrote-nothing :
    (tot n off : ℕ) (src : ℕ → ℕ) (ip : Inode) (f : Fs) {t o : ℕ} {ip' : Inode} {f' : Fs}
    → tot ≡ n
    → IsFile f ip
    → ◌≡◌ {A = Outcome (ℕ × ℕ × Inode × Fs)} (ok (tot, off, ip, f)) (ok (t, o, ip', f'))
    → (t ≡ n) × (o ≡ off + (n - tot)) × Wrote f ip tot n off src f' ip'
Wrote-nothing tot n off src ip f {t} {o} {ip'} {f'} q v e =
    let e0 : tot ≡ t = cc e in
    let e1 : off ≡ o = cc e in
    let e2 : ip ≡ ip' = cc e in
    let e3 : f ≡ f' = cc e in
    (
      sym e0 ∙ q,
      omega arith,
      subst (λ j. Wrote f ip tot n off src f' j) e2
          (subst (λ g. Wrote f ip tot n off src g ip) e3
            (record { file = v; same_sb = refl; inode = refl; bytes = λ x lx. ground arith })),
    )

-- The chunks after this one.
Wrote-chunk :
    (f : Fs) (ip : Inode) (tot n off m : ℕ) (src : ℕ → ℕ) (f1 : Fs) (ip1 : Inode) (f' : Fs)
    (ip' : Inode)
    → tot + m ≤ n
    → f1.sb ≡ f.sb
    → ip1 ≡ record ip { addrs = ip1.addrs }
    → ((x : ℕ)
        → x / bsize < maxfile
        → content f1 ip1 x
          ≡ (if leb off x && ltb x (off + m) then src (tot + (x - off)) else content f ip x))
    → Wrote f1 ip1 (tot + m) n (off + m) src f' ip'
    → Wrote f ip tot n off src f' ip'
Wrote-chunk f ip tot n off m src f1 ip1 f' ip' le sb inode bytes later = record {
  file = later.file;
  same_sb = later.same_sb ∙ sb;
  inode = later.inode ∙ ap (λ (j : Inode). record j { addrs = ip'.addrs }) inode;
  bytes = λ x lx.
      later.bytes x lx
      ∙ ap
          (λ c.
            if leb (off + m) x && ltb x (off + m + (n - (tot + m)))
            then src (tot + m + (x - (off + m)))
            else c)
          (bytes x lx)
      ∙ two_ranges tot n off m x (src (tot + m + (x - (off + m)))) (src (tot + (x - off)))
          (content f ip x) le (λ h. ap src (ground arith));
}

-- One round of the loop, with the chunk and the rounds after it.
module _ (tot n off m : ℕ) (src copies : ℕ → ℕ) (ip : Inode) (f : Fs) (v : IsFile f ip)
    (fits : off + (n - tot) ≤ maxfile * bsize) (pos : 0 < m) (le_left : m ≤ n - tot)
    (within : off % bsize + m ≤ bsize) (all : bsize ≤ copies tot) where
  abbrev pub Done : ℕ → ℕ → Fs → Inode → (t o : ℕ) → Fs → Inode → Type 0
  Done tot' off' f1 ip1 t o f' ip' =
      (t ≡ n) × (o ≡ off' + (n - tot')) × Wrote f1 ip1 tot' n off' src f' ip'

  pub one_round :
      (next : Inode → Fs → Outcome (ℕ × ℕ × Inode × Fs)) {t o : ℕ} {ip' : Inode} {f' : Fs}
      → ((ip1 : Inode) (f1 : Fs)
          → IsFile f1 ip1
          → next ip1 f1 ≡ ok (t, o, ip', f')
          → Done (tot + m) (off + m) f1 ip1 t o f' ip')
      → (bmap f ip (off / bsize) >>= λ r.
          if leb m (copies tot)
          then next r.1 (put_block r.2 r.0 (overwrite (r.2.blocks r.0) (off % bsize) tot m src))
          else (let dirty = overwrite (r.2.blocks r.0) (off % bsize) tot (copies tot) src in
              ok (
                tot,
                off,
                r.1,
                record (r.2) { blocks = λ b. if b == r.0 then dirty else r.2.blocks b },
              )))
        ≡ ok (t, o, ip', f')
      → Done tot off f ip t o f' ip'
  one_round next {t} {o} {ip'} {f'} later run =
      let ((a, ip1, f1), e1, rest) = >>=-eq-ok (bmap f ip (off / bsize)) _ run in
      let (lt, w) = bmap_lem f ip (off / bsize) a ip1 f1 v e1 in
      let whole : leb m (copies tot) ≡ true = ground arith in
      let f2 = put_block f1 a (overwrite (f1.blocks a) (off % bsize) tot m src) in
      let (file, bytes) = one_chunk f ip tot off m src a f1 ip1 w lt within in
      let (t_is, o_is, left) = later ip1 f2 file (rw whole at rest) in
      (
        t_is,
        o_is ∙ omega arith,
        Wrote-chunk f ip tot n off m src f2 ip1 f' ip' (omega arith) w.same_sb w.inode bytes left,
      )
