-- ===== src/Fs/Content/Reads.antt =====
-- What `readi` delivers.
use fast_ipc.Base.{
  ℕ, zero, suc, ◌+◌, ◌-◌, ◌*◌, ◌/◌, ◌%◌, ◌^◌, ◌<◌, ◌≤◌, ◌≡◌, ◌≢◌, inl, inr, refl, sym, ap, ◌∙◌,
  arith, [], ◌∷◌, ◌++◌, Bool, true, false, some, ltb, ◌==◌, if◌then◌else◌, Bool-cases, ok,
}
use fast_ipc.Memory.{Mem}
use fast_ipc.Fs.{Fs, bsize}
use fast_ipc.Fs.Inode.{Inode, maxfile}
use fast_ipc.Fs.Inode.Map.{address}
use fast_ipc.Fs.Inode.Bmap.{bmap_there}
use fast_ipc.Fs.Content.{uint, chunk, bytes_from, read_from, readi}

-- Byte `x` of a file; one in a block that the file does not have is 0.

abbrev pub content : Fs → Inode → ℕ → ℕ
content f ip x =
    if address f ip (x / bsize) == 0 then 0 else f.blocks (address f ip (x / bsize)) (x % bsize)

-- Every block of the first `e` bytes is there.
abbrev pub Present : Fs → Inode → (e : ℕ) → Type 0
Present f ip e = (bn : ℕ) → bn * bsize < e → (bn < maxfile) × (address f ip bn ≢ 0)

bytes_from-append :
    (m : Mem) (o a b : ℕ) → bytes_from m o (a + b) ≡ bytes_from m o a ++ bytes_from m (o + a) b
unfolding bytes_from
bytes_from-append m o zero b =
    let right : o ≡ o + 0 = omega arith in
    let left : 0 + b ≡ b = omega arith in λ i. bytes_from m (right i) (left i)
bytes_from-append m o (suc a) b =
    let more : suc a + b ≡ suc (a + b) = omega arith in
    let place : o + 1 + a ≡ o + suc a = omega arith in
    ap (bytes_from m o) more
    ∙ ap (λ l. m o ∷ l) (bytes_from-append m (o + 1) a b)
    ∙ ap (λ q. m o ∷ (bytes_from m (o + 1) a ++ bytes_from m q b)) place

bytes_from-ext :
    (m m' : Mem) (o o' k : ℕ)
    → ((j : ℕ) → j < k → m (o + j) ≡ m' (o' + j))
    → bytes_from m o k ≡ bytes_from m' o' k
unfolding bytes_from
bytes_from-ext m m' o o' zero h = refl
bytes_from-ext m m' o o' (suc k) h =
    λ i. first i ∷ bytes_from-ext m m' (o + 1) (o' + 1) k (λ j lt. next j lt) i
  where
    first : m o ≡ m' o'
    first = ground (arith, h 0)

    next : (j : ℕ) → j < k → m (o + 1 + j) ≡ m' (o' + 1 + j)
    next j lt = ground (arith, h (suc j))

-- Within a block the bytes of the file are those of the block.
in_block :
    (f : Fs) (ip : Inode) (off k : ℕ)
    → address f ip (off / bsize) ≢ 0
    → off % bsize + k ≤ bsize
    → bytes_from (f.blocks (address f ip (off / bsize))) (off % bsize) k
      ≡ bytes_from (content f ip) off k
in_block f ip off k ne fits =
    bytes_from-ext (f.blocks (address f ip (off / bsize))) (content f ip) (off % bsize) off k at
  where
    at :
        (j : ℕ)
        → j < k
        → f.blocks (address f ip (off / bsize)) (off % bsize + j) ≡ content f ip (off + j)
    at j lt =
        let block : (off + j) / bsize ≡ off / bsize = omega arith in
        let place : (off + j) % bsize ≡ off % bsize + j = omega arith in
        let there : (address f ip (off / bsize) == 0) ≡ false = ground arith in
        rw (block, place, there)

-- A chunk is not empty, fits the block and what is left.
pub chunk_lem :
    (left off : ℕ)
    → 0 < left
    → (0 < chunk left off) × (chunk left off ≤ left) × (off % bsize + chunk left off ≤ bsize)
chunk_lem left off lt = ground arith

read_from-bytes :
    (fuel tot n off : ℕ) (copies : ℕ → Bool) (ip : Inode) (f : Fs)
    → tot ≤ n
    → n - tot ≤ fuel
    → Present f ip (off + (n - tot))
    → ((k : ℕ) → copies k ≡ true)
    → read_from (suc fuel) tot n off copies ip f
      ≡ ok (some n, bytes_from (content f ip) off (n - tot), ip, f)
unfolding read_from bytes_from
read_from-bytes zero tot n off copies ip f le enough present all =
    let done : ltb tot n ≡ false = ground arith in
    let same : tot ≡ n = omega arith in
    let none_left : n - tot ≡ 0 = omega arith in
    rw (done, none_left) (λ i. ok (some (same i), [], ip, f))
read_from-bytes (suc fuel) tot n off copies ip f le enough present all =
    elim (Bool-cases (ltb tot n)) [
      | inr done ↦
          (let same : tot ≡ n = ground arith in
            let none_left : n - tot ≡ 0 = ground arith in
            rw (done, none_left) (λ i. ok (some (same i), [], ip, f)))
      | inl more ↦
          (let left : 0 < n - tot = ground arith in
            let m = chunk (n - tot) off in
            let (pos, le_left, fits) = chunk_lem (n - tot) off left in
            let (lt, ne) = present (off / bsize) (omega arith) in
            let less : n - (tot + m) ≡ n - tot - m = omega arith in
            let rest =
              read_from-bytes fuel (tot + m) n (off + m) copies ip f (omega arith) (omega arith)
                (λ bn l. present bn (omega arith)) all in
            let sum : n - tot ≡ m + (n - (tot + m)) = omega arith in
            rw
              (
                more,
                bmap_there f ip (off / bsize) lt ne,
                all tot,
                rest,
                in_block f ip off m ne fits,
              )
              (λ i. ok (
                some n,
                (sym (bytes_from-append (content f ip) off m (n - (tot + m)))
                      ∙ ap (bytes_from (content f ip) off) (sym sum))
                    i,
                ip,
                f,
              )))
    ]

-- Where every `either_copyout` succeeds, and `off`, the size and the end that is asked for fit into a
-- `uint`, `readi` of a file all of whose blocks are there delivers its bytes from `off` on, as many as
-- are asked for and there, returns their number, and changes nothing; past the end it returns 0.
pub readi_lem :
    (f : Fs) (ip : Inode) (copies : ℕ → Bool) (off n : ℕ)
    → Present f ip ip.size
    → ((k : ℕ) → copies k ≡ true)
    → ip.size < 2 ^ 32
    → off < 2 ^ 32
    → off + n < 2 ^ 32
    → let k = if ltb (ip.size - off) n then ip.size - off else n in
      readi f ip copies off n ≡ ok (some k, bytes_from (content f ip) off k, ip, f)
unfolding readi bytes_from
readi_lem f ip copies off n present all small low fits = elim (Bool-cases (ltb ip.size off)) [
  | inl past ↦
      (let none_left : 0 ≡ (if ltb (ip.size - off) n then ip.size - off else n) = ground arith in
        rw past (λ i. ok (some (none_left i), bytes_from (content f ip) off (none_left i), ip, f)))
  | inr inside ↦
      (let whole : uint (off + n) ≡ off + n = omega arith in
        let no_wrap : ltb (off + n) off ≡ false = ground arith in
        let count : (if ltb ip.size (off + n) then ip.size - off else n)
            ≡ (if ltb (ip.size - off) n then ip.size - off else n) =
          ground arith in
        let k = if ltb (ip.size - off) n then ip.size - off else n in
        let fits_size : off + (k - 0) ≤ ip.size = ground arith in
        let run =
          read_from-bytes k 0 k off copies ip f (omega arith) (omega arith)
            (λ bn l. present bn (omega arith)) all in
        let same : k - 0 ≡ k = omega arith in
        rw (inside, whole, no_wrap, count)
          (run ∙ ap (λ q. ok (some k, bytes_from (content f ip) off q, ip, f)) same))
]
