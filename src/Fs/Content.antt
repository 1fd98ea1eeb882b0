-- ===== src/Fs/Content.antt =====
-- `readi` and `writei` of kernel/fs.c. `either_copyout` and `either_copyin` copy to or from memory,
-- and may fail, so what they do is an argument. No `off += m` wraps, after the first tests.
pub mod Reads
pub mod Chunks
pub mod Writes
use fast_ipc.Base.{
  ℕ, zero, suc, ◌+◌, ◌-◌, ◌*◌, ◌/◌, ◌%◌, ◌^◌, List, [], ◌∷◌, ◌++◌, Option, none, some, Bool, true,
  false, ◌&&◌, ◌||◌, ltb, leb, ◌==◌, if◌then◌else◌, Outcome, ok, panic, fault, ◌>>=◌,
}
use fast_ipc.Memory.{Mem}
use fast_ipc.Fs.{Fs, put_block, bsize}
use fast_ipc.Fs.Inode.{Inode, bmap, iupdate, maxfile}

abbrev pub uint : ℕ → ℕ
uint n = n % 2 ^ 32

-- `min(n - tot, BSIZE - off%BSIZE)`
abbrev pub chunk : (left off : ℕ) → ℕ
chunk left off = if ltb left (bsize - off % bsize) then left else bsize - off % bsize

-- The `k` bytes of `m` from `o` on.
pub bytes_from : Mem → (o k : ℕ) → List ℕ
bytes_from m o zero = []
bytes_from m o (suc k) = m o ∷ bytes_from m (o + 1) k

-- The loop of `readi`, on fuel. `copies tot` is whether `either_copyout` succeeds for the chunk at
-- `dst + tot`. The result is the count, `none` for -1, the bytes delivered, and the state.
unfoldable pub read_from :
    (fuel tot n off : ℕ)
    → (copies : ℕ → Bool) → Inode
    → Fs
    → Outcome (Option ℕ × List ℕ × Inode × Fs)
read_from zero tot n off copies ip f = fault
read_from (suc fuel) tot n off copies ip f =
    let m = chunk (n - tot) off in
    let rest = bmap f ip (off / bsize) >>= λ r.
    if copies tot
    then (read_from fuel (tot + m) n (off + m) copies r.1 r.2 >>= λ s.
        ok (s.0, bytes_from (r.2.blocks r.0) (off % bsize) m ++ s.1, s.2, s.3))
    else ok (none, [], r.1, r.2) in
    if ltb tot n then rest else ok (some tot, [], ip, f)

unfoldable pub readi :
    Fs → Inode → (copies : ℕ → Bool) → (off n : ℕ) → Outcome (Option ℕ × List ℕ × Inode × Fs)
readi f ip copies off n =
    if ltb ip.size off || ltb (uint (off + n)) off
    then ok (some 0, [], ip, f)
    else let n' = if ltb ip.size (uint (off + n)) then ip.size - off else n in
      read_from (suc n') 0 n' off copies ip f

-- `k` bytes of the source, from its byte `tot` on, copied to `o`.
abbrev pub overwrite : Mem → (o tot k : ℕ) → (src : ℕ → ℕ) → Mem
overwrite m o tot k src x = if leb o x && ltb x (o + k) then src (tot + (x - o)) else m x

-- The loop of `writei`, on fuel. `copies tot` is how many bytes `either_copyin` copies of the chunk
-- at `src + tot`; it fails where these are not all. Then the buffer has them and is not logged.
unfoldable pub write_from :
    (fuel tot n off : ℕ) → (src copies : ℕ → ℕ) → Inode → Fs → Outcome (ℕ × ℕ × Inode × Fs)
write_from zero tot n off src copies ip f = fault
write_from (suc fuel) tot n off src copies ip f =
    let m = chunk (n - tot) off in
    let rest = bmap f ip (off / bsize) >>= λ r.
    if leb m (copies tot)
    then write_from fuel (tot + m) n (off + m) src copies r.1
        (put_block r.2 r.0 (overwrite (r.2.blocks r.0) (off % bsize) tot m src))
    else (let dirty = overwrite (r.2.blocks r.0) (off % bsize) tot (copies tot) src in
        ok (
          tot,
          off,
          r.1,
          record (r.2) { blocks = λ b. if b == r.0 then dirty else r.2.blocks b },
        )) in
    if ltb tot n then rest else ok (tot, off, ip, f)

unfoldable pub writei :
    Fs → Inode → (src copies : ℕ → ℕ) → (off n : ℕ) → Outcome (Option ℕ × Inode × Fs)
writei f ip src copies off n =
    if ltb ip.size off || ltb (uint (off + n)) off
    then ok (none, ip, f)
    else if ltb (maxfile * bsize) (uint (off + n))
    then ok (none, ip, f)
    else write_from (suc n) 0 n off src copies ip f >>= λ r.
        let ip' = if ltb r.2.size r.1 then record (r.2) { size = r.1 } else r.2 in
        ok (some r.0, ip', iupdate r.3 ip')
