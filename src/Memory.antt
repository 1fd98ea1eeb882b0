-- ===== src/Memory.antt =====
-- The byte-addressed memory that the kernel sees through its direct map, its 64-bit words, and the
-- copying routines of kernel/string.c and kernel/vm.c over it.
-- An address is a number; the memory is one function from addresses to bytes, so two pointers
-- alias exactly when they are equal. Addresses do not wrap: physical memory ends far below 2^64.
pub mod Words
pub mod Moves
mod Tests
use fast_ipc.Base.{
  ℕ, zero, suc, ◌+◌, ◌-◌, ◌*◌, ◌/◌, ◌%◌, Bool, ◌&&◌, not, ltb, leb, ◌==◌, if◌then◌else◌,
}

abbrev pub Mem : Type 0
Mem = ℕ → ℕ

-- `*(char*)a = v`
unfoldable pub store8 : Mem → ℕ → ℕ → Mem
store8 m a v x = if x == a then v else m x

-- The byte `k` of a little-endian word.
unfoldable pub byte_of : ℕ → ℕ → ℕ
byte_of v zero = v % 256
byte_of v (suc k) = byte_of (v / 256) k

-- The little-endian number in the `n` bytes from `a` on.
unfoldable pub load_le : Mem → ℕ → ℕ → ℕ
load_le m a zero = 0
load_le m a (suc n) = m a + 256 * load_le m (a + 1) n

unfoldable pub store_le : Mem → ℕ → ℕ → ℕ → Mem
store_le m a n v x = if leb a x && ltb x (a + n) then byte_of v (x - a) else m x

-- `*(uint64*)a`
unfoldable pub load64 : Mem → ℕ → ℕ
load64 m a = load_le m a 8

-- `*(uint64*)a = v`
unfoldable pub store64 : Mem → ℕ → ℕ → Mem
store64 m a v = store_le m a 8 v

-- `memset` of kernel/string.c: byte `i` of `n`, in ascending order. The `int` is cut to a `char`.
unfoldable pub memset_from : Mem → ℕ → ℕ → ℕ → ℕ → Mem
memset_from m dst c i zero = m
memset_from m dst c i (suc left) = memset_from (store8 m (dst + i) (c % 256)) dst c (i + 1) left

unfoldable pub memset : Mem → ℕ → ℕ → ℕ → Mem
unfolding memset_from
memset m dst c n = memset_from m dst c 0 n

-- `while(n-- > 0) *d++ = *s++;`
unfoldable pub copy_up : Mem → ℕ → ℕ → ℕ → Mem
copy_up m d s zero = m
copy_up m d s (suc n) = copy_up (store8 m d (m s)) (d + 1) (s + 1) n

-- `while(n-- > 0) *--d = *--s;`
unfoldable pub copy_down : Mem → ℕ → ℕ → ℕ → Mem
copy_down m d s zero = m
copy_down m d s (suc n) = copy_down (store8 m (d - 1) (m (s - 1))) (d - 1) (s - 1) n

-- `s < d && s + n > d`: the destination starts inside the source.
abbrev pub overlaps : ℕ → ℕ → ℕ → Bool
overlaps d s n = ltb s d && ltb d (s + n)

-- `memmove` of kernel/string.c
unfoldable pub memmove : Mem → ℕ → ℕ → ℕ → Mem
memmove m dst src n =
    if overlaps dst src n then copy_down m (dst + n) (src + n) n else copy_up m dst src n

-- `while(n >= 8)` of `mymemmove`, on fuel: eight bytes a round.
unfoldable pub copy_words : ℕ → Mem → ℕ → ℕ → ℕ → Mem
copy_words zero m d s n = m
copy_words (suc fuel) m d s n =
    let rest = copy_words fuel (store64 m d (load64 m s)) (d + 8) (s + 8) (n - 8) in
    if leb 8 n then rest else m

-- The test by which `mymemmove` of kernel/vm.c takes the loop over words.
unfoldable pub takes_words : ℕ → ℕ → ℕ → Bool
takes_words dst src n = leb 8 n && src % 8 == 0 && dst % 8 == 0 && not (overlaps dst src n)

-- `mymemmove` of kernel/vm.c. `n` rounds are more than the loop makes.
unfoldable pub mymemmove : Mem → ℕ → ℕ → ℕ → Mem
mymemmove m dst src n =
    if takes_words dst src n
    then copy_words n m dst src n
    else if overlaps dst src n
    then copy_down m (dst + n) (src + n) n
    else copy_up m dst src n
