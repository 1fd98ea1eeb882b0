-- ===== src/Memory/Words.antt =====
-- Words of the byte memory: what is stored is what is loaded, and nothing else changes.
use fast_ipc.Base.{ℕ, zero, suc, ◌+◌, ◌-◌, ◌*◌, ◌/◌, ◌%◌, ◌^◌, ◌≤◌, ◌<◌, ◌≡◌, refl, arith, ◌⊎◌}
use fast_ipc.Memory.{Mem, byte_of, load_le, store_le, load64, store64}

-- Every cell holds a byte.

abbrev pub IsBytes : Mem → Type 0
IsBytes m = (x : ℕ) → m x < 256

pub byte_of-lt : (v k : ℕ) → byte_of v k < 256
unfolding byte_of
byte_of-lt v zero = omega arith
byte_of-lt v (suc k) = byte_of-lt (v / 256) k

pub store_le-IsBytes : {m : Mem} (a n v : ℕ) → IsBytes m → IsBytes (store_le m a n v)
unfolding store_le
store_le-IsBytes a n v h x = ground (arith, h x, byte_of-lt v (x - a))

-- Byte `k` of the word at `a` is the byte at `a + k`.
pub byte_of-load_le :
    {m : Mem} (a n k : ℕ) → IsBytes m → k < n → byte_of (load_le m a n) k ≡ m (a + k)
unfolding byte_of load_le
byte_of-load_le a zero k h lt = elim lt [ ]
byte_of-load_le {m} a (suc n) zero h lt = ground (arith, h a)
byte_of-load_le {m} a (suc n) (suc k) h lt =
    ground (arith, h a, tail, byte_of-load_le (a + 1) n k h)
  where
    tail : (m a + 256 * load_le m (a + 1) n) / 256 ≡ load_le m (a + 1) n
    tail = omega (arith, h a)

-- `v` has at most `n` bytes.
abbrev pub Fits : ℕ → ℕ → Type 0
Fits zero v = v ≡ 0
Fits (suc n) v = Fits n (v / 256)

-- A number is the one that its bytes spell.
load_le_of_bytes :
    (m : Mem) (n a v : ℕ)
    → Fits n v
    → ((k : ℕ) → k < n → m (a + k) ≡ byte_of v k)
    → load_le m a n ≡ v
unfolding byte_of load_le
load_le_of_bytes m zero a v f h = omega arith
load_le_of_bytes m (suc n) a v f h =
    omega (arith, head, load_le_of_bytes m n (a + 1) (v / 256) f shift)
  where
    head : m a ≡ v % 256
    head = ground (arith, h 0)

    shift : (k : ℕ) → k < n → m (a + 1 + k) ≡ byte_of (v / 256) k
    shift k lt = ground (arith, h (suc k))

pub load_le_ext :
    (m m' : Mem) (n a : ℕ)
    → ((x : ℕ) → a ≤ x → x < a + n → m x ≡ m' x)
    → load_le m a n ≡ load_le m' a n
unfolding load_le
load_le_ext m m' zero a h = refl
load_le_ext m m' (suc n) a h =
    ground (arith, h a, load_le_ext m m' n (a + 1) (λ x lo hi. h x (omega arith) (omega arith)))

pub load64_ext :
    (m m' : Mem) (a : ℕ) → ((x : ℕ) → a ≤ x → x < a + 8 → m x ≡ m' x) → load64 m a ≡ load64 m' a
unfolding load64
load64_ext m m' a h = load_le_ext m m' 8 a h

store_le_inside : (m : Mem) (a n v k : ℕ) → k < n → store_le m a n v (a + k) ≡ byte_of v k
unfolding store_le
store_le_inside m a n v k lt = ground (arith, shift)
  where
    shift : a + k - a ≡ k
    shift = omega arith

pub store_le_outside : (m : Mem) (a n v x : ℕ) → (x < a) ⊎ (a + n ≤ x) → store_le m a n v x ≡ m x
unfolding store_le
store_le_outside m a n v x h = ground arith

-- A number of `n` bytes that is stored is loaded again.
pub load_le-store_le_self : (m : Mem) (a n v : ℕ) → Fits n v → load_le (store_le m a n v) a n ≡ v
load_le-store_le_self m a n v f = load_le_of_bytes _ n a v f (λ k lt. store_le_inside m a n v k lt)

-- One that lies elsewhere is not changed.
pub load_le-store_le_ne :
    (m : Mem) (a n v b k : ℕ)
    → (b + k ≤ a) ⊎ (a + n ≤ b)
    → load_le (store_le m a n v) b k ≡ load_le m b k
load_le-store_le_ne m a n v b k apart =
    load_le_ext _ _ k b (λ x lo hi. store_le_outside m a n v x (omega arith))

-- The same for words of 64 bits.
pub load64-store64_self : (m : Mem) (a v : ℕ) → v < 2 ^ 64 → load64 (store64 m a v) a ≡ v
unfolding load64 store64
load64-store64_self m a v lt = load_le-store_le_self m a 8 v (omega arith)

pub load64-store64_ne :
    (m : Mem) (a b v : ℕ) → (b + 8 ≤ a) ⊎ (a + 8 ≤ b) → load64 (store64 m a v) b ≡ load64 m b
unfolding load64 store64
load64-store64_ne m a b v h = load_le-store_le_ne m a 8 v b 8 h

pub load64-lt : (m : Mem) (a : ℕ) → IsBytes m → load64 m a < 2 ^ 64
unfolding load64 load_le
load64-lt m a h = omega (
  arith,
  h a,
  h (a + 1),
  h (a + 1 + 1),
  h (a + 1 + 1 + 1),
  h (a + 1 + 1 + 1 + 1),
  h (a + 1 + 1 + 1 + 1 + 1),
  h (a + 1 + 1 + 1 + 1 + 1 + 1),
  h (a + 1 + 1 + 1 + 1 + 1 + 1 + 1),
)

pub store64-IsBytes : {m : Mem} (a v : ℕ) → IsBytes m → IsBytes (store64 m a v)
unfolding store64
store64-IsBytes a v h = store_le-IsBytes a 8 v h

pub store64_outside : (m : Mem) (a v x : ℕ) → (x < a) ⊎ (a + 8 ≤ x) → store64 m a v x ≡ m x
unfolding store64
store64_outside m a v x h = store_le_outside m a 8 v x h

-- Bytes that are 0 spell 0.
pub load_le_zero : (m : Mem) (n a : ℕ) → ((x : ℕ) → a ≤ x → x < a + n → m x ≡ 0) → load_le m a n ≡ 0
unfolding load_le
load_le_zero m zero a h = refl
load_le_zero m (suc n) a h = omega (
  arith,
  h a (omega arith) (omega arith),
  load_le_zero m n (a + 1) (λ x lo hi. h x (omega arith) (omega arith)),
)
