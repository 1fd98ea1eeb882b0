-- ===== src/Fs/Bits.antt =====
-- Single bits of a byte.
use fast_ipc.Base.{
  ℕ, zero, suc, ◌+◌, ◌*◌, ◌/◌, ◌%◌, ◌≡◌, arith, Bool, true, false, ◌==◌, if◌then◌else◌,
}

-- `(v & (1 << k)) != 0`
unfoldable pub has_bit : ℕ → ℕ → Bool
has_bit v zero = v % 2 == 1
has_bit v (suc k) = has_bit (v / 2) k

-- `v | (1 << k)`
unfoldable pub with_bit : ℕ → ℕ → ℕ
with_bit v zero = v / 2 * 2 + 1
with_bit v (suc k) = v % 2 + 2 * with_bit (v / 2) k

-- `v & ~(1 << k)`
unfoldable pub without_bit : ℕ → ℕ → ℕ
without_bit v zero = v / 2 * 2
without_bit v (suc k) = v % 2 + 2 * without_bit (v / 2) k

even_part : (a b : ℕ) → (a % 2 + 2 * b) / 2 ≡ b
even_part a b = omega arith

odd_half : (a : ℕ) → (a / 2 * 2 + 1) / 2 ≡ a / 2
odd_half a = omega arith

even_half : (a : ℕ) → a / 2 * 2 / 2 ≡ a / 2
even_half a = omega arith

-- Setting a bit sets it and no other.
pub has_bit-with_bit :
    (v k j : ℕ) → has_bit (with_bit v k) j ≡ (if j == k then true else has_bit v j)
unfolding has_bit with_bit
has_bit-with_bit v zero zero = ground arith
has_bit-with_bit v zero (suc j) = ground (arith, odd_half v)
has_bit-with_bit v (suc k) zero = ground arith
has_bit-with_bit v (suc k) (suc j) =
    ground (arith, even_part v (with_bit (v / 2) k), has_bit-with_bit (v / 2) k j)

-- Clearing a bit clears it and no other.
pub has_bit-without_bit :
    (v k j : ℕ) → has_bit (without_bit v k) j ≡ (if j == k then false else has_bit v j)
unfolding has_bit without_bit
has_bit-without_bit v zero zero = ground arith
has_bit-without_bit v zero (suc j) = ground (arith, even_half v)
has_bit-without_bit v (suc k) zero = ground arith
has_bit-without_bit v (suc k) (suc j) =
    ground (arith, even_part v (without_bit (v / 2) k), has_bit-without_bit (v / 2) k j)
