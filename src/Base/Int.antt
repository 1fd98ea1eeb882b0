-- ===== src/Base/Int.antt =====
-- Signed numbers, and C's machine integers as bit patterns.
use Prim.Native.Nat.{ℕ, ◌+◌, ◌-◌, ◌%◌, ◌^◌}
use mathlib.Core.Bool.{Bool}
use fast_ipc.Base.Tests.{ltb, leb, if◌then◌else◌}

-- `negsuc n` is -(n + 1).
pub data ℤ : Type 0 where
  pos : ℕ → ℤ
  negsuc : ℕ → ℤ

-- a - b, as an integer.
abbrev pub sub_ℕ : ℕ → ℕ → ℤ
sub_ℕ a b = if leb b a then pos (a - b) else negsuc (b - a - 1)

-- A `uint64`, and the difference of two.
abbrev pub u64 : ℕ → ℕ
u64 n = n % 2 ^ 64

abbrev pub sub64 : ℕ → ℕ → ℕ
sub64 a b = (a + 2 ^ 64 - b) % 2 ^ 64

-- The pattern of the `int` to which a 64-bit number is cut.
abbrev pub to_int : ℕ → ℕ
to_int n = n % 2 ^ 32

-- The 64-bit pattern of an `int`: its sign is extended.
abbrev pub extend : ℕ → ℕ
extend n = if ltb n (2 ^ 31) then n else n + (2 ^ 64 - 2 ^ 32)

-- Is the `int` with this pattern negative?
abbrev pub is_negative : ℕ → Bool
is_negative n = leb (2 ^ 31) n
