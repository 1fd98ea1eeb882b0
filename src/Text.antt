-- ===== src/Text.antt =====
-- Strings as kernel/string.c, kernel/ringbuf.c and user/ulib.c handle them. A string stands for
-- the bytes before its NUL, so a byte of a string is not 0.
pub mod Order
mod Tests
use fast_ipc.Base.{
  ℕ, zero, suc, ◌-◌, List, [], ◌∷◌, ℤ, pos, sub_ℕ, ◌==◌, if◌then◌else◌, take, length, ltb,
}

-- The byte at the front: the NUL where the string ends.
abbrev pub front : List ℕ → ℕ
front [] = 0
front (c ∷ p) = c

-- `strcmp` of kernel/ringbuf.c and of user/ulib.c
unfoldable pub strcmp : List ℕ → List ℕ → ℤ
strcmp [] q = sub_ℕ 0 (front q)
strcmp (c ∷ p) [] = sub_ℕ c 0
strcmp (c ∷ p) (d ∷ q) = if c == d then strcmp p q else sub_ℕ c d

-- `strncmp` of kernel/string.c
pub strncmp : List ℕ → List ℕ → ℕ → ℤ
strncmp p q zero = pos 0
strncmp [] q (suc n) = sub_ℕ 0 (front q)
strncmp (c ∷ p) [] (suc n) = sub_ℕ c 0
strncmp (c ∷ p) (d ∷ q) (suc n) = if c == d then strncmp p q n else sub_ℕ c d

-- `while(--n > 0 && (*s++ = *t++) != 0); *s = 0;` with `n` bytes of room: what is copied before the
-- NUL.
unfoldable pub copy_bounded : List ℕ → ℕ → List ℕ
copy_bounded t zero = []
copy_bounded t (suc zero) = []
copy_bounded [] (suc (suc n)) = []
copy_bounded (c ∷ t) (suc (suc n)) = c ∷ copy_bounded t (suc n)

-- `safestrcpy` of kernel/string.c: the string at `s` after it.
unfoldable pub safestrcpy : List ℕ → List ℕ → ℕ → List ℕ
unfolding copy_bounded
safestrcpy s t n = if n == 0 then s else copy_bounded t n

-- `strncpy` of kernel/string.c: the `n` bytes at `s` after it.
unfoldable pub strncpy : List ℕ → ℕ → List ℕ
strncpy t zero = []
strncpy [] (suc n) = 0 ∷ strncpy [] n
strncpy (c ∷ t) (suc n) = c ∷ strncpy t n
