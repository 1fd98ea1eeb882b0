-- ===== src/Text/Order.antt =====
-- `strcmp` decides equality of strings and orders them; the bounded versions act on prefixes.
use fast_ipc.Base.{
  ℕ, zero, suc, ◌<◌, ◌≤◌, ◌≡◌, ◌↔◌, refl, ap, arith, List, [], ◌∷◌, ℤ, pos, negsuc, sub_ℕ, take,
  length,
}
use fast_ipc.Text.{strcmp, strncmp, safestrcpy, copy_bounded}

-- No byte of a string is the NUL.

abbrev pub IsText : List ℕ → Type 0
IsText [] = Unit {0}
IsText (c ∷ p) = (0 < c) × IsText p

-- `strcmp` returns 0 exactly at equal strings.
pub strcmp-eq-zero : (p q : List ℕ) → IsText p → IsText q → (strcmp p q ≡ pos 0) ↔ (p ≡ q)
unfolding strcmp
strcmp-eq-zero [] [] tp tq = ground arith
strcmp-eq-zero [] (d ∷ q) tp tq = ground arith
strcmp-eq-zero (c ∷ p) [] tp tq = ground arith
strcmp-eq-zero (c ∷ p) (d ∷ q) tp tq = ground (arith, strcmp-eq-zero p q tp.1 tq.1)

pub strcmp_refl : (p : List ℕ) → strcmp p p ≡ pos 0
unfolding strcmp
strcmp_refl [] = refl
strcmp_refl (c ∷ p) = ground (arith, strcmp_refl p)

-- The other sign.
abbrev pub opposite : ℤ → ℤ
opposite (pos zero) = pos zero
opposite (pos (suc n)) = negsuc n
opposite (negsuc n) = pos (suc n)

opposite-sub_ℕ : (a b : ℕ) → opposite (sub_ℕ a b) ≡ sub_ℕ b a
opposite-sub_ℕ a b = ground arith

-- Swapping the arguments of `strcmp` swaps the sign of what it returns.
pub strcmp_swap : (p q : List ℕ) → strcmp q p ≡ opposite (strcmp p q)
unfolding strcmp
strcmp_swap [] [] = ground (arith, opposite-sub_ℕ 0 0)
strcmp_swap [] (d ∷ q) = ground (arith, opposite-sub_ℕ 0 d)
strcmp_swap (c ∷ p) [] = ground (arith, opposite-sub_ℕ c 0)
strcmp_swap (c ∷ p) (d ∷ q) = ground (arith, strcmp_swap p q, opposite-sub_ℕ c d)

-- `strncmp` compares what `strcmp` compares, on the first `n` bytes.
pub strncmp-take : (p q : List ℕ) (n : ℕ) → strncmp p q n ≡ strcmp (take n p) (take n q)
unfolding strcmp strncmp
strncmp-take p q zero = refl
strncmp-take [] [] (suc n) = refl
strncmp-take [] (d ∷ q) (suc n) = refl
strncmp-take (c ∷ p) [] (suc n) = refl
strncmp-take (c ∷ p) (d ∷ q) (suc n) = ground (arith, strncmp-take p q n)

copy_bounded-take : (t : List ℕ) (n : ℕ) → copy_bounded t (suc n) ≡ take n t
unfolding copy_bounded
copy_bounded-take [] zero = refl
copy_bounded-take [] (suc n) = refl
copy_bounded-take (c ∷ t) zero = refl
copy_bounded-take (c ∷ t) (suc n) = ap (λ r. c ∷ r) (copy_bounded-take t n)

-- `safestrcpy` with a bound of `n + 1` writes the first `n` bytes of the source, whatever was there.
pub safestrcpy-take : (s t : List ℕ) (n : ℕ) → safestrcpy s t (suc n) ≡ take n t
unfolding safestrcpy
safestrcpy-take s t n = ground (arith, copy_bounded-take t n)

pub take_of_length : (n : ℕ) (t : List ℕ) → length t ≤ n → take n t ≡ t
take_of_length zero [] h = refl
take_of_length zero (c ∷ t) h = absurd (omega arith)
take_of_length (suc n) [] h = refl
take_of_length (suc n) (c ∷ t) h = ap (λ r. c ∷ r) (take_of_length n t (omega arith))

pub length-take-le : (n : ℕ) (t : List ℕ) → length (take n t) ≤ n
length-take-le zero t = omega arith
length-take-le (suc n) [] = omega arith
length-take-le (suc n) (c ∷ t) = omega (arith, length-take-le n t)

pub take-IsText : (n : ℕ) (t : List ℕ) → IsText t → IsText (take n t)
take-IsText zero t h = tt
take-IsText (suc n) [] h = tt
take-IsText (suc n) (c ∷ t) h = (h.0, take-IsText n t h.1)
