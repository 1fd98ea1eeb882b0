-- ===== src/Shell/Words.antt =====
-- Single tokens of user/sh.c: what `gettoken` and `peek` make of a word, and of a text that begins
-- with no white space.
use fast_ipc.Base.{
  ℕ, ◌≡◌, inl, inr, refl, ap, ◌∙◌, arith, Bool, true, false, not, ◌&&◌, ◌==◌, [], ◌∷◌, ◌++◌,
  Bool-cases,
}
use fast_ipc.Shell.{
  Line, has_char, whitespace, symbols, skip_white, in_word, word_of, Token, word, symbol,
  after_greater, token_at, gettoken, starts_with, peek,
}

-- Is every character part of a word?

abbrev pub all_in_word : Line → Bool
all_in_word [] = true
all_in_word (c ∷ w) = in_word c && all_in_word w

abbrev pub is_name : Line → Bool
is_name [] = false
is_name (c ∷ w) = in_word c && all_in_word w

-- The text does not begin with white space.
abbrev pub is_plain : Line → Bool
is_plain [] = true
is_plain (c ∷ s) = not (has_char whitespace c)

-- Nothing, or a closing parenthesis.
abbrev pub is_stop : Line → Bool
is_stop [] = true
is_stop (c ∷ s) = c == b')'

pub skip_white-plain : (s : Line) → is_plain s ≡ true → skip_white s ≡ s
unfolding skip_white
skip_white-plain [] e = refl
skip_white-plain (c ∷ s) e = let f : has_char whitespace c ≡ false = ground arith in rw f refl

pub is_stop-plain : (s : Line) → is_stop s ≡ true → is_plain s ≡ true
is_stop-plain [] e = refl
is_stop-plain (c ∷ s) e = let f : c ≡ b')' = ground arith in rw f refl

-- The tokens at which a stop is not.
pub is_stop-starts_with :
    (toks s : Line) → has_char toks b')' ≡ false → is_stop s ≡ true → starts_with toks s ≡ false
unfolding starts_with
is_stop-starts_with toks [] f e = refl
is_stop-starts_with toks (c ∷ s) f e = let g : c ≡ b')' = ground arith in rw (g, f) refl

pub peek-plain : (s toks : Line) → is_plain s ≡ true → peek s toks ≡ starts_with toks s
peek-plain s toks e = ap (starts_with toks) (skip_white-plain s e)

pub and_left : (a b : Bool) → (a && b) ≡ true → a ≡ true
and_left a b e = ground arith

pub and_right : (a b : Bool) → (a && b) ≡ true → b ≡ true
and_right a b e = ground arith

-- A word up to the space after it.
word_of-name : (w s : Line) → all_in_word w ≡ true → word_of (w ++ b' ' ∷ s) ≡ (w, b' ' ∷ s)
unfolding word_of
word_of-name [] s e = refl
word_of-name (c ∷ w) s e = rw (and_left (in_word c) (all_in_word w) e) (
    ap (λ (r : Line × Line). (c ∷ r.0, r.1))
      (word_of-name w s (and_right (in_word c) (all_in_word w) e)))

in_word-not :
    (c : ℕ) → in_word c ≡ true → (has_char whitespace c ≡ false) × (has_char symbols c ≡ false)
in_word-not c e = ground arith

not_greater : (c : ℕ) → has_char symbols c ≡ false → (c == b'>') ≡ false
not_greater c e = ground arith

token_at-name :
    (c : ℕ) (w s : Line)
    → in_word c ≡ true
    → all_in_word w ≡ true
    → token_at (c ∷ w ++ b' ' ∷ s) ≡ (word, c ∷ w, b' ' ∷ s)
unfolding token_at
token_at-name c w s e f =
    let (white, plain) = in_word-not c e in
    rw (not_greater c plain, plain)
      (ap (λ (r : Line × Line). (word, r.0, r.1)) (word_of-name (c ∷ w) s (rw (e, f) refl)))

-- A name, and the text after the space behind it.
pub gettoken-name :
    (w s : Line) → is_name w ≡ true → is_plain s ≡ true → gettoken (w ++ b' ' ∷ s) ≡ (word, w, s)
unfolding gettoken skip_white
gettoken-name [] s e p = cc
gettoken-name (c ∷ w) s e p =
    let a = and_left (in_word c) (all_in_word w) e in
    let b = and_right (in_word c) (all_in_word w) e in
    let (white, plain) = in_word-not c a in
    rw white (
      ap (λ (r : Token × Line × Line). (r.0, r.1, skip_white r.2)) (token_at-name c w s a b)
      ∙ ap (λ t. (word, c ∷ w, t)) (skip_white-plain s p))

pub is_name-plain : (w s : Line) → is_name w ≡ true → is_plain (w ++ s) ≡ true
is_name-plain [] s e = cc
is_name-plain (c ∷ w) s e =
    let (white, plain) = in_word-not c (and_left (in_word c) (all_in_word w) e) in rw white refl

both : {b : Bool} → b ≡ true → b ≡ false → ⊥
both e f = cc

-- A name does not begin with a symbol.
has_char_mono :
    (toks : Line) (c : ℕ)
    → ((d : ℕ) → has_char toks d ≡ true → has_char symbols d ≡ true)
    → in_word c ≡ true
    → has_char toks c ≡ false
has_char_mono toks c sub e = elim (Bool-cases (has_char toks c)) [
  | inl t ↦ absurd (let (white, plain) = in_word-not c e in both (sub c t) plain)
  | inr f ↦ f
]

pub is_name-starts_with :
    (toks w s : Line)
    → ((d : ℕ) → has_char toks d ≡ true → has_char symbols d ≡ true)
    → is_name w ≡ true
    → starts_with toks (w ++ s) ≡ false
unfolding starts_with
is_name-starts_with toks [] s sub e = cc
is_name-starts_with toks (c ∷ w) s sub e =
    has_char_mono toks c sub (and_left (in_word c) (all_in_word w) e)

-- A `>` before a name stands alone.
pub after_greater-name :
    (w s : Line) → is_name w ≡ true → after_greater (w ++ s) ≡ (symbol b'>', b'>' ∷ [], w ++ s)
after_greater-name [] s e = cc
after_greater-name (c ∷ w) s e =
    let (white, plain) = in_word-not c (and_left (in_word c) (all_in_word w) e) in
    rw (not_greater c plain) refl
