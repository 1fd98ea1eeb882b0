-- ===== src/Fs/Path/Elements.antt =====
-- The elements of a path by an independent definition, and `skipelem` against it.
use fast_ipc.Base.{
  ℕ, ◌+◌, ◌<◌, ◌≤◌, ◌≡◌, ◌≢◌, ◌⊎◌, inl, inr, refl, sym, ap, ◌∙◌, arith, List, [], ◌∷◌, none, some,
  true, false, ◌==◌, if◌then◌else◌, Bool-cases, length, take,
}
use fast_ipc.Fs.Path.{slash, skip_slashes, element, is_end, skipelem, starts_at_root, name_size}

onto_first : ℕ → List (List ℕ) → List (List ℕ)
onto_first c [] = (c ∷ []) ∷ []
onto_first c (w ∷ ws) = (c ∷ w) ∷ ws

-- The path cut at each slash.
split : List ℕ → List (List ℕ)
split [] = [] ∷ []
split (c ∷ p) = if c == slash then [] ∷ split p else onto_first c (split p)

if_any : List ℕ → List (List ℕ) → List (List ℕ)
if_any [] ws = ws
if_any (c ∷ w) ws = (c ∷ w) ∷ ws

not_empty : List (List ℕ) → List (List ℕ)
not_empty [] = []
not_empty (w ∷ ws) = if_any w (not_empty ws)

-- The pieces that are not empty.
pub elements : List ℕ → List (List ℕ)
elements p = not_empty (split p)

-- The pieces after the first one.
behind : List ℕ → List (List ℕ)
behind [] = []
behind (c ∷ p) = split p

elements-slash : (c : ℕ) (p : List ℕ) → (c == slash) ≡ true → elements (c ∷ p) ≡ elements p
unfolding elements split not_empty if_any
elements-slash c p e = rw e

elements-skip_slashes : (p : List ℕ) → elements (skip_slashes p) ≡ elements p
unfolding skip_slashes
elements-skip_slashes [] = refl
elements-skip_slashes (c ∷ p) = elim (Bool-cases (c == slash)) [
  | inl e ↦ rw e (elements-skip_slashes p ∙ sym (elements-slash c p e))
  | inr e ↦ rw e
]

split-element : (p : List ℕ) → split p ≡ (element p).0 ∷ behind (element p).1
unfolding split element behind onto_first
split-element [] = refl
split-element (c ∷ p) = elim (Bool-cases (c == slash)) [
  | inl e ↦ rw e
  | inr e ↦ rw e (ap (onto_first c) (split-element p))
]

-- What is left after an element is empty or begins with a slash.
element-rest : (p : List ℕ) → not_empty (behind (element p).1) ≡ elements (element p).1
unfolding element behind not_empty elements split if_any
element-rest [] = refl
element-rest (c ∷ p) = elim (Bool-cases (c == slash)) [
  | inl e ↦ rw e (rw e)
  | inr e ↦ rw e (element-rest p)
]

elements-element : (p : List ℕ) → elements p ≡ if_any (element p).0 (elements (element p).1)
unfolding elements not_empty
elements-element p = ap not_empty (split-element p) ∙ ap (if_any (element p).0) (element-rest p)

length-element : (p : List ℕ) → length (element p).0 + length (element p).1 ≡ length p
unfolding element
length-element [] = refl
length-element (c ∷ p) = elim (Bool-cases (c == slash)) [
  | inl e ↦ rw e (omega arith)
  | inr e ↦ rw e (omega (arith, length-element p))
]

length-skip_slashes : (p : List ℕ) → length (skip_slashes p) ≤ length p
unfolding skip_slashes
length-skip_slashes [] = omega arith
length-skip_slashes (c ∷ p) = elim (Bool-cases (c == slash)) [
  | inl e ↦ rw e (omega (arith, length-skip_slashes p))
  | inr e ↦ rw e (omega arith)
]

skip_slashes-starts : (p : List ℕ) → starts_at_root (skip_slashes p) ≡ false
unfolding skip_slashes
skip_slashes-starts [] = refl
skip_slashes-starts (c ∷ p) = elim (Bool-cases (c == slash)) [
  | inl e ↦ rw e (skip_slashes-starts p)
  | inr e ↦ rw e e
]

-- The first element of a path that does not begin with a slash.
first :
    (p : List ℕ)
    → starts_at_root p ≡ false
    → is_end p ≡ false
    → (elements p ≡ (element p).0 ∷ elements (element p).1) × ((element p).0 ≢ [])
unfolding if_any element
first [] s e = cc
first (c ∷ p) s e =
    let begins : (element (c ∷ p)).0 ≡ c ∷ (element p).0 = rw s in
    let here = elements-element (c ∷ p) in
    (
      here
          ∙ (λ i. if_any (begins i) (elements (element (c ∷ p)).1))
          ∙ ap (λ w. w ∷ elements (element (c ∷ p)).1) (sym begins),
      λ q. no_cons (sym begins ∙ q),
    )
  where
    no_cons : c ∷ (element p).0 ≢ []
    no_cons q = cc

-- `skipelem` returns 0 for a path with no element, and otherwise sets the name to the first element,
-- cut to 14 bytes, and returns a shorter path that does not begin with a slash and has the elements
-- that are left.
pub skipelem_lem :
    (path : List ℕ)
    → ((skipelem path ≡ none) × (elements path ≡ []))
      ⊎ ((w : List ℕ) × (rest : List ℕ) × (skipelem path ≡ some (take name_size w, rest))
          × (elements path ≡ w ∷ elements rest)
          × (w ≢ [])
          × (length rest < length path)
          × (starts_at_root rest ≡ false))
unfolding skipelem elements not_empty split if_any
skipelem_lem path = elim (Bool-cases (is_end (skip_slashes path))) [
  | inl over ↦ inl (rw over, sym (elements-skip_slashes path) ∙ none_left (skip_slashes path) over)
  | inr more ↦
      (let p = skip_slashes path in
        let (found, some_byte) = first p (skip_slashes-starts path) more in
        let w = (element p).0 in
        let rest = skip_slashes (element p).1 in
        inr (
          w,
          rest,
          rw more,
          sym (elements-skip_slashes path)
              ∙ found
              ∙ ap (λ es. w ∷ es) (sym (elements-skip_slashes (element p).1)),
          some_byte,
          shorter w some_byte (length-skip_slashes path) (length-element p)
              (length-skip_slashes (element p).1),
          skip_slashes-starts (element p).1,
        ))
]
  where
    none_left : (p : List ℕ) → is_end p ≡ true → elements p ≡ []
    none_left [] e = refl
    none_left (c ∷ p) e = cc

    shorter :
        (w : List ℕ) {a b c : ℕ}
        → w ≢ []
        → a ≤ length path
        → length w + b ≡ a
        → c ≤ b
        → c < length path
    shorter [] ne l1 l2 l3 = absurd (ne refl)
    shorter (x ∷ w) ne l1 l2 l3 = omega arith
