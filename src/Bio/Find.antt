-- ===== src/Bio/Find.antt =====
-- The two searches of `bget`.
use fast_ipc.Base.{
  ℕ, zero, suc, ◌+◌, ◌-◌, ◌<◌, ◌≤◌, ◌≡◌, ◌≢◌, inl, inr, refl, ◌∙◌, arith, List, [], ◌∷◌, Option,
  none, some, true, false, ◌==◌, if◌then◌else◌, Bool-cases, Option-cases, length,
}
use fast_ipc.Bio.{Buf, buf_at, is_block, find_block, or_else, find_idle}

pub block-some :
    (d n : ℕ) (l : List Buf) (k i : ℕ)
    → find_block d n l k ≡ some i
    → (k ≤ i) × (i - k < length l) × (is_block d n (buf_at l (i - k)) ≡ true)
unfolding find_block
block-some d n [] k i e = cc
block-some d n (b ∷ l) k i e = elim (Bool-cases (is_block d n b)) [
  | inl here ↦
      (let q : some k ≡ some i = rw here at e in
        let same : k ≡ i = cc q in
        let place : i - k ≡ 0 = omega arith in (omega arith, omega arith, rw place here))
  | inr other ↦
      (let (le, lt, found) = block-some d n l (k + 1) i (rw other at e) in
        let place : i - k ≡ suc (i - (k + 1)) = omega arith in
        (omega arith, omega arith, rw place found))
]

pub block-none :
    (d n : ℕ) (l : List Buf) (k : ℕ)
    → find_block d n l k ≡ none
    → (j : ℕ) → j < length l
    → is_block d n (buf_at l j) ≡ false
unfolding find_block
block-none d n [] k e j lt = absurd (omega arith)
block-none d n (b ∷ l) k e zero lt = elim (Bool-cases (is_block d n b)) [
  | inl here ↦ (let q : some k ≡ none = rw here at e in cc)
  | inr other ↦ other
]
block-none d n (b ∷ l) k e (suc j) lt = elim (Bool-cases (is_block d n b)) [
  | inl here ↦ (let q : some k ≡ none = rw here at e in cc)
  | inr other ↦ block-none d n l (k + 1) (rw other at e) j (omega arith)
]

or_else-none : (a d : Option ℕ) → or_else a d ≡ none → (a ≡ none) × (d ≡ none)
or_else-none none d e = (refl, e)
or_else-none (some x) d e = cc

idle_here : (r k : ℕ) → ◌≡◌ {A = Option ℕ} (if r == 0 then some k else none) none → r ≢ 0
idle_here r k e = ground arith

idle_there : (r k i : ℕ) → (if r == 0 then some k else none) ≡ some i → (r ≡ 0) × (k ≡ i)
idle_there r k i e = elim (Bool-cases (r == 0)) [
  | inl idle ↦ (let q : some k ≡ some i = rw idle at e in (ground arith, cc q))
  | inr held ↦ (let q : none ≡ some i = rw held at e in cc)
]

pub idle-none :
    (l : List Buf) (k : ℕ) → find_idle l k ≡ none → (j : ℕ) → j < length l → (buf_at l j).refcnt ≢ 0
unfolding find_idle
idle-none [] k e j lt = absurd (omega arith)
idle-none (b ∷ l) k e zero lt = idle_here b.refcnt k (or_else-none (find_idle l (k + 1)) _ e).1
idle-none (b ∷ l) k e (suc j) lt =
    idle-none l (k + 1) (or_else-none (find_idle l (k + 1)) _ e).0 j (omega arith)

-- What the search finds is the last buffer that nobody holds.
abbrev pub LastIdle : List Buf → (k i : ℕ) → Type 0
LastIdle l k i =
    (k ≤ i)
    × (i - k < length l)
    × ((buf_at l (i - k)).refcnt ≡ 0)
    × ((j : ℕ) → i - k < j → j < length l → (buf_at l j).refcnt ≢ 0)

LastIdle-here :
    (b : Buf) (l : List Buf) (k i : ℕ)
    → k ≡ i
    → b.refcnt ≡ 0
    → ((j : ℕ) → j < length l → (buf_at l j).refcnt ≢ 0)
    → LastIdle (b ∷ l) k i
LastIdle-here b l k i same idle rest =
    let place : i - k ≡ 0 = omega arith in
    (omega arith, omega arith, rw place idle, λ j lo hi. later j (omega arith) hi)
  where
    later : (j : ℕ) → 0 < j → j < length (b ∷ l) → (buf_at (b ∷ l) j).refcnt ≢ 0
    later zero lo hi = absurd (omega arith)
    later (suc j) lo hi = rest j (omega arith)

LastIdle-later : (b : Buf) (l : List Buf) (k i : ℕ) → LastIdle l (k + 1) i → LastIdle (b ∷ l) k i
LastIdle-later b l k i (le, lt, idle, rest) =
    let place : i - k ≡ suc (i - (k + 1)) = omega arith in
    (omega arith, omega arith, rw place idle, λ j lo hi. later j (omega arith) hi)
  where
    later : (j : ℕ) → suc (i - (k + 1)) < j → j < length (b ∷ l) → (buf_at (b ∷ l) j).refcnt ≢ 0
    later zero lo hi = absurd (omega arith)
    later (suc j) lo hi = rest j (omega arith) (omega arith)

pub idle-some : (l : List Buf) (k i : ℕ) → find_idle l k ≡ some i → LastIdle l k i
unfolding find_idle
idle-some [] k i e = cc
idle-some (b ∷ l) k i e = elim (Option-cases (find_idle l (k + 1))) [
  | inl missing ↦
      (let (idle, same) = idle_there b.refcnt k i (rw missing at e) in
        LastIdle-here b l k i same idle (idle-none l (k + 1) missing))
  | inr (x, found) ↦
      (let q : some x ≡ some i = rw found at e in
        let same : x ≡ i = cc q in LastIdle-later b l k i (idle-some l (k + 1) i (found ∙ q)))
]

pub in_cache : (l : List Buf) (j : ℕ) → (buf_at l j).dev ≢ 0 → j < length l
in_cache [] j ne = absurd (ne refl)
in_cache (b ∷ l) zero ne = omega arith
in_cache (b ∷ l) (suc j) ne = omega (arith, in_cache l j ne)
