-- ===== src/Fs/Icache/Find.antt =====
-- The search of `iget` through the table.
use fast_ipc.Base.{
  ℕ, zero, suc, ◌+◌, ◌-◌, ◌<◌, ◌≤◌, ◌≡◌, ◌≢◌, ◌⊎◌, inl, inr, refl, arith, List, [], ◌∷◌, Option,
  none, some, true, false, ◌==◌, Bool-cases, length,
}
use fast_ipc.Fs.Inode.{Inode}
use fast_ipc.Fs.Icache.{inode_at, is_entry, empty_slot, find_inode}

-- What the search from index `k` on comes to.
unfoldable pub FindEnds :
    (dev inum : ℕ) → List Inode → (k : ℕ) → (empty : Option ℕ) → ℕ ⊎ Option ℕ → Type 0
FindEnds dev inum l k empty (inl i) =
    (k ≤ i) × (i - k < length l) × (is_entry dev inum (inode_at l (i - k)) ≡ true)
FindEnds dev inum l k empty (inr none) =
    (empty ≡ none)
    × ((j : ℕ)
        → j < length l
        → (is_entry dev inum (inode_at l j) ≡ false) × ((inode_at l j).ref ≢ 0))
FindEnds dev inum l k empty (inr (some e)) =
    ((j : ℕ) → j < length l → is_entry dev inum (inode_at l j) ≡ false)
    × ((empty ≡ some e) ⊎ ((k ≤ e) × (e - k < length l) × ((inode_at l (e - k)).ref ≡ 0)))

slot-none :
    (empty : Option ℕ) (ip : Inode) (k : ℕ)
    → empty_slot empty ip k ≡ none
    → (empty ≡ none) × (ip.ref ≢ 0)
slot-none none ip k e = (refl, ground arith)
slot-none (some a) ip k e = cc

slot-some :
    (empty : Option ℕ) (ip : Inode) (k e : ℕ)
    → empty_slot empty ip k ≡ some e
    → (empty ≡ some e) ⊎ ((k ≡ e) × (ip.ref ≡ 0))
slot-some none ip k e q = elim (Bool-cases (ip.ref == 0)) [
  | inl idle ↦ (let same : some k ≡ some e = rw idle at q in inr (cc same, ground arith))
  | inr held ↦ absurd (no_slot (rw held at q))
]
  where
    no_slot : none ≢ some e
    no_slot h = cc
slot-some (some a) ip k e q = inl q

FindEnds-later :
    (dev inum : ℕ) (ip : Inode) (l : List Inode) (k : ℕ) (empty : Option ℕ) (r : ℕ ⊎ Option ℕ)
    → is_entry dev inum ip ≡ false
    → FindEnds dev inum l (k + 1) (empty_slot empty ip k) r
    → FindEnds dev inum (ip ∷ l) k empty r
unfolding FindEnds
FindEnds-later dev inum ip l k empty (inl i) other (le, lt, here) =
    let step : i - k ≡ suc (i - (k + 1)) = omega arith in (omega arith, omega arith, rw step here)
FindEnds-later dev inum ip l k empty (inr none) other (unset, h) =
    let (was, held) = slot-none empty ip k unset in (was, at held)
  where
    at :
        ip.ref ≢ 0
        → (j : ℕ) → j < length (ip ∷ l)
        → (is_entry dev inum (inode_at (ip ∷ l) j) ≡ false) × ((inode_at (ip ∷ l) j).ref ≢ 0)
    at held zero lt = (other, held)
    at held (suc j) lt = h j (omega arith)
FindEnds-later dev inum ip l k empty (inr (some e)) other (h, slot) = (
  at,
  elim slot [
    | inr (le, lt, idle) ↦
        (let step : e - k ≡ suc (e - (k + 1)) = omega arith in
          inr (omega arith, omega arith, rw step idle))
    | inl q ↦ elim (slot-some empty ip k e q) [
      | inl same ↦ inl same
      | inr (here, idle) ↦
          (let zero_th : e - k ≡ 0 = omega arith in inr (omega arith, omega arith, rw zero_th idle))
    ]
  ],
)
  where
    at : (j : ℕ) → j < length (ip ∷ l) → is_entry dev inum (inode_at (ip ∷ l) j) ≡ false
    at zero lt = other
    at (suc j) lt = h j (omega arith)

pub find_inode-Ends :
    (dev inum : ℕ) (l : List Inode) (k : ℕ) (empty : Option ℕ)
    → FindEnds dev inum l k empty (find_inode dev inum l k empty)
unfolding find_inode FindEnds
find_inode-Ends dev inum [] k none = (refl, λ j lt. absurd (omega arith))
find_inode-Ends dev inum [] k (some e) = (λ j lt. absurd (omega arith), inl refl)
find_inode-Ends dev inum (ip ∷ l) k empty = elim (Bool-cases (is_entry dev inum ip)) [
  | inl here ↦ rw here (omega arith, omega arith, (let q : k - k ≡ 0 = omega arith in rw q here))
  | inr other ↦ rw other (
      FindEnds-later dev inum ip l k empty (find_inode dev inum l (k + 1) (empty_slot empty ip k))
        other (find_inode-Ends dev inum l (k + 1) (empty_slot empty ip k)))
]
