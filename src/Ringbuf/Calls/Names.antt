-- ===== src/Ringbuf/Calls/Names.antt =====
-- Names in the table: they are cut to seven bytes, so a longer name is never found again.
use fast_ipc.Base.{
  ℕ, zero, suc, ◌+◌, ◌-◌, ◌<◌, ◌≤◌, ◌≡◌, ◌≢◌, ◌↔◌, inl, inr, refl, sym, ap, arith, List, [], ◌∷◌,
  none, some, true, ok, fault, set, length, get_or, Bool-cases,
}
use fast_ipc.Text.{strcmp}
use fast_ipc.Text.Order.{strcmp-eq-zero, IsText, length-take-le, take-IsText}
use fast_ipc.Ringbuf.{Kernel, Ringbuf, find_name, find_unused, no_ring, is_zero}
use fast_ipc.Ringbuf.Calls.{createbuf, closebuf}
use fast_ipc.Ringbuf.Calls.Create.{createbuf_new}

-- Every name is a string of at most seven bytes.

abbrev pub ShortNames : List Ringbuf → Type 0
ShortNames [] = Unit {0}
ShortNames (r ∷ rs) = IsText r.name × (length r.name ≤ 7) × ShortNames rs

is_zero_iff : (p q : List ℕ) → IsText p → IsText q → (is_zero (strcmp p q) ≡ true) ↔ (p ≡ q)
unfolding is_zero
is_zero_iff p q tp tq = ground (arith, strcmp-eq-zero p q tp tq)

-- A name of eight bytes or more is not found in such a table.
pub find_name_long :
    (straddr : List ℕ) (rs : List Ringbuf) (i : ℕ)
    → IsText straddr
    → 7 < length straddr
    → ShortNames rs
    → find_name straddr rs i ≡ none
unfolding find_name
find_name_long straddr [] i t long s = refl
find_name_long straddr (r ∷ rs) i t long s =
    ground (
      arith,
      is_zero_iff straddr r.name t s.0,
      find_name_long straddr rs (i + 1) t long s.2,
      differ,
    )
  where
    differ : straddr ≢ r.name
    differ e = absurd (omega (arith, ap length e, s.1))

-- What is found has the name.
pub find_name-some :
    (straddr : List ℕ) (rs : List Ringbuf) (j i : ℕ)
    → IsText straddr
    → ShortNames rs
    → find_name straddr rs j ≡ some i
    → (j ≤ i) × (i - j < length rs) × ((get_or rs (i - j) no_ring).name ≡ straddr)
unfolding find_name
find_name-some straddr [] j i t s e = absurd (cc)
find_name-some straddr (r ∷ rs) j i t s e = elim (Bool-cases (is_zero (strcmp straddr r.name))) [
  | inl here ↦
      (let same : i - j ≡ 0 = ground arith in
        (ground arith, ground arith, rw same (sym ((is_zero_iff straddr r.name t s.0).0 here))))
  | inr there ↦
      (let (le, lt, named) = find_name-some straddr rs (j + 1) i t s.2 (rw there at e) in
        let step : i - j ≡ suc (i - (j + 1)) = omega arith in
        (omega arith, omega (arith, lt), rw step named))
]

-- `closebuf` of a name that is not in the table runs past the table's end.
pub closebuf_unknown :
    (k : Kernel) (straddr : List ℕ)
    → find_name straddr k.ringbufs 0 ≡ none
    → closebuf k straddr ≡ fault
unfolding closebuf
closebuf_unknown k straddr e = ground (arith, e)

ShortNames-set :
    (rs : List Ringbuf) (i : ℕ) (r : Ringbuf)
    → ShortNames rs
    → IsText r.name
    → length r.name ≤ 7
    → ShortNames (set rs i r)
ShortNames-set [] i r s t le = tt
ShortNames-set (q ∷ rs) zero r s t le = (t, le, s.2)
ShortNames-set (q ∷ rs) (suc i) r s t le = (s.0, s.1, ShortNames-set rs i r s.2 t le)

-- The names of a table stay short when a ring is created, whatever the name.
pub createbuf-ShortNames :
    (k : Kernel) (straddr : List ℕ) (opdesc retvaddr i : ℕ) {v : ℕ} {k' : Kernel}
    → opdesc ≤ 1
    → IsText straddr
    → ShortNames k.ringbufs
    → find_unused k.ringbufs 0 ≡ some i
    → find_name straddr k.ringbufs 0 ≡ none
    → createbuf k straddr opdesc retvaddr ≡ ok (some v, k')
    → ShortNames k'.ringbufs
createbuf-ShortNames k straddr opdesc retvaddr i le t s unused missing e =
    let (r, v, valid, table, c, n, mine, other) =
      createbuf_new k straddr opdesc retvaddr i le unused missing e in
    rw table (
      ShortNames-set k.ringbufs i r s (rw n (take-IsText 7 straddr t))
        (rw n (length-take-le 7 straddr)))

-- A ring that is created under a name of eight bytes or more cannot be reached by that name: after
-- the successful call no entry is found by it, so a partner's call makes another ring, and closing
-- by the name runs past the table.
pub createbuf_long :
    (k : Kernel) (straddr : List ℕ) (opdesc retvaddr i : ℕ) {v : ℕ} {k' : Kernel}
    → opdesc ≤ 1
    → IsText straddr
    → 7 < length straddr
    → ShortNames k.ringbufs
    → find_unused k.ringbufs 0 ≡ some i
    → createbuf k straddr opdesc retvaddr ≡ ok (some v, k')
    → (v ≡ 1) × (find_name straddr k'.ringbufs 0 ≡ none) × (closebuf k' straddr ≡ fault)
createbuf_long k straddr opdesc retvaddr i {v} {k'} le t long s unused e =
    let missing = find_name_long straddr k.ringbufs 0 t long s in
    let (r, one, valid, table, c, n, mine, other) =
      createbuf_new k straddr opdesc retvaddr i le unused missing e in
    let lost =
      find_name_long straddr k'.ringbufs 0 t long
        (createbuf-ShortNames k straddr opdesc retvaddr i le t s unused missing e) in
    (one, lost, closebuf_unknown k' straddr lost)
