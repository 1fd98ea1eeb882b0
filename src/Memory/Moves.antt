-- ===== src/Memory/Moves.antt =====
-- What the copying routines do: `memset` and `memmove` against pointwise descriptions, and the
-- word-copying `mymemmove`, which agrees with `memmove` on whole words only.
use fast_ipc.Base.{
  ℕ, zero, suc, ◌+◌, ◌-◌, ◌*◌, ◌/◌, ◌%◌, ◌≤◌, ◌<◌, ◌≡◌, ◌∙◌, arith, ap, true, false, ◌⊎◌, inl, inr,
  ◌&&◌, ltb, leb, if◌then◌else◌, Bool-cases,
}
use fast_ipc.Memory.{
  Mem, store8, memset, memset_from, copy_up, copy_down, copy_words, memmove, mymemmove, takes_words,
  load64, store64, store_le,
}
use fast_ipc.Memory.Words.{IsBytes, store_le-IsBytes, byte_of-load_le}

-- The memory after the `n` bytes at `src` of the old memory have been put at `dst`.

abbrev pub copied : Mem → ℕ → ℕ → ℕ → Mem
copied m dst src n x = if leb dst x && ltb x (dst + n) then m (src + (x - dst)) else m x

-- The memory with `n` bytes `c` at `dst`.
abbrev pub filled : Mem → ℕ → ℕ → ℕ → Mem
filled m dst c n x = if leb dst x && ltb x (dst + n) then c % 256 else m x

memset_from_at :
    (m : Mem) (dst c i left x : ℕ) → memset_from m dst c i left x ≡ filled m (dst + i) c left x
unfolding memset_from store8
memset_from_at m dst c i zero x = ground arith
memset_from_at m dst c i (suc left) x =
    ground (arith, memset_from_at (store8 m (dst + i) (c % 256)) dst c (i + 1) left x)

pub memset_lem : (m : Mem) (dst c n x : ℕ) → memset m dst c n x ≡ filled m dst c n x
unfolding memset
memset_lem m dst c n x = ground (arith, memset_from_at m dst c 0 n x)

copy_up_at : (m : Mem) (d s n x : ℕ) → (d ≤ s) ⊎ (s + n ≤ d) → copy_up m d s n x ≡ copied m d s n x
unfolding copy_up store8
copy_up_at m d s zero x h = ground arith
copy_up_at m d s (suc n) x h = ground (arith, copy_up_at (store8 m d (m s)) (d + 1) (s + 1) n x)

pred_end : (d n : ℕ) → d + suc n - 1 ≡ d + n
pred_end d n = omega arith

copy_down_at : (m : Mem) (d s n x : ℕ) → s ≤ d → copy_down m (d + n) (s + n) n x ≡ copied m d s n x
unfolding copy_down store8
copy_down_at m d s zero x h = ground arith
copy_down_at m d s (suc n) x h =
    rw (pred_end d n, pred_end s n)
      (ground (arith, copy_down_at (store8 m (d + n) (m (s + n))) d s n x h))

-- `memmove` copies `n` bytes as if through a buffer, for any two ranges, overlapping or not, and
-- changes nothing else.
pub memmove_lem : (m : Mem) (dst src n x : ℕ) → memmove m dst src n x ≡ copied m dst src n x
unfolding memmove
memmove_lem m dst src n x = ground (arith, copy_up_at m dst src n x, copy_down_at m dst src n x)

-- One round of the loop over words copies eight bytes.
store64-load64 : (m : Mem) (d s x : ℕ) → IsBytes m → store64 m d (load64 m s) x ≡ copied m d s 8 x
unfolding store64 load64 store_le
store64-load64 m d s x h = ground (arith, byte_of-load_le s 8 (x - d) h)

words-IsBytes : (m : Mem) (d s : ℕ) → IsBytes m → IsBytes (store64 m d (load64 m s))
unfolding store64
words-IsBytes m d s h = store_le-IsBytes d 8 (load64 m s) h

-- Eight bytes, and then `k` more from the memory that this leaves.
copied-copied :
    (m m' : Mem) (d s k x : ℕ)
    → ((y : ℕ) → m' y ≡ copied m d s 8 y)
    → (d ≤ s) ⊎ (s + (k + 8) ≤ d)
    → copied m' (d + 8) (s + 8) k x ≡ copied m d s (k + 8) x
copied-copied m m' d s k x h o = ground (arith, h x, h (s + 8 + (x - (d + 8))), shift)
  where
    shift : d + 8 ≤ x → s + 8 + (x - (d + 8)) ≡ s + (x - d)
    shift le = omega arith

copy_words_at :
    (fuel : ℕ) (m : Mem) (d s n x : ℕ)
    → IsBytes m
    → n ≤ fuel
    → (d ≤ s) ⊎ (s + n ≤ d)
    → copy_words fuel m d s n x ≡ copied m d s (n / 8 * 8) x
unfolding copy_words
copy_words_at zero m d s n x hb hf ho = ground arith
copy_words_at (suc fuel) m d s n x hb hf ho = elim (Bool-cases (leb 8 n)) [
  | inl more ↦ rw more (
      copy_words_at fuel m' (d + 8) (s + 8) (n - 8) x (words-IsBytes m d s hb) (ground arith)
        (ground arith)
      ∙ copied-copied m m' d s ((n - 8) / 8 * 8) x (λ y. store64-load64 m d s y hb) (ground arith)
      ∙ ap (λ k. copied m d s k x) (ground arith))
  | inr done ↦ rw done (ground arith)
]
  where
    m' : Mem
    m' = store64 m d (load64 m s)

-- Where `mymemmove` takes the loop over words it copies the whole words, and leaves the last
-- `n % 8` bytes of the destination as they were.
pub mymemmove-words :
    (m : Mem) (dst src n x : ℕ)
    → IsBytes m
    → takes_words dst src n ≡ true
    → mymemmove m dst src n x ≡ copied m dst src (n / 8 * 8) x
unfolding mymemmove takes_words
mymemmove-words m dst src n x hb t =
    rw t (copy_words_at n m dst src n x hb (omega arith) (ground arith))

-- Where `mymemmove` does not take the loop over words, and for a whole number of words, it does what
-- `memmove` does.
pub mymemmove-eq-memmove :
    (m : Mem) (dst src n x : ℕ)
    → IsBytes m
    → (takes_words dst src n ≡ false) ⊎ (n % 8 ≡ 0)
    → mymemmove m dst src n x ≡ memmove m dst src n x
mymemmove-eq-memmove m dst src n x hb h = elim (Bool-cases (takes_words dst src n)) [
  | inl t ↦ ground (arith, mymemmove-words m dst src n x hb t, memmove_lem m dst src n x)
  | inr f ↦ unfold mymemmove memmove in (rw f)
]

-- The bytes past the last whole word are not copied: `mymemmove` leaves each of them, where
-- `memmove` would have put the source's.
pub mymemmove_drops_tail :
    (m : Mem) (dst src n k : ℕ)
    → IsBytes m
    → takes_words dst src n ≡ true
    → n / 8 * 8 ≤ k
    → k < n
    → (mymemmove m dst src n (dst + k) ≡ m (dst + k))
      × (memmove m dst src n (dst + k) ≡ m (src + k))
mymemmove_drops_tail m dst src n k hb t lo hi = (
  ground (arith, mymemmove-words m dst src n (dst + k) hb t),
  ground (arith, memmove_lem m dst src n (dst + k), shift),
)
  where
    shift : dst + k - dst ≡ k
    shift = omega arith
