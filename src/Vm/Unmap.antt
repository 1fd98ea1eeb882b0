-- ===== src/Vm/Unmap.antt =====
-- `uvmunmap` of a page without freeing it: it only ever clears entries, and what it has cleared it
-- panics at when it is asked again.
use fast_ipc.Base.{
  ℕ, zero, suc, ◌%◌, ◌≡◌, ◌⊎◌, inl, inr, refl, arith, Bool, false, ok, panic, Outcome-cases,
}
use fast_ipc.Memory.{Mem, load64, store64}
use fast_ipc.Memory.Words.{load64-store64_self, load64-store64_ne}
use fast_ipc.Kalloc.{Kmem}
use fast_ipc.Vm.{walk, walk_from, descend, pte_at, pte2pa, uvmunmap, unmap_page, unmap_from}
use fast_ipc.Vm.Walk.{walk_from_same}

-- Each word of the second memory is that of the first, or 0.

abbrev pub Cleared : Mem → Mem → Type 0
Cleared m m' = (q : ℕ) → q % 8 ≡ 0 → (load64 m' q ≡ load64 m q) ⊎ (load64 m' q ≡ 0)

pub Cleared-refl : (m : Mem) → Cleared m m
Cleared-refl m q a = inl refl

pub Cleared-trans : (m m' m'' : Mem) → Cleared m m' → Cleared m' m'' → Cleared m m''
Cleared-trans m m' m'' h g q a = ground (arith, h q, g q)

store_zero-Cleared : (m : Mem) (a : ℕ) → a % 8 ≡ 0 → Cleared m (store64 m a 0)
store_zero-Cleared m a al q b = ground (arith, load64-store64_self m a 0, load64-store64_ne m a q 0)

-- A word that is 0 stays 0.
pub Cleared-zero :
    (m m' : Mem) (a : ℕ) → a % 8 ≡ 0 → Cleared m m' → load64 m a ≡ 0 → load64 m' a ≡ 0
Cleared-zero m m' a al c z = ground (arith, c a)

walk_aligned : (level pt va : ℕ) (k : Kmem) → pt % 8 ≡ 0 → (walk_from level false pt va k).0 % 8 ≡ 0
unfolding walk_from descend
walk_aligned zero pt va k al = omega arith
walk_aligned (suc level) pt va k al = ground (
  arith,
  walk_aligned level (pte2pa (load64 k.mem (pte_at pt (suc level) va))) va k (omega arith),
)

-- In a cleared memory a walk finds the same entry, or none.
walk-Cleared :
    (level pt va : ℕ) (k k' : Kmem)
    → pt % 8 ≡ 0
    → Cleared k.mem k'.mem
    → ((walk_from level false pt va k').0 ≡ 0)
      ⊎ ((walk_from level false pt va k').0 ≡ (walk_from level false pt va k).0)
unfolding walk_from descend
walk-Cleared zero pt va k k' al c = inr refl
walk-Cleared (suc level) pt va k k' al c = ground (
  arith,
  c (pte_at pt (suc level) va),
  walk-Cleared level (pte2pa (load64 k.mem (pte_at pt (suc level) va))) va k k' (omega arith) c,
)

-- One page unmapped without freeing it.
unmap_page_ok :
    (pt d : ℕ) (k k' : Kmem)
    → unmap_page pt d false k ≡ ok k'
    → k' ≡ record k { mem = store64 k.mem (walk_from 2 false pt d k).0 0 }
unfolding unmap_page walk
unmap_page_ok pt d k k' e = ground (arith, walk_from_same 2 pt d k)

uvmunmap_one :
    (pt d : ℕ) (b : Bool) (k : Kmem)
    → (uvmunmap pt d 1 b k ≡ panic) ⊎ (uvmunmap pt d 1 b k ≡ unmap_page pt d b k)
unfolding uvmunmap unmap_from
uvmunmap_one pt d b k = elim (Outcome-cases (unmap_page pt d b k)) [
  | inl (k', e) ↦ ground (arith, e)
  | inr (inl e) ↦ ground (arith, e)
  | inr (inr e) ↦ ground (arith, e)
]

-- Unmapping a page without freeing it clears its entry, and no word but to 0.
pub uvmunmap-Cleared :
    (pt d : ℕ) (k k' : Kmem)
    → pt % 8 ≡ 0
    → uvmunmap pt d 1 false k ≡ ok k'
    → Cleared k.mem k'.mem × (load64 k'.mem (walk_from 2 false pt d k).0 ≡ 0)
uvmunmap-Cleared pt d k k' al e = rw q (
  store_zero-Cleared k.mem a (walk_aligned 2 pt d k al),
  load64-store64_self k.mem a 0 (omega arith),
)
  where
    a : ℕ
    a = (walk_from 2 false pt d k).0

    q : k' ≡ record k { mem = store64 k.mem a 0 }
    q = unmap_page_ok pt d k k' (ground (arith, uvmunmap_one pt d false k, e))

-- Once the entry for `d` is cleared, unmapping `d` panics in every memory that is cleared further.
pub uvmunmap_panics :
    (pt d : ℕ) (b : Bool) (k k1 k' : Kmem)
    → pt % 8 ≡ 0
    → Cleared k.mem k1.mem
    → load64 k1.mem (walk_from 2 false pt d k).0 ≡ 0
    → Cleared k1.mem k'.mem
    → uvmunmap pt d 1 b k' ≡ panic
uvmunmap_panics pt d b k k1 k' al c z c' = ground (arith, uvmunmap_one pt d b k', empty)
  where
    a : ℕ
    a = (walk_from 2 false pt d k).0

    zero_there : load64 k'.mem a ≡ 0
    zero_there = Cleared-zero k1.mem k'.mem a (walk_aligned 2 pt d k al) c' z

    empty : unmap_page pt d b k' ≡ panic
    empty =
        unfold unmap_page walk in
        (ground (
          arith,
          walk_from_same 2 pt d k',
          walk-Cleared 2 pt d k k' al (Cleared-trans k.mem k1.mem k'.mem c c'),
          zero_there,
        ))
