-- ===== src/Vm/Walk.antt =====
-- What a page-table walk finds and makes: after `walk` with `alloc`, a walk without it comes to the
-- same entry, and an entry written there is the one that is found.
pub mod Make
pub mod Map
use fast_ipc.Base.{
  ℕ, zero, suc, ◌+◌, ◌-◌, ◌*◌, ◌/◌, ◌%◌, ◌^◌, ◌<◌, ◌≤◌, ◌≡◌, ◌≢◌, ◌⊎◌, inl, inr, refl, sym, ap, ◌∙◌,
  arith, Bool, true, false, List, [], ◌∷◌, Option, none, some, Outcome, ok, panic, Bool-cases, ◌==◌,
  ltb, leb, if◌then◌else◌,
}
use fast_ipc.Memory.{Mem, load64, store64, memset, load_le}
use fast_ipc.Memory.Words.{
  IsBytes, load64_ext, load64-store64_self, load64-store64_ne, store64-IsBytes, store64_outside,
}
use fast_ipc.Memory.Moves.{memset_lem}
use fast_ipc.Kalloc.{Kmem, kalloc, page_size}
use fast_ipc.Kalloc.FreeList.{
  IsPage, NotIn, Chain, Chain-same, SameOn-memset, SameOn-store64, memset-IsBytes,
}
use fast_ipc.Kalloc.Refine.{IsFree, kalloc_some, kalloc_none}
use fast_ipc.Vm.{
  descend, walk_from, pte_at, px, is_valid, pte2pa, pa2pte, pte_v, leaf, user_page, is_user,
}
use fast_ipc.Vm.Entries.{link_parts, leaf_parts, px-lt, pte_at_page}

-- The page of an address.
abbrev pub page_of : ℕ → ℕ
page_of x = x / page_size * page_size

-- The entries on the way from `pagetable` down are valid and lead to the entry at `a`, which lies
-- in none of the tables above it.
abbrev pub Reaches : (level pagetable va : ℕ) → Mem → (a : ℕ) → Type 0
Reaches zero pagetable va m a = a ≡ pte_at pagetable 0 va
Reaches (suc level) pagetable va m a =
    (is_valid (load64 m (pte_at pagetable (suc level) va)) ≡ true)
    × (pagetable % page_size ≡ 0)
    × (page_of a ≢ pagetable)
    × (a % 8 ≡ 0)
    × Reaches level (pte2pa (load64 m (pte_at pagetable (suc level) va))) va m a

-- A walk without `alloc` changes nothing.
pub walk_from_same :
    (level pagetable va : ℕ) (k : Kmem) → (walk_from level false pagetable va k).1 ≡ k
unfolding walk_from descend
walk_from_same zero pagetable va k = refl
walk_from_same (suc level) pagetable va k =
    ground
      (arith, walk_from_same level (pte2pa (load64 k.mem (pte_at pagetable (suc level) va))) va k)

pub Reaches-walk_from :
    (level pagetable va : ℕ) (k : Kmem) (a : ℕ)
    → Reaches level pagetable va k.mem a
    → walk_from level false pagetable va k ≡ (a, k)
unfolding walk_from descend
Reaches-walk_from zero pagetable va k a r = ground arith
Reaches-walk_from (suc level) pagetable va k a r = ground (
  arith,
  r.0,
  Reaches-walk_from level (pte2pa (load64 k.mem (pte_at pagetable (suc level) va))) va k a r.4,
)

-- A store into the entry that is reached leaves the way to it.
pub Reaches-store64 :
    (level pagetable va : ℕ) (m : Mem) (a v : ℕ)
    → Reaches level pagetable va m a
    → Reaches level pagetable va (store64 m a v) a
Reaches-store64 zero pagetable va m a v r = r
Reaches-store64 (suc level) pagetable va m a v r =
    rw same (r.0, r.1, r.2, r.3, Reaches-store64 level _ va m a v r.4)
  where
    same :
        load64 (store64 m a v) (pte_at pagetable (suc level) va)
        ≡ load64 m (pte_at pagetable (suc level) va)
    same =
        load64-store64_ne m a (pte_at pagetable (suc level) va) v
          (ground (arith, pte_at_page pagetable (suc level) va r.1, r.2, r.3))

abbrev pub In : ℕ → List ℕ → Type 0
In p [] = ⊥
In p (q ∷ qs) = (p ≡ q) ⊎ In p qs

-- Tables and free pages are apart.
abbrev pub Apart : List ℕ → List ℕ → Type 0
Apart [] ps = Unit {0}
Apart (t ∷ ts) ps = NotIn t ps × Apart ts ps

-- The tables on the way are pages, none of them free, and none twice.
abbrev pub IsPath : (level pagetable va : ℕ) → Mem → (free above : List ℕ) → Type 0
IsPath zero pagetable va m ps up =
    (pagetable % page_size ≡ 0) × NotIn pagetable ps × NotIn pagetable up
IsPath (suc level) pagetable va m ps up =
    (pagetable % page_size ≡ 0)
    × NotIn pagetable ps
    × NotIn pagetable up
    × (is_valid (load64 m (pte_at pagetable (suc level) va)) ≡ true
        → IsPath level (pte2pa (load64 m (pte_at pagetable (suc level) va))) va m ps
            (pagetable ∷ up))
