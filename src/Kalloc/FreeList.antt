-- ===== src/Kalloc/FreeList.antt =====
-- The list of pages that the memory threads from the head of the free list, and what stores
-- elsewhere leave of it.
use fast_ipc.Base.{ℕ, ◌+◌, ◌*◌, ◌/◌, ◌%◌, ◌≤◌, ◌<◌, ◌≡◌, ◌≢◌, arith, List, [], ◌∷◌, ◌⊎◌}
use fast_ipc.Memory.{Mem, memset, load64, store64}
use fast_ipc.Memory.Words.{IsBytes, load64_ext, load64-store64_ne}
use fast_ipc.Memory.Moves.{memset_lem}
use fast_ipc.Kalloc.{page_size, phys_stop}

-- A page that the allocator may hand out.

pub record IsPage (kernel_end pa : ℕ) : Type 0 where
  pub aligned : pa % page_size ≡ 0
  pub above : kernel_end ≤ pa
  pub below : pa < phys_stop

-- `p` is none of the pages `ps`.
abbrev pub NotIn : ℕ → List ℕ → Type 0
NotIn p [] = Unit {0}
NotIn p (q ∷ qs) = (p ≢ q) × NotIn p qs

-- The links from `head` on spell the pages `ps`, which are distinct.
abbrev pub Chain : ℕ → Mem → ℕ → List ℕ → Type 0
Chain e m head [] = head ≡ 0
Chain e m head (p ∷ ps) = (head ≡ p) × (p ≢ 0) × IsPage e p × NotIn p ps × Chain e m (load64 m p) ps

-- Two memories that agree on the pages `ps`.
abbrev pub SameOn : Mem → Mem → List ℕ → Type 0
SameOn m m' [] = Unit {0}
SameOn m m' (p ∷ ps) = (load64 m' p ≡ load64 m p) × SameOn m m' ps

pub Chain-same :
    (e : ℕ) (m m' : Mem) (head : ℕ) (ps : List ℕ)
    → SameOn m m' ps
    → Chain e m head ps
    → Chain e m' head ps
Chain-same e m m' head [] s c = c
Chain-same e m m' head (p ∷ ps) s c =
    (c.0, c.1, c.2, c.3, Chain-same e m m' (load64 m' p) ps s.1 (rw s.0 c.4))

pub load64-memset :
    (m : Mem) (pa c p : ℕ)
    → pa % page_size ≡ 0
    → p % page_size ≡ 0
    → pa ≢ p
    → load64 (memset m pa c page_size) p ≡ load64 m p
load64-memset m pa c p a b ne =
    load64_ext _ _ p (λ x lo hi. ground (arith, memset_lem m pa c page_size x))

pub memset-IsBytes : {m : Mem} (pa c n : ℕ) → IsBytes m → IsBytes (memset m pa c n)
memset-IsBytes {m} pa c n h x = ground (arith, memset_lem m pa c n x, h x)

-- Work inside a page that is not on the list leaves the links.
pub SameOn-memset :
    (e : ℕ) (m : Mem) (head pa c : ℕ) (ps : List ℕ)
    → pa % page_size ≡ 0
    → NotIn pa ps
    → Chain e m head ps
    → SameOn m (memset m pa c page_size) ps
SameOn-memset e m head pa c [] a n ch = tt
SameOn-memset e m head pa c (p ∷ ps) a n ch =
    (load64-memset m pa c p a (ch.2).aligned n.0, SameOn-memset e m (load64 m p) pa c ps a n.1 ch.4)

pub SameOn-store64 :
    (e : ℕ) (m : Mem) (head pa v : ℕ) (ps : List ℕ)
    → pa % 8 ≡ 0
    → NotIn (pa / page_size * page_size) ps
    → Chain e m head ps
    → SameOn m (store64 m pa v) ps
SameOn-store64 e m head pa v [] a n ch = tt
SameOn-store64 e m head pa v (p ∷ ps) a n ch = (
  load64-store64_ne m pa p v (apart (ch.2).aligned n.0),
  SameOn-store64 e m (load64 m p) pa v ps a n.1 ch.4,
)
  where
    apart : p % page_size ≡ 0 → pa / page_size * page_size ≢ p → (p + 8 ≤ pa) ⊎ (pa + 8 ≤ p)
    apart b ne = ground arith
