-- ===== src/Kalloc/Refine.antt =====
-- The allocator against a stack of free pages: `kalloc` pops, `kfree` pushes.
use fast_ipc.Base.{
  ◌↔◌, ℕ, zero, suc, ◌+◌, ◌-◌, ◌*◌, ◌/◌, ◌%◌, ◌≤◌, ◌<◌, ◌≡◌, ◌≢◌, refl, arith, List, [], ◌∷◌, leb,
  ◌⊎◌, ◌^◌, ok, panic, Bool-cases, inl, inr, false,
}
use fast_ipc.Memory.{Mem, memset, load64, store64}
use fast_ipc.Memory.Words.{IsBytes, load64-store64_self, store64-IsBytes}
use fast_ipc.Memory.Moves.{memset_lem}
use fast_ipc.Kalloc.{Kmem, kalloc, kfree, kinit, page_round_up, page_size, phys_stop, free_pages}
use fast_ipc.Kalloc.FreeList.{
  IsPage, NotIn, Chain, Chain-same, SameOn-memset, SameOn-store64, memset-IsBytes,
}

-- The free list holds exactly the pages `ps`, the next one to hand out first.

pub record IsFree (k : Kmem) (ps : List ℕ) : Type 0 where
  pub bytes : IsBytes k.mem
  pub has_base : 0 < k.kernel_end
  pub chain : Chain k.kernel_end k.mem k.freelist ps

-- With no page left `kalloc` returns 0 and changes nothing.
pub kalloc_none : (k : Kmem) → IsFree k [] → kalloc k ≡ (0, k)
unfolding kalloc
kalloc_none k f = ground (arith, f.chain)

kalloc_pop :
    (k : Kmem)
    → k.freelist ≢ 0
    → kalloc k ≡ (
      k.freelist,
      record k { mem = memset k.mem k.freelist 5 page_size; freelist = load64 k.mem k.freelist },
    )
unfolding kalloc
kalloc_pop k ne = ground arith

-- Where pages are free, `kalloc` returns the first of them, filled with 5, leaves the others on the
-- list, and changes no byte outside that page.
pub kalloc_some :
    (k : Kmem) (p : ℕ) (ps : List ℕ)
    → IsFree k (p ∷ ps)
    → ((kalloc k).0 ≡ p)
      × IsFree (kalloc k).1 ps
      × ((x : ℕ) → p ≤ x → x < p + page_size → (kalloc k).1.mem x ≡ 5)
      × ((x : ℕ) → (x < p) ⊎ (p + page_size ≤ x) → (kalloc k).1.mem x ≡ k.mem x)
kalloc_some k p ps f = rw (kalloc_pop k nonzero) (
  f.chain.0,
  record {
    bytes = memset-IsBytes k.freelist 5 page_size f.bytes;
    has_base = f.has_base;
    chain = rw f.chain.0 (Chain-same _ _ _ _ ps (SameOn-memset _ _ _ p 5 ps pg.aligned n c) c);
  },
  λ x lo hi. ground (arith, f.chain.0, memset_lem k.mem k.freelist 5 page_size x),
  λ x out. ground (arith, f.chain.0, memset_lem k.mem k.freelist 5 page_size x),
)
  where
    nonzero : k.freelist ≢ 0
    nonzero = ground (arith, f.chain.0, f.chain.1)

    pg : IsPage k.kernel_end p
    pg = f.chain.2

    n : NotIn p ps
    n = f.chain.3

    c : Chain k.kernel_end k.mem (load64 k.mem p) ps
    c = f.chain.4

Chain-head-lt : (e : ℕ) (m : Mem) (head : ℕ) (ps : List ℕ) → Chain e m head ps → head < 2 ^ 64
Chain-head-lt e m head [] c = omega arith
Chain-head-lt e m head (p ∷ ps) c = omega (arith, c.0, (c.2).below)

-- `kfree` of a page of the allocator that is not free puts it first on the list.
pub kfree_push :
    (pa : ℕ) (k : Kmem) (ps : List ℕ)
    → IsPage k.kernel_end pa
    → NotIn pa ps
    → IsFree k ps
    → (k' : Kmem) × (kfree pa k ≡ ok k') × (k'.kernel_end ≡ k.kernel_end) × IsFree k' (pa ∷ ps)
unfolding kfree
kfree_push pa k ps pg n f = (
  k',
  ground (arith, pg.aligned, pg.above, pg.below),
  refl,
  record {
    bytes = store64-IsBytes pa k.freelist (memset-IsBytes pa 1 page_size f.bytes);
    has_base = f.has_base;
    chain = (
      refl,
      omega (arith, pg.above, f.has_base),
      pg,
      n,
      rw (load64-store64_self junk pa k.freelist (Chain-head-lt _ _ _ ps f.chain)) linked,
    );
  },
)
  where
    junk : Mem
    junk = memset k.mem pa 1 page_size

    k' : Kmem
    k' = record k { mem = store64 junk pa k.freelist; freelist = pa }

    kept : Chain k.kernel_end junk k.freelist ps
    kept = Chain-same _ _ _ _ ps (SameOn-memset _ _ _ pa 1 ps pg.aligned n f.chain) f.chain

    start : pa / page_size * page_size ≡ pa
    start = omega (arith, pg.aligned)

    linked : Chain k.kernel_end (store64 junk pa k.freelist) k.freelist ps
    linked =
        Chain-same _ _ _ _ ps
          (SameOn-store64 _ _ _ pa k.freelist ps (omega (arith, pg.aligned)) (rw start n) kept) kept

-- `kfree` panics at an address that is no page of the allocator's, and at no other.
pub kfree_panics :
    (pa : ℕ) (k : Kmem)
    → (kfree pa k ≡ panic) ↔ ((pa % page_size ≢ 0) ⊎ ((pa < k.kernel_end) ⊎ (phys_stop ≤ pa)))
unfolding kfree
kfree_panics pa k = ground arith

-- The pages from `p` on, the last one first: what `free_pages` puts on the list.
pub pages_from : ℕ → ℕ → List ℕ → List ℕ
pages_from zero p acc = acc
pages_from (suc n) p acc = pages_from n (p + page_size) (p ∷ acc)

abbrev Below : ℕ → List ℕ → Type 0
Below p [] = Unit {0}
Below p (q ∷ qs) = (q < p) × Below p qs

Below-NotIn : (p : ℕ) (qs : List ℕ) → Below p qs → NotIn p qs
Below-NotIn p [] b = tt
Below-NotIn p (q ∷ qs) b = (omega (arith, b.0), Below-NotIn p qs b.1)

Below-mono : (p p' : ℕ) (qs : List ℕ) → p ≤ p' → Below p qs → Below p' qs
Below-mono p p' [] le b = tt
Below-mono p p' (q ∷ qs) le b = (omega (arith, b.0), Below-mono p p' qs le b.1)

-- `free_pages` succeeds, and frees each whole page of the range once.
free_pages_lem :
    (fuel p pa_end : ℕ) (k : Kmem) (ps : List ℕ)
    → p % page_size ≡ 0
    → k.kernel_end ≤ p
    → pa_end ≤ phys_stop
    → pa_end < p + page_size + fuel * page_size
    → Below p ps
    → IsFree k ps
    → (k' : Kmem) × (free_pages fuel p pa_end k ≡ ok k')
      × IsFree k' (pages_from ((pa_end - p) / page_size) p ps)
unfolding free_pages pages_from
free_pages_lem zero p pa_end k ps a lo hi enough b f = (k, refl, rw none_left f)
  where
    none_left : (pa_end - p) / page_size ≡ 0
    none_left = omega arith
free_pages_lem (suc fuel) p pa_end k ps a lo hi enough b f =
    elim (Bool-cases (leb (p + page_size) pa_end)) [
      | inl more ↦
          (let le : p + page_size ≤ pa_end = ground arith in
            let (k1, e1, same, f1) =
              kfree_push p k ps (record { aligned = a; above = lo; below = omega arith })
                (Below-NotIn p ps b) f in
            let (k2, e2, f2) =
              free_pages_lem fuel (p + page_size) pa_end k1 (p ∷ ps) (omega arith)
                (omega (arith, same)) hi (omega arith)
                (omega arith, Below-mono p (p + page_size) ps (omega arith) b) f1 in
            (k2, rw (more, e1) e2, rw (one_more le) f2))
      | inr done ↦ (k, rw done refl, rw (none_left done) f)
    ]
  where
    one_more :
        p + page_size ≤ pa_end
        → (pa_end - p) / page_size ≡ suc ((pa_end - (p + page_size)) / page_size)
    one_more le = omega arith

    none_left : leb (p + page_size) pa_end ≡ false → (pa_end - p) / page_size ≡ 0
    none_left done = ground arith

-- From an empty list `kinit` succeeds, and then each whole page from the end of the kernel to the
-- end of memory is free, once.
pub kinit_lem :
    (k : Kmem)
    → IsBytes k.mem
    → 0 < k.kernel_end
    → k.kernel_end ≤ phys_stop
    → k.freelist ≡ 0
    → (k' : Kmem) × (kinit k ≡ ok k')
      × IsFree k' (
          pages_from
            ((phys_stop - page_round_up k.kernel_end) / page_size)
            (page_round_up k.kernel_end)
            [])
unfolding kinit
kinit_lem k b pos le e =
    free_pages_lem (phys_stop / page_size) (page_round_up k.kernel_end) phys_stop k [] (omega arith)
      (omega arith) (omega arith) (omega arith) tt (record { bytes = b; has_base = pos; chain = e })

-- What `kfree` has just taken is what `kalloc` gives next, and the list is again what it was.
pub kalloc-kfree :
    (pa : ℕ) (k : Kmem) (ps : List ℕ)
    → IsPage k.kernel_end pa
    → NotIn pa ps
    → IsFree k ps
    → (k' : Kmem) × (kfree pa k ≡ ok k') × ((kalloc k').0 ≡ pa) × IsFree (kalloc k').1 ps
kalloc-kfree pa k ps pg n f =
    let (k', e, same, f') = kfree_push pa k ps pg n f in
    let (got, left, junk, rest) = kalloc_some k' pa ps f' in (k', e, got, left)
