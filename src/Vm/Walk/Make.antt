-- ===== src/Vm/Walk/Make.antt =====
-- `walk` with `alloc`: the tables that it makes, and that what it returns is reached afterwards.
use fast_ipc.Base.{
  ℕ, zero, suc, ◌+◌, ◌%◌, ◌<◌, ◌≤◌, ◌≡◌, ◌≢◌, ◌⊎◌, inl, inr, refl, sym, ◌∙◌, arith, true, false,
  List, [], ◌∷◌, none, some, Bool-cases,
}
use fast_ipc.Memory.{Mem, load64, store64, memset, load_le}
use fast_ipc.Memory.Words.{load64_ext, load64-store64_self, store64-IsBytes, store64_outside}
use fast_ipc.Memory.Moves.{memset_lem}
use fast_ipc.Kalloc.{Kmem, kalloc, page_size}
use fast_ipc.Kalloc.FreeList.{
  IsPage, NotIn, Chain, Chain-same, SameOn-memset, SameOn-store64, memset-IsBytes,
}
use fast_ipc.Kalloc.Refine.{IsFree, kalloc_some, kalloc_none}
use fast_ipc.Vm.{descend, walk_from, pte_at, is_valid, pte2pa, pa2pte, pte_v}
use fast_ipc.Vm.Entries.{link_parts, px-lt, pte_at_page}
use fast_ipc.Vm.Walk.{page_of, Reaches, In, Apart, IsPath}

-- Where the entry is valid `descend` follows it.

descend_valid :
    (level pt va : ℕ) (k : Kmem)
    → is_valid (load64 k.mem (pte_at pt level va)) ≡ true
    → descend true level pt va k ≡ (some (pte2pa (load64 k.mem (pte_at pt level va))), k)
unfolding descend
descend_valid level pt va k v = ground arith

descend_full :
    (level pt va : ℕ) (k : Kmem)
    → is_valid (load64 k.mem (pte_at pt level va)) ≡ false
    → kalloc k ≡ (0, k)
    → descend true level pt va k ≡ (none, k)
unfolding descend
descend_full level pt va k v e = ground (arith, v, e)

-- The state after a new table `page` has been zeroed and entered.
linked : (level pt va : ℕ) → Kmem → Kmem
linked level pt va k = record ((kalloc k).1) {
  mem =
      store64 (memset (kalloc k).1.mem (kalloc k).0 0 page_size) (pte_at pt level va)
        (pa2pte (kalloc k).0 + pte_v);
}

descend_made :
    (level pt va : ℕ) (k : Kmem)
    → is_valid (load64 k.mem (pte_at pt level va)) ≡ false
    → (kalloc k).0 ≢ 0
    → descend true level pt va k ≡ (some (kalloc k).0, linked level pt va k)
unfolding descend linked
descend_made level pt va k v ne = ground arith

-- A word of a table whose bytes are kept.
word_kept :
    (m m' : Mem) (pt level va : ℕ)
    → pt % page_size ≡ 0
    → ((x : ℕ) → page_of x ≡ pt → m' x ≡ m x)
    → load64 m' (pte_at pt level va) ≡ load64 m (pte_at pt level va)
word_kept m m' pt level va a h = load64_ext m' m _ (λ x lo hi. h x (omega (arith, px-lt level va)))

-- What a walk from `pt` leaves: a free list, the pages above as they were, and 0 or an entry that
-- is reached, outside the pages above.
pub record Walked (level pt va : ℕ) (k k' : Kmem) (a : ℕ) (up : List ℕ) : Type 0 where
  pub free : (ps : List ℕ) × IsFree k' ps
  pub kept : (x : ℕ) → In (page_of x) up → k'.mem x ≡ k.mem x
  pub reached : (a ≡ 0) ⊎ (Reaches level pt va k'.mem a × NotIn (page_of a) up × (a % 8 ≡ 0))

-- One level more, over a step from `k` to `k1` that entered or found the table `next`.
Walked-suc :
    (level pt va next : ℕ) (k k1 k' : Kmem) (a : ℕ) (up : List ℕ)
    → pt % page_size ≡ 0
    → is_valid (load64 k1.mem (pte_at pt (suc level) va)) ≡ true
    → pte2pa (load64 k1.mem (pte_at pt (suc level) va)) ≡ next
    → ((x : ℕ) → In (page_of x) up → k1.mem x ≡ k.mem x)
    → Walked level next va k1 k' a (pt ∷ up)
    → Walked (suc level) pt va k k' a up
Walked-suc level pt va next k k1 k' a up al v e kept w = record {
  free = w.free;
  kept = λ x h. w.kept x (inr h) ∙ kept x h;
  reached = climb w.reached;
}
  where
    same : load64 k'.mem (pte_at pt (suc level) va) ≡ load64 k1.mem (pte_at pt (suc level) va)
    same = word_kept k1.mem k'.mem pt (suc level) va al (λ x h. w.kept x (inl h))

    climb :
        (a ≡ 0) ⊎ (Reaches level next va k'.mem a × NotIn (page_of a) (pt ∷ up) × (a % 8 ≡ 0))
        → (a ≡ 0) ⊎ (Reaches (suc level) pt va k'.mem a × NotIn (page_of a) up × (a % 8 ≡ 0))
    climb (inl z) = inl z
    climb (inr (r, n, m8)) = inr ((rw same v, al, n.0, m8, rw (same, e) r), n.1, m8)

In-ne : (q p : ℕ) (up : List ℕ) → In q up → NotIn p up → q ≢ p
In-ne q p [] i n = absurd i
In-ne q p (t ∷ up) (inl e) n = λ h. n.0 (sym h ∙ e)
In-ne q p (t ∷ up) (inr i) n = In-ne q p up i n.1

Apart-ne : (q p : ℕ) (ps up : List ℕ) → In q up → Apart up (p ∷ ps) → q ≢ p
Apart-ne q p ps [] i a = absurd i
Apart-ne q p ps (t ∷ up) (inl e) a = λ h. a.0.0 (sym e ∙ h)
Apart-ne q p ps (t ∷ up) (inr i) a = Apart-ne q p ps up i a.1

Apart-tail : (p : ℕ) (ps up : List ℕ) → Apart up (p ∷ ps) → Apart up ps
Apart-tail p ps [] a = tt
Apart-tail p ps (t ∷ up) a = (a.0.1, Apart-tail p ps up a.1)

-- A free page is none of the tables above.
Apart-NotIn : (p : ℕ) (ps up : List ℕ) → Apart up (p ∷ ps) → NotIn p up
Apart-NotIn p ps [] a = tt
Apart-NotIn p ps (t ∷ up) a = (λ e. a.0.0 (sym e), Apart-NotIn p ps up a.1)

-- A word of a page of zeroes is 0.
zero_word : (m : Mem) (a : ℕ) → ((x : ℕ) → a ≤ x → x < a + 8 → m x ≡ 0) → load64 m a ≡ 0
zero_word m a h = load64_ext m (λ x. 0) a h ∙ zeroes a
  where
    zeroes : (a : ℕ) → load64 (λ x. 0) a ≡ 0
    zeroes a = unfold load64 load_le in refl

-- What making the table `p` for the entry of `pt` leaves.
module _ (level pt va p : ℕ) (k : Kmem) (ps : List ℕ) (f : IsFree k (p ∷ ps))
    (al : pt % page_size ≡ 0) (n : NotIn pt (p ∷ ps)) where
  page_is : (kalloc k).0 ≡ p
  page_is = (kalloc_some k p ps f).0

  IsPage-fits : IsPage k.kernel_end p
  IsPage-fits = f.chain.2

  blank : Mem
  blank = memset (kalloc k).1.mem p 0 page_size

  linked_mem :
      linked level pt va k
      ≡ record ((kalloc k).1) { mem = store64 blank (pte_at pt level va) (pa2pte p + pte_v) }
  unfolding blank linked
  linked_mem = rw page_is refl

  linked-IsFree : IsFree (linked level pt va k) ps
  unfolding blank
  linked-IsFree =
      let (got, f1, junk, rest) = kalloc_some k p ps f in
      let c1 : Chain (kalloc k).1.kernel_end blank (kalloc k).1.freelist ps =
        Chain-same _ _ _ _ ps (SameOn-memset _ _ _ p 0 ps IsPage-fits.aligned f.chain.3 f1.chain)
          f1.chain in
      rw linked_mem (record {
        bytes =
            store64-IsBytes (pte_at pt level va) (pa2pte p + pte_v)
              (memset-IsBytes p 0 page_size f1.bytes);
        has_base = f1.has_base;
        chain =
            Chain-same _ _ _ _ ps
              (SameOn-store64 _ _ _ (pte_at pt level va) (pa2pte p + pte_v) ps
                (pte_at_page pt level va al).1 (rw (pte_at_page pt level va al).0 n.1) c1)
              c1;
      })

  linked_entry : load64 (linked level pt va k).mem (pte_at pt level va) ≡ pa2pte p + pte_v
  linked_entry = rw linked_mem (
      load64-store64_self blank (pte_at pt level va) (pa2pte p + pte_v)
        (link_parts p IsPage-fits.aligned (omega (arith, IsPage-fits.below))).2)

  linked_kept : (x : ℕ) → page_of x ≢ p → page_of x ≢ pt → (linked level pt va k).mem x ≡ k.mem x
  unfolding blank
  linked_kept x np npt = rw linked_mem (
      store64_outside blank (pte_at pt level va) (pa2pte p + pte_v) x (off_entry)
      ∙ off_page
      ∙ (kalloc_some k p ps f).3 x (omega (arith, IsPage-fits.aligned)))
    where
      off_entry : (x < pte_at pt level va) ⊎ (pte_at pt level va + 8 ≤ x)
      off_entry = ground (arith, px-lt level va)

      off_page : blank x ≡ (kalloc k).1.mem x
      off_page = ground (arith, memset_lem (kalloc k).1.mem p 0 page_size x, IsPage-fits.aligned)

  linked_blank : (l v : ℕ) → load64 (linked level pt va k).mem (pte_at p l v) ≡ 0
  unfolding blank
  linked_blank l v = rw linked_mem (
      zero_word _ (pte_at p l v) (λ x lo hi.
        store64_outside blank (pte_at pt level va) (pa2pte p + pte_v) x (off_entry x lo hi)
        ∙ ground (arith, memset_lem (kalloc k).1.mem p 0 page_size x, px-lt l v)))
    where
      off_entry :
          (x : ℕ)
          → pte_at p l v ≤ x
          → x < pte_at p l v + 8
          → (x < pte_at pt level va) ⊎ (pte_at pt level va + 8 ≤ x)
      off_entry x lo hi = ground (arith, px-lt level va, px-lt l v, IsPage-fits.aligned, n.0)

walk_from-some :
    (level pt va next : ℕ) (k k1 : Kmem)
    → descend true (suc level) pt va k ≡ (some next, k1)
    → walk_from (suc level) true pt va k ≡ walk_from level true next va k1
unfolding walk_from
walk_from-some level pt va next k k1 e = ground (arith, e)

walk_from-none :
    (level pt va : ℕ) (k k1 : Kmem)
    → descend true (suc level) pt va k ≡ (none, k1)
    → walk_from (suc level) true pt va k ≡ (0, k1)
unfolding walk_from
walk_from-none level pt va k k1 e = ground (arith, e)

-- The new table's path: its entries are 0.
IsPath-blank :
    (level p va : ℕ) (m : Mem) (ps up : List ℕ)
    → p % page_size ≡ 0
    → NotIn p ps
    → NotIn p up
    → ((l v : ℕ) → load64 m (pte_at p l v) ≡ 0)
    → IsPath level p va m ps up
IsPath-blank zero p va m ps up a n o z = (a, n, o)
IsPath-blank (suc level) p va m ps up a n o z =
    (a, n, o, λ v. absurd (ground (arith, z (suc level) va)))

-- After `walk` with `alloc`, begun on tables that are pages of their own, the entry that it returns
-- is reached by a walk without it, the pages of the tables above are as they were, and the pages
-- left over are still a free list; or it returns 0.
pub walk_from-Walked :
    (level pt va : ℕ) (k : Kmem) (ps up : List ℕ)
    → IsFree k ps
    → Apart up ps
    → IsPath level pt va k.mem ps up
    → Walked level pt va k (walk_from level true pt va k).1 (walk_from level true pt va k).0 up
walk_from-Walked zero pt va k ps up f apart path =
    unfold walk_from in
    (record {
      free = (ps, f);
      kept = λ x h. refl;
      reached = let (page, m8) = pte_at_page pt 0 va path.0 in inr (refl, rw page path.2, m8);
    })
walk_from-Walked (suc level) pt va k ps up f apart path =
    elim (Bool-cases (is_valid (load64 k.mem (pte_at pt (suc level) va)))) [
      | inl v ↦ rw (walk_from-some level pt va _ k k (descend_valid (suc level) pt va k v)) (
          Walked-suc level pt va _ k k _ _ up path.0 v refl (λ x h. refl)
            (walk_from-Walked level _ va k ps (pt ∷ up) f (path.1, apart) (path.3 v)))
      | inr v ↦ made ps f apart path v (walk_from-Walked level)
    ]
  where
    made :
        (ps : List ℕ)
        → IsFree k ps
        → Apart up ps
        → IsPath (suc level) pt va k.mem ps up
        → is_valid (load64 k.mem (pte_at pt (suc level) va)) ≡ false
        → ((next va : ℕ) (k1 : Kmem) (qs up : List ℕ)
            → IsFree k1 qs
            → Apart up qs
            → IsPath level next va k1.mem qs up
            → Walked level next va k1
                (walk_from level true next va k1).1
                (walk_from level true next va k1).0
                up)
        → Walked
            (suc level)
            pt
            va
            k
            (walk_from (suc level) true pt va k).1
            (walk_from (suc level) true pt va k).0
            up
    made [] f apart path v rec =
        rw (walk_from-none level pt va k k (descend_full (suc level) pt va k v (kalloc_none k f)))
          (record { free = ([], f); kept = λ x h. refl; reached = inl refl })
    made (p ∷ ps) f apart path v rec =
        let e : (kalloc k).0 ≡ p = page_is (suc level) pt va p k ps f path.0 path.1 in
        let k1 : Kmem = linked (suc level) pt va k in
        let d = descend_made (suc level) pt va k v (λ z. f.chain.1 (sym e ∙ z)) in
        let entered = linked_entry (suc level) pt va p k ps f path.0 path.1 in
        let (to_p, is_v, small) =
          link_parts p (f.chain.2).aligned (omega (arith, (f.chain.2).below)) in
        let step : walk_from (suc level) true pt va k ≡ walk_from level true p va k1 =
          walk_from-some level pt va p k k1 (rw e at d) in
        let below : IsPath level p va k1.mem ps (pt ∷ up) =
          IsPath-blank level p va k1.mem ps (pt ∷ up) (f.chain.2).aligned f.chain.3
            ((λ h. path.1.0 (sym h)), Apart-NotIn p ps up apart)
            (linked_blank (suc level) pt va p k ps f path.0 path.1) in
        rw step (
          Walked-suc level pt va p k k1 _ _ up path.0 (rw entered is_v) (rw entered to_p)
            (λ x h.
              linked_kept (suc level) pt va p k ps f path.0 path.1 x (Apart-ne _ p ps up h apart)
                (In-ne _ pt up h path.2))
            (rec p va k1 ps (pt ∷ up) (linked-IsFree (suc level) pt va p k ps f path.0 path.1)
              (path.1.1, Apart-tail p ps up apart) below))
