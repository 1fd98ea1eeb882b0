-- ===== src/Ringbuf/Calls/Close.antt =====
-- Closing one end of a ring whose other end is open, and closing it again.
use fast_ipc.Base.{
  ℕ, zero, suc, ◌+◌, ◌*◌, ◌%◌, ◌<◌, ◌≡◌, refl, sym, ap, ◌∙◌, arith, List, [], ◌∷◌, some, Bool, true,
  false, not, ok, panic, >>=-eq-ok, set, length, get_or, get_or-set_self, if◌then◌else◌,
}
use fast_ipc.Kalloc.{Kmem, page_size}
use fast_ipc.Text.{strcmp}
use fast_ipc.Vm.{uvmunmap}
use fast_ipc.Vm.Unmap.{Cleared, Cleared-refl, Cleared-trans, uvmunmap-Cleared, uvmunmap_panics}
use fast_ipc.Ringbuf.{Kernel, Ringbuf, entry, find_name, no_ring, is_zero, ringbuf_size}
use fast_ipc.Ringbuf.Calls.{
  closebuf, close_at, closing, still_open, unmap_ring, unmap_each, has_end, dec,
}

unmap_each-Cleared :
    (count pt d : ℕ) (m m' : Kmem)
    → pt % 8 ≡ 0
    → unmap_each count pt d false m ≡ ok m'
    → Cleared m.mem m'.mem
unfolding unmap_each
unmap_each-Cleared zero pt d m m' al e = let same : m ≡ m' = cc in rw (← same) (Cleared-refl m.mem)
unmap_each-Cleared (suc count) pt d m m' al e =
    let (m1, e1, rest) = >>=-eq-ok (uvmunmap pt d 1 false m) _ e in
    Cleared-trans m.mem m1.mem m'.mem (uvmunmap-Cleared pt d m m1 al e1).0
      (unmap_each-Cleared count pt (d + page_size) m1 m' al rest)

unmap_each_first :
    (count pt d : ℕ) (b : Bool) (m m' : Kmem)
    → unmap_each (suc count) pt d b m ≡ ok m'
    → (m0 : Kmem) × (uvmunmap pt d 1 b m ≡ ok m0)
      × (unmap_each count pt (d + page_size) b m0 ≡ ok m')
unfolding unmap_each
unmap_each_first count pt d b m m' e = >>=-eq-ok (uvmunmap pt d 1 b m) _ e

-- After a ring has been unmapped without freeing its pages, unmapping its first page again panics.
unmap_ring_again :
    (pt d : ℕ) (b : Bool) (m m' : Kmem)
    → pt % 8 ≡ 0
    → unmap_ring pt d false m ≡ ok m'
    → uvmunmap pt d 1 b m' ≡ panic
unfolding unmap_ring
unmap_ring_again pt d b m m' al e =
    let (m1, e1, r1) = >>=-eq-ok (unmap_each ringbuf_size pt d false m) _ e in
    let (m2, e2, e3) =
      >>=-eq-ok (unmap_each ringbuf_size pt (d + ringbuf_size * page_size) false m1) _ r1 in
    let (m0, e0, later) = unmap_each_first 15 pt d false m m1 e1 in
    let (first, gone) = uvmunmap-Cleared pt d m m0 al e0 in
    let rest1 = unmap_each-Cleared 15 pt (d + page_size) m0 m1 al later in
    let rest2 = unmap_each-Cleared 16 pt (d + ringbuf_size * page_size) m1 m2 al e2 in
    let rest3 = (uvmunmap-Cleared pt (d + 2 * ringbuf_size * page_size) m2 m' al e3).0 in
    uvmunmap_panics pt d b m m0 m' al first gone
      (Cleared-trans m0.mem m1.mem m'.mem rest1 (Cleared-trans m1.mem m2.mem m'.mem rest2 rest3))

-- A panic at the first page is one of the whole.
unmap_ring_panics :
    (pt d : ℕ) (b : Bool) (m : Kmem) → uvmunmap pt d 1 b m ≡ panic → unmap_ring pt d b m ≡ panic
unfolding unmap_ring unmap_each
unmap_ring_panics pt d b m e = rw e

-- A change that keeps the name of an entry keeps what is found.
find_name-set :
    (s : List ℕ) (rs : List Ringbuf) (i j : ℕ) (r : Ringbuf)
    → r.name ≡ (get_or rs i no_ring).name
    → find_name s (set rs i r) j ≡ find_name s rs j
unfolding find_name
find_name-set s [] i j r e = refl
find_name-set s (q ∷ rs) zero j r e = rw e
find_name-set s (q ∷ rs) (suc i) j r e =
    ap (λ o. if is_zero (strcmp s q.name) then some j else o) (find_name-set s rs i (j + 1) r e)

closebuf_at :
    (k : Kernel) (straddr : List ℕ) (i : ℕ)
    → find_name straddr k.ringbufs 0 ≡ some i
    → closebuf k straddr ≡ close_at k i
unfolding closebuf
closebuf_at k straddr i found = ground (arith, found)

closing_open :
    (r : Ringbuf) → still_open r ≡ true → closing r ≡ record r { refcount = dec r.refcount }
unfolding closing
closing_open r opened = ground (arith, opened)

-- `closebuf` while the other end is open: the entry is counted once less and keeps its name, its
-- address and both pids, also that of the process that closes, which so still counts as an owner.
pub closebuf_open :
    (k : Kernel) (straddr : List ℕ) (i : ℕ) {k' : Kernel}
    → find_name straddr k.ringbufs 0 ≡ some i
    → still_open (entry k i) ≡ true
    → closebuf k straddr ≡ ok k'
    → (k'.ringbufs ≡ set k.ringbufs i (record (entry k i) { refcount = dec (entry k i).refcount }))
      × (k'.pagetable ≡ k.pagetable)
      × (unmap_ring k.pagetable (entry k i).vabuf false k.kmem ≡ ok k'.kmem)
unfolding close_at
closebuf_open k straddr i {k'} found opened e =
    let (m, e1, last) =
      >>=-eq-ok (unmap_ring k.pagetable (entry k i).vabuf (not (still_open (entry k i))) k.kmem) _
        (sym (closebuf_at k straddr i found) ∙ e) in
    let made : k' ≡ record k {
      ringbufs = set k.ringbufs i (closing (entry k i));
      kmem = m;
      valid_ring_buf = has_end k.pid (set k.ringbufs i (closing (entry k i)));
    } =
      cc last in
    (
      ap (λ (x : Kernel). x.ringbufs) made
          ∙ ap (λ r. set k.ringbufs i r) (closing_open (entry k i) opened),
      ap (λ (x : Kernel). x.pagetable) made,
      ap (λ b. unmap_ring k.pagetable (entry k i).vabuf (not b) k.kmem) (sym opened)
          ∙ e1
          ∙ ap (λ (x : Kernel). ok x.kmem) (sym made),
    )

close_at_panics :
    (k : Kernel) (i : ℕ)
    → unmap_ring k.pagetable (entry k i).vabuf (not (still_open (entry k i))) k.kmem ≡ panic
    → close_at k i ≡ panic
unfolding close_at
close_at_panics k i e = rw e

-- Closing a ring twice from one process, the first time while the other end is open, panics: the
-- first call leaves the entry in place with its pages unmapped.
pub closebuf_twice :
    (k : Kernel) (straddr : List ℕ) (i : ℕ) {k' : Kernel}
    → i < length k.ringbufs
    → k.pagetable % 8 ≡ 0
    → find_name straddr k.ringbufs 0 ≡ some i
    → still_open (entry k i) ≡ true
    → closebuf k straddr ≡ ok k'
    → closebuf k' straddr ≡ panic
closebuf_twice k straddr i {k'} lt al found opened e =
    let (table, same_pt, unmapped) = closebuf_open k straddr i found opened e in
    let q : Ringbuf = record (entry k i) { refcount = dec (entry k i).refcount } in
    let again : find_name straddr k'.ringbufs 0 ≡ some i =
      ap (λ rs. find_name straddr rs 0) table
      ∙ find_name-set straddr k.ringbufs i 0 q refl
      ∙ found in
    let at : entry k' i ≡ q =
      ap (λ rs. get_or rs i no_ring) table ∙ get_or-set_self k.ringbufs i q no_ring lt in
    let stops : unmap_ring k'.pagetable (entry k' i).vabuf (not (still_open (entry k' i))) k'.kmem
        ≡ panic =
      rw (same_pt, at)
        (unmap_ring_panics k.pagetable q.vabuf _ k'.kmem
          (unmap_ring_again k.pagetable q.vabuf _ k.kmem k'.kmem al unmapped)) in
    closebuf_at k' straddr i again ∙ close_at_panics k' i stops
