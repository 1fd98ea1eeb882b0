-- ===== src/Vm/Grow.antt =====
-- The size of a process: kernel/vm.c, the functions that make, grow, shrink, copy and free a user
-- address space.
use fast_ipc.Base.{
  ℕ, zero, suc, ◌+◌, ◌-◌, ◌*◌, ◌/◌, ◌%◌, Bool, true, false, not, ◌&&◌, ◌||◌, ltb, leb, ◌==◌,
  if◌then◌else◌, Outcome, ok, panic, fault, ◌>>=◌,
}
use fast_ipc.Memory.{load64, store64, memset, memmove}
use fast_ipc.Kalloc.{Kmem, kalloc, kfree, page_size, page_round_up}
use fast_ipc.Vm.{
  pte_r, pte_w, pte_x, pte_u, is_valid, is_user, pte_flags, pte2pa, walk, mappages, max_pages,
  uvmunmap,
}

unfoldable pub uvmcreate : Kmem → ℕ × Kmem
uvmcreate k =
    let (page, k1) = kalloc k in
    if page == 0 then (0, k1) else (page, record k1 { mem = memset k1.mem page 0 page_size })

unfoldable pub uvminit : (pagetable src sz : ℕ) → Kmem → Outcome Kmem
uvminit pagetable src sz k =
    if leb page_size sz
    then panic
    else let (page, k1) = kalloc k in
      let k2 = record k1 { mem = memset k1.mem page 0 page_size } in
      mappages pagetable 0 page_size page (pte_w + pte_r + pte_x + pte_u) k2 >>= λ r.
      ok (record (r.1) { mem = memmove r.1.mem page src sz })

-- `uvmdealloc`: the new size and the state.
unfoldable pub uvmdealloc : (pagetable oldsz newsz : ℕ) → Kmem → Outcome (ℕ × Kmem)
uvmdealloc pagetable oldsz newsz k =
    if leb oldsz newsz
    then ok (oldsz, k)
    else if ltb (page_round_up newsz) (page_round_up oldsz)
    then (uvmunmap pagetable (page_round_up newsz)
          ((page_round_up oldsz - page_round_up newsz) / page_size) true k
        >>= λ k'. ok (newsz, k'))
    else ok (newsz, k)

-- The loop of `uvmalloc` at page `a`, on fuel: 0 for an error, after the pages from `oldsz` on have
-- been given back.
pub alloc_from : (fuel pagetable oldsz newsz a : ℕ) → Kmem → Outcome (ℕ × Kmem)
alloc_from zero pagetable oldsz newsz a k = fault
alloc_from (suc fuel) pagetable oldsz newsz a k =
    let page = (kalloc k).0 in
    let k1 = (kalloc k).1 in
    let undo = λ (k' : Kmem). uvmdealloc pagetable a oldsz k' >>= λ r. ok (0, r.1) in
    let rest =
      mappages pagetable a page_size page (pte_w + pte_x + pte_r + pte_u)
        (record k1 { mem = memset k1.mem page 0 page_size })
      >>= λ r.
          if r.0
          then alloc_from fuel pagetable oldsz newsz (a + page_size) r.1
          else kfree page r.1 >>= undo in
    if ltb a newsz then (if page == 0 then undo k1 else rest) else ok (newsz, k)

pub uvmalloc : (pagetable oldsz newsz : ℕ) → Kmem → Outcome (ℕ × Kmem)
uvmalloc pagetable oldsz newsz k =
    if ltb newsz oldsz
    then ok (oldsz, k)
    else alloc_from (max_pages + 1) pagetable (page_round_up oldsz) newsz (page_round_up oldsz) k

-- The loop of `freewalk` over the entries from `i` on, with what it calls for a lower table.
pub free_entries : (ℕ → Kmem → Outcome Kmem) → (left i pagetable : ℕ) → Kmem → Outcome Kmem
free_entries lower zero i pagetable k = ok k
free_entries lower (suc left) i pagetable k =
    let pte = load64 k.mem (pagetable + 8 * i) in
    (if is_valid pte && pte / 2 % 8 == 0
      then (lower (pte2pa pte) k >>= λ k'.
          ok (record k' { mem = store64 k'.mem (pagetable + 8 * i) 0 }))
      else if is_valid pte
      then panic
      else ok k)
    >>= free_entries lower left (i + 1) pagetable

-- `freewalk`, for a tree of at most `depth` levels.
pub freewalk : (depth pagetable : ℕ) → Kmem → Outcome Kmem
freewalk zero pagetable k = fault
freewalk (suc depth) pagetable k =
    free_entries (freewalk depth) 512 0 pagetable k >>= kfree pagetable

pub uvmfree : (pagetable sz : ℕ) → Kmem → Outcome Kmem
uvmfree pagetable sz k =
    (if ltb 0 sz then uvmunmap pagetable 0 (page_round_up sz / page_size) true k else ok k)
    >>= freewalk 3 pagetable

-- The loop of `uvmcopy` at page `i`, with `left` pages to go.
unfoldable pub copy_pages : (left old new i : ℕ) → Kmem → Outcome (Bool × Kmem)
copy_pages zero old new i k = ok (true, k)
copy_pages (suc left) old new i k = walk false old i k >>= λ r.
    let pte = load64 k.mem r.0 in
    let page = (kalloc k).0 in
    let k1 = (kalloc k).1 in
    let undo = λ (k' : Kmem). uvmunmap new 0 (i / page_size) true k' >>= λ k''. ok (false, k'') in
    if r.0 == 0 || not (is_valid pte)
    then panic
    else if page == 0
    then undo k1
    else mappages new i page_size page (pte_flags pte)
        (record k1 { mem = memmove k1.mem page (pte2pa pte) page_size })
      >>= λ s. if s.0 then copy_pages left old new (i + page_size) s.1 else kfree page s.1 >>= undo

-- `uvmcopy`: one round for each page that begins below `sz`.
unfoldable pub uvmcopy : (old new sz : ℕ) → Kmem → Outcome (Bool × Kmem)
uvmcopy old new sz k = copy_pages ((sz + page_size - 1) / page_size) old new 0 k

pub uvmclear : (pagetable va : ℕ) → Kmem → Outcome Kmem
uvmclear pagetable va k = walk false pagetable va k >>= λ r.
    let pte = load64 r.1.mem r.0 in
    if r.0 == 0
    then panic
    else ok (record (r.1) { mem = store64 r.1.mem r.0 (if is_user pte then pte - pte_u else pte) })
