-- ===== src/Vm.antt =====
-- Page tables and user memory, kernel/vm.c, with the macros of kernel/riscv.h that it uses.
-- A page table is the address of its page, and an entry a 64-bit word of the byte memory. A
-- function that returns -1 returns `false` here, and its state beside it; the state is also what
-- the code leaves behind on an error.
pub mod Grow
pub mod Copy
pub mod Entries
pub mod Walk
pub mod Ends
pub mod Unmap
pub mod Sample
mod Tests
use fast_ipc.Base.{
  ℕ, zero, suc, ◌+◌, ◌-◌, ◌*◌, ◌/◌, ◌%◌, ◌^◌, Bool, true, false, not, ◌&&◌, ◌||◌, ltb, leb, ◌==◌,
  if◌then◌else◌, Option, none, some, Outcome, ok, panic, fault, ◌>>=◌, u64,
}
use fast_ipc.Memory.{Mem, load64, store64, store8, memset, memmove, mymemmove}
use fast_ipc.Kalloc.{Kmem, kalloc, kfree, page_size, page_round_up, page_round_down}

-- `MAXVA`
abbrev pub max_va : ℕ
max_va = 2 ^ 38

abbrev pub pte_v : ℕ
pte_v = 1

abbrev pub pte_r : ℕ
pte_r = 2

abbrev pub pte_w : ℕ
pte_w = 4

abbrev pub pte_x : ℕ
pte_x = 8

abbrev pub pte_u : ℕ
pte_u = 16

-- `*pte & PTE_V` and `*pte & PTE_U`
abbrev pub is_valid : ℕ → Bool
is_valid pte = pte % 2 == 1

abbrev pub is_user : ℕ → Bool
is_user pte = pte / 16 % 2 == 1

-- `PTE_FLAGS`, `PA2PTE`, `PTE2PA`
abbrev pub pte_flags : ℕ → ℕ
pte_flags pte = pte % 1024

abbrev pub pa2pte : ℕ → ℕ
pa2pte pa = pa / 4096 * 1024

abbrev pub pte2pa : ℕ → ℕ
pte2pa pte = u64 (pte / 1024 * 4096)

-- `PA2PTE(pa) | perm | PTE_V`, for `perm` within the ten bits of flags, as in every call.
abbrev pub leaf : ℕ → ℕ → ℕ
leaf pa perm = pa2pte pa + (perm / 2 * 2 + 1)

-- `PX(level, va)`
abbrev pub px : ℕ → ℕ → ℕ
px zero va = va / 4096 % 512
px (suc level) va = px level (va / 512)

-- `&pagetable[PX(level, va)]`
abbrev pub pte_at : ℕ → ℕ → ℕ → ℕ
pte_at pagetable level va = pagetable + 8 * px level va

-- One round of the loop of `walk`: the table of the next level, if it is there or can be made.
unfoldable pub descend : (alloc : Bool) → (level pagetable va : ℕ) → Kmem → Option ℕ × Kmem
descend alloc level pagetable va k =
    if is_valid pte
    then (some (pte2pa pte), k)
    else if not alloc
    then (none, k)
    else if page == 0
    then (none, k1)
    else (some page, linked)
  where
    pte : ℕ
    pte = load64 k.mem (pte_at pagetable level va)

    page : ℕ
    page = (kalloc k).0

    k1 : Kmem
    k1 = (kalloc k).1

    linked : Kmem
    linked = record k1 {
      mem =
          store64 (memset k1.mem page 0 page_size) (pte_at pagetable level va)
            (pa2pte page + pte_v);
    }

-- The loop of `walk`, from `level` down.
unfoldable pub walk_from : (level : ℕ) → (alloc : Bool) → (pagetable va : ℕ) → Kmem → ℕ × Kmem
walk_from zero alloc pagetable va k = (pte_at pagetable 0 va, k)
walk_from (suc level) alloc pagetable va k = elim (descend alloc (suc level) pagetable va k).0 [
  | none ↦ (0, (descend alloc (suc level) pagetable va k).1)
  | some next ↦ walk_from level alloc next va (descend alloc (suc level) pagetable va k).1
]

-- `walk`: the address of the entry for `va`, 0 for none.
unfoldable pub walk : (alloc : Bool) → (pagetable va : ℕ) → Kmem → Outcome (ℕ × Kmem)
walk alloc pagetable va k = if leb max_va va then panic else ok (walk_from 2 alloc pagetable va k)

-- What `walkaddr` makes of the entry at `pte`.
abbrev pub user_page : Kmem → ℕ → ℕ
user_page k pte =
    if pte == 0
    then 0
    else if not (is_valid (load64 k.mem pte))
    then 0
    else if not (is_user (load64 k.mem pte))
    then 0
    else pte2pa (load64 k.mem pte)

-- `walkaddr`. Without `alloc` the walk changes nothing.
unfoldable pub walkaddr : (pagetable va : ℕ) → Kmem → Outcome ℕ
walkaddr pagetable va k =
    if leb max_va va then ok 0 else walk false pagetable va k >>= λ r. ok (user_page r.1 r.0)

-- The loop of `mappages` at page `a`, on fuel.
unfoldable pub map_from : (fuel pagetable a last pa perm : ℕ) → Kmem → Outcome (Bool × Kmem)
map_from zero pagetable a last pa perm k = fault
map_from (suc fuel) pagetable a last pa perm k = walk true pagetable a k >>= λ r.
    if r.0 == 0
    then ok (false, r.1)
    else if is_valid (load64 r.1.mem r.0)
    then panic
    else let k' = record r.1 { mem = store64 r.1.mem r.0 (leaf pa perm) } in
      let rest = map_from fuel pagetable (a + page_size) last (pa + page_size) perm k' in
      if a == last then ok (true, k') else rest

-- A walk panics from `max_va` on, which bounds the rounds.
abbrev pub max_pages : ℕ
max_pages = max_va / page_size + 1

unfoldable pub mappages : (pagetable va size pa perm : ℕ) → Kmem → Outcome (Bool × Kmem)
mappages pagetable va size pa perm k =
    map_from max_pages pagetable (page_round_down va)
      (page_round_down (u64 (va + size + 2 ^ 64 - 1))) pa perm k

pub kvmmap : (kpgtbl va pa sz perm : ℕ) → Kmem → Outcome Kmem
kvmmap kpgtbl va pa sz perm k =
    mappages kpgtbl va sz pa perm k >>= λ r. if r.0 then ok r.1 else panic

-- One round of `uvmunmap`.
unfoldable pub unmap_page : (pagetable a : ℕ) → (do_free : Bool) → Kmem → Outcome Kmem
unmap_page pagetable a do_free k = walk false pagetable a k >>= λ r.
    let pte = load64 r.1.mem r.0 in
    if r.0 == 0 || not (is_valid pte) || pte_flags pte == pte_v
    then panic
    else (if do_free then kfree (pte2pa pte) r.1 else ok r.1) >>= λ k'.
        ok (record k' { mem = store64 k'.mem r.0 0 })

-- Its loop, with `npages` pages left.
unfoldable pub unmap_from : (npages pagetable a : ℕ) → (do_free : Bool) → Kmem → Outcome Kmem
unmap_from zero pagetable a do_free k = ok k
unmap_from (suc npages) pagetable a do_free k =
    unmap_page pagetable a do_free k >>= unmap_from npages pagetable (a + page_size) do_free

unfoldable pub uvmunmap : (pagetable va npages : ℕ) → (do_free : Bool) → Kmem → Outcome Kmem
uvmunmap pagetable va npages do_free k =
    if not (va % page_size == 0) then panic else unmap_from npages pagetable va do_free k
