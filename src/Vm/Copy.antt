-- ===== src/Vm/Copy.antt =====
-- Copies between the kernel and a user address space: `copyout`, `copyin` and `copyinstr` of
-- kernel/vm.c.
pub mod Ends
use fast_ipc.Base.{
  ℕ, zero, suc, ◌+◌, ◌-◌, ◌*◌, ◌/◌, ◌%◌, ◌^◌, Bool, true, false, not, ◌&&◌, ◌||◌, ltb, leb, ◌==◌,
  if◌then◌else◌, Option, none, some, Outcome, ok, panic, fault, ◌>>=◌, u64,
}
use fast_ipc.Memory.{Mem, load64, store64, store8, memset, memmove, mymemmove}
use fast_ipc.Kalloc.{Kmem, kalloc, kfree, page_size, page_round_up, page_round_down}
use fast_ipc.Vm.{
  max_va, pte_v, pte_r, pte_w, pte_x, pte_u, is_valid, is_user, pte_flags, pte2pa, walk, walkaddr,
  mappages, max_pages, uvmunmap,
}

-- How much of `len` bytes at user address `va` lies in its page.
abbrev pub in_page : (va len : ℕ) → ℕ
in_page va len = let n = page_size - (va - page_round_down va) in if ltb len n then len else n

-- The loops of `copyout` and `copyin`, on fuel.
unfoldable pub copyout_from : (fuel pagetable dstva src len : ℕ) → Kmem → Outcome (Bool × Kmem)
copyout_from zero pagetable dstva src len k = if ltb 0 len then fault else ok (true, k)
copyout_from (suc fuel) pagetable dstva src len k =
    let va0 = page_round_down dstva in
    let n = in_page dstva len in
    let rest = walkaddr pagetable va0 k >>= λ pa0.
    if pa0 == 0
    then ok (false, k)
    else copyout_from fuel pagetable (va0 + page_size) (src + n) (len - n)
        (record k { mem = mymemmove k.mem (pa0 + (dstva - va0)) src n }) in
    if ltb 0 len then rest else ok (true, k)

-- Each round copies a byte or more, so `len` rounds are enough.
unfoldable pub copyout : (pagetable dstva src len : ℕ) → Kmem → Outcome (Bool × Kmem)
unfolding copyout_from
copyout pagetable dstva src len k = copyout_from len pagetable dstva src len k

pub copyin_from : (fuel pagetable dst srcva len : ℕ) → Kmem → Outcome (Bool × Kmem)
copyin_from zero pagetable dst srcva len k = if ltb 0 len then fault else ok (true, k)
copyin_from (suc fuel) pagetable dst srcva len k =
    let va0 = page_round_down srcva in
    let n = in_page srcva len in
    let rest = walkaddr pagetable va0 k >>= λ pa0.
    if pa0 == 0
    then ok (false, k)
    else copyin_from fuel pagetable (dst + n) (va0 + page_size) (len - n)
        (record k { mem = mymemmove k.mem dst (pa0 + (srcva - va0)) n }) in
    if ltb 0 len then rest else ok (true, k)

pub copyin : (pagetable dst srcva len : ℕ) → Kmem → Outcome (Bool × Kmem)
unfolding copyin_from
copyin pagetable dst srcva len k = copyin_from len pagetable dst srcva len k

-- The inner loop of `copyinstr`, with `n` bytes of the page left, from `p`: whether it met the NUL,
-- the bytes of `max` that are left, where it goes on to write, and the memory.
pub copy_text : (n p dst max : ℕ) → Mem → Bool × ℕ × ℕ × Mem
copy_text zero p dst max m = (false, max, dst, m)
copy_text (suc n) p dst max m =
    let rest = copy_text n (p + 1) (dst + 1) (max - 1) (store8 m dst (m p)) in
    if m p == 0 then (true, max, dst, store8 m dst 0) else rest

-- The outer loop of `copyinstr`, on fuel.
pub copyinstr_from : (fuel pagetable dst srcva max : ℕ) → Kmem → Outcome (Bool × Kmem)
copyinstr_from zero pagetable dst srcva max k = if ltb 0 max then fault else ok (false, k)
copyinstr_from (suc fuel) pagetable dst srcva max k =
    let va0 = page_round_down srcva in
    let rest = walkaddr pagetable va0 k >>= λ pa0.
    if pa0 == 0
    then ok (false, k)
    else let (got_null, max', dst', m) =
        copy_text (in_page srcva max) (pa0 + (srcva - va0)) dst max k.mem in
      let k' = record k { mem = m } in
      let next = copyinstr_from fuel pagetable dst' (va0 + page_size) max' k' in
      if got_null then ok (true, k') else next in
    if ltb 0 max then rest else ok (false, k)

pub copyinstr : (pagetable dst srcva max : ℕ) → Kmem → Outcome (Bool × Kmem)
unfolding copy_text copyinstr_from
copyinstr pagetable dst srcva max k = copyinstr_from max pagetable dst srcva max k
