-- ===== src/Kalloc.antt =====
-- The physical page allocator, kernel/kalloc.c: a free list threaded through the free pages.
-- `kmem.lock` is held over the whole of each operation's work on the list, so an operation is one
-- step here.
pub mod FreeList
pub mod Refine
mod Tests
use fast_ipc.Base.{
  ℕ, zero, suc, ◌+◌, ◌-◌, ◌*◌, ◌/◌, ◌%◌, ◌^◌, ◌||◌, not, ltb, leb, ◌==◌, if◌then◌else◌, Outcome, ok,
  panic, ◌>>=◌,
}
use fast_ipc.Memory.{Mem, memset, load64, store64}

abbrev pub page_size : ℕ
page_size = 4096

-- `PHYSTOP` of kernel/memlayout.h
abbrev pub phys_stop : ℕ
phys_stop = 0x80000000 + 128 * 1024 * 1024

-- Physical memory, `kmem.freelist`, and the linker's symbol `end`.
pub record Kmem : Type 0 where
  pub mem : Mem
  pub freelist : ℕ
  pub kernel_end : ℕ

-- `PGROUNDUP` and `PGROUNDDOWN` of kernel/riscv.h, on 64-bit numbers
abbrev pub page_round_up : ℕ → ℕ
page_round_up sz = (sz + page_size - 1) % 2 ^ 64 / page_size * page_size

abbrev pub page_round_down : ℕ → ℕ
page_round_down a = a / page_size * page_size

unfoldable pub kfree : ℕ → Kmem → Outcome Kmem
kfree pa k =
    if not (pa % page_size == 0) || ltb pa k.kernel_end || leb phys_stop pa
    then panic
    else ok (record k { mem = store64 (memset k.mem pa 1 page_size) pa k.freelist; freelist = pa })

-- The page, 0 for none, and the memory after.
unfoldable pub kalloc : Kmem → ℕ × Kmem
kalloc k = if k.freelist == 0 then (0, k) else (
  k.freelist,
  record k { mem = memset k.mem k.freelist 5 page_size; freelist = load64 k.mem k.freelist },
)

-- The loop of `freerange`, on fuel, with `p` the next page.
pub free_pages : ℕ → ℕ → ℕ → Kmem → Outcome Kmem
free_pages zero p pa_end k = ok k
free_pages (suc fuel) p pa_end k =
    let rest = kfree p k >>= free_pages fuel (p + page_size) pa_end in
    if leb (p + page_size) pa_end then rest else ok k

-- `pa_end` rounds are enough, as each frees a page below it.
pub freerange : ℕ → ℕ → Kmem → Outcome Kmem
unfolding free_pages
freerange pa_start pa_end k = free_pages (pa_end / page_size) (page_round_up pa_start) pa_end k

pub kinit : Kmem → Outcome Kmem
unfolding freerange
kinit k = freerange k.kernel_end phys_stop k
