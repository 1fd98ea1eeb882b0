-- ===== src/Vm/Sample.antt =====
-- Small memories for runs and examples: three pages of tables at 0x1000, 0x2000 and 0x3000, one for
-- each level, in which every entry of the first two leads to the next.
use fast_ipc.Base.{ℕ, ◌*◌, ◌/◌, ◌%◌, arith, refl, [], if◌then◌else◌, ◌==◌}
use fast_ipc.Memory.{Mem}
use fast_ipc.Memory.Words.{IsBytes}
use fast_ipc.Kalloc.{Kmem}
use fast_ipc.Kalloc.Refine.{IsFree}

-- The byte of such an entry, for the table in page `n`, at place `i` of 8.

abbrev link_byte : ℕ → ℕ → ℕ
link_byte n i = if i == 0 then 1 else if i == 1 then 4 * n else 0

-- No page is mapped.
abbrev pub empty_tables : Mem
empty_tables x =
    if x / 4096 == 1 then link_byte 2 (x % 8) else if x / 4096 == 2 then link_byte 3 (x % 8) else 0

-- Every page is mapped, to page 1, for the user.
abbrev pub full_tables : Mem
full_tables x =
    if x / 4096 == 3
    then (if x % 8 == 0 then 23 else if x % 8 == 1 then 4 else 0)
    else empty_tables x

-- No page is free.
abbrev pub with_mem : Mem → Kmem
with_mem m = record { mem = m; freelist = 0; kernel_end = 0x80000000 }

pub empty_tables-IsBytes : IsBytes empty_tables
empty_tables-IsBytes x = ground arith

pub full_tables-IsBytes : IsBytes full_tables
full_tables-IsBytes x = ground arith

pub with_mem-IsFree : {m : Mem} → IsBytes m → IsFree (with_mem m) []
with_mem-IsFree b = record { bytes = b; has_base = omega arith; chain = refl }
