-- ===== src/Kalloc/Tests.antt =====
-- The allocator on a memory of four pages.
use fast_ipc.Base.{ℕ, ◌-◌, ◌/◌, ◌*◌, ◌≡◌, refl, arith, [], ◌∷◌, ok}
use fast_ipc.Memory.{Mem}
use fast_ipc.Kalloc.{Kmem, kinit, page_round_up, page_size, phys_stop}
use fast_ipc.Kalloc.FreeList.{IsPage}
use fast_ipc.Kalloc.Refine.{IsFree, kfree_push, kinit_lem, pages_from}

abbrev zeroes : Mem
zeroes x = 0

-- No page is free, and the kernel ends four pages below the end of memory.
abbrev boot : Kmem
boot = record { mem = zeroes; freelist = 0; kernel_end = phys_stop - 4 * page_size }

boot-IsFree : IsFree boot []
boot-IsFree = record { bytes = λ x. omega arith; has_base = omega arith; chain = refl }

abbrev last_page : ℕ
last_page = phys_stop - page_size

last-IsPage : IsPage boot.kernel_end last_page
last-IsPage = omega arith

kinit_lem_example :
    (k' : Kmem) × (kinit boot ≡ ok k')
    × IsFree k' (
        pages_from
          ((phys_stop - page_round_up boot.kernel_end) / page_size)
          (page_round_up boot.kernel_end)
          [])
kinit_lem_example = kinit_lem boot (λ x. omega arith) (omega arith) (omega arith) refl

sole_page : (k' : Kmem) × IsFree k' (last_page ∷ [])
sole_page =
    let (k', e, same, f) = kfree_push last_page boot [] last-IsPage tt boot-IsFree in (k', f)
