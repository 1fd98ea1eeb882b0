-- ===== src/Vm/Entries.antt =====
-- Page-table entries and indices: what the macros of kernel/riscv.h pack they unpack, and the three
-- indices of an address name its page.
use fast_ipc.Base.{ℕ, zero, suc, ◌+◌, ◌*◌, ◌/◌, ◌%◌, ◌^◌, ◌<◌, ◌≡◌, ◌↔◌, ap, arith, true, ◌==◌}
use fast_ipc.Vm.{leaf, pa2pte, pte2pa, pte_flags, is_valid, is_user, px, pte_at, max_va, pte_v}

-- The entry for a page gives back the page and the flags, with the valid bit set.

pub leaf_parts :
    (pa perm : ℕ)
    → pa % 4096 ≡ 0
    → pa < 2 ^ 64
    → perm < 1024
    → (pte2pa (leaf pa perm) ≡ pa)
      × (pte_flags (leaf pa perm) ≡ perm / 2 * 2 + 1)
      × (is_valid (leaf pa perm) ≡ true)
      × (is_user (leaf pa perm) ≡ is_user perm)
      × (leaf pa perm < 2 ^ 64)
leaf_parts pa perm a lt p =
    (omega arith, omega arith, ground arith, ap (λ n. n == 1) (omega arith), omega arith)

-- The entry for a table of the next level gives back the table and is valid.
pub link_parts :
    (pa : ℕ)
    → pa % 4096 ≡ 0
    → pa < 2 ^ 64
    → (pte2pa (pa2pte pa + pte_v) ≡ pa)
      × (is_valid (pa2pte pa + pte_v) ≡ true)
      × (pa2pte pa + pte_v < 2 ^ 64)
link_parts pa a lt = (omega arith, ground arith, omega arith)

-- Two addresses below `max_va` with the same index at each level lie in the same page, and the
-- other way round.
pub px_iff :
    (va va' : ℕ)
    → va < max_va
    → va' < max_va
    → ((px 0 va ≡ px 0 va') × (px 1 va ≡ px 1 va') × (px 2 va ≡ px 2 va'))
      ↔ (va / 4096 ≡ va' / 4096)
px_iff va va' lt lt' =
    (λ h. omega (arith, h.0, h.1, h.2), λ e. (omega arith, omega arith, omega arith))

pub px-lt : (level va : ℕ) → px level va < 512
px-lt zero va = omega arith
px-lt (suc level) va = px-lt level (va / 512)

-- The entry of an aligned table lies in the table's page.
pub pte_at_page :
    (pagetable level va : ℕ)
    → pagetable % 4096 ≡ 0
    → (pte_at pagetable level va / 4096 * 4096 ≡ pagetable) × (pte_at pagetable level va % 8 ≡ 0)
pte_at_page pagetable level va a = (omega (arith, px-lt level va), omega (arith, px-lt level va))
