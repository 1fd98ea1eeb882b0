-- ===== src/Vm/Ends.antt =====
-- The loops of kernel/vm.c end: the rounds that the model gives them are enough.
use fast_ipc.Base.{
  ℕ, zero, suc, ◌+◌, ◌*◌, ◌/◌, ◌<◌, ◌≤◌, ◌≡◌, ◌≢◌, ◌⊎◌, inl, inr, arith, Bool, true, false, ok,
  panic, fault, Bool-cases, leb, >>=-ne-fault,
}
use fast_ipc.Memory.{store64}
use fast_ipc.Kalloc.{Kmem, page_size}
use fast_ipc.Vm.{walk, walk_from, walkaddr, map_from, mappages, max_va, leaf, user_page}

walk_below :
    (alloc : Bool) (pt va : ℕ) (k : Kmem)
    → (walk alloc pt va k ≢ fault) × ((va < max_va) ⊎ (walk alloc pt va k ≡ panic))
unfolding walk
walk_below alloc pt va k = ground arith

-- `walkaddr` always returns.
pub walkaddr_total : (pt va : ℕ) (k : Kmem) → (pa : ℕ) × (walkaddr pt va k ≡ ok pa)
unfolding walkaddr walk
walkaddr_total pt va k = elim (Bool-cases (leb max_va va)) [
  | inl out ↦ (0, rw out)
  | inr below ↦ (user_page (walk_from 2 false pt va k).1 (walk_from 2 false pt va k).0, rw below)
]

map_from_ends :
    (fuel pt a last pa perm : ℕ) (k : Kmem)
    → max_va ≤ a + fuel * page_size
    → map_from (suc fuel) pt a last pa perm k ≢ fault
unfolding map_from
map_from_ends zero pt a last pa perm k enough =
    >>=-ne-fault (walk true pt a k) _ (walk_below true pt a k).0
      (λ r e. absurd (ground (arith, e, (walk_below true pt a k).1)))
map_from_ends (suc fuel) pt a last pa perm k enough =
    >>=-ne-fault (walk true pt a k) _ (walk_below true pt a k).0 (λ r e. ground (
      arith,
      map_from_ends fuel pt (a + page_size) last (pa + page_size) perm
          (record r.1 { mem = store64 r.1.mem r.0 (leaf pa perm) }),
    ))

-- `mappages` ends, for any arguments: it maps every page, returns -1, or panics.
pub mappages_ends : (pt va size pa perm : ℕ) (k : Kmem) → mappages pt va size pa perm k ≢ fault
unfolding mappages
mappages_ends pt va size pa perm k =
    map_from_ends (max_va / page_size) pt _ _ pa perm k (omega arith)
