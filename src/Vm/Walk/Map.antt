-- ===== src/Vm/Walk/Map.antt =====
-- Mapping a page with `mappages` and looking it up with `walkaddr`.
use fast_ipc.Base.{
  ℕ, suc, ◌+◌, ◌-◌, ◌/◌, ◌%◌, ◌^◌, ◌<◌, ◌≡◌, ◌≢◌, ◌⊎◌, inl, inr, sym, ◌∙◌, arith, Bool, true, false,
  List, [], ok, u64,
}
use fast_ipc.Memory.{Mem, store64}
use fast_ipc.Memory.Words.{load64-store64_self}
use fast_ipc.Kalloc.{Kmem, page_size, page_round_down}
use fast_ipc.Kalloc.Refine.{IsFree}
use fast_ipc.Vm.{
  walk, walk_from, walkaddr, map_from, mappages, max_pages, max_va, leaf, is_user, user_page,
}
use fast_ipc.Vm.Entries.{leaf_parts}
use fast_ipc.Vm.Walk.{Reaches, Reaches-walk_from, Reaches-store64, IsPath}
use fast_ipc.Vm.Walk.Make.{walk_from-Walked}

-- A walk below `max_va` is its loop.

walk_below :
    (alloc : Bool) (pt va : ℕ) (k : Kmem)
    → va < max_va
    → walk alloc pt va k ≡ ok (walk_from 2 alloc pt va k)
unfolding walk
walk_below alloc pt va k lt = ground arith

-- What `walkaddr` returns where the entry at `a` is reached and is not 0.
walkaddr_reached :
    (pt va : ℕ) (k : Kmem) (a : ℕ)
    → va < max_va
    → Reaches 2 pt va k.mem a
    → walkaddr pt va k ≡ ok (user_page k a)
unfolding walkaddr
walkaddr_reached pt va k a lt r =
    ground (arith, walk_below false pt va k lt, Reaches-walk_from 2 pt va k a r)

-- One page mapped: the loop of `mappages` ends after its first round.
map_one :
    (fuel pt a pa perm : ℕ) (k k' : Kmem)
    → a < max_va
    → map_from (suc fuel) pt a a pa perm k ≡ ok (true, k')
    → ((walk_from 2 true pt a k).0 ≢ 0)
      × (k' ≡ record ((walk_from 2 true pt a k).1) {
        mem = store64 (walk_from 2 true pt a k).1.mem (walk_from 2 true pt a k).0 (leaf pa perm);
      })
unfolding map_from
map_one fuel pt a pa perm k k' lt e = ground (arith, walk_below true pt a k lt)

module _ (pt va pa perm : ℕ) (k : Kmem) (ps : List ℕ) where
  mapped_page :
      (fuel : ℕ) (k' : Kmem)
      → va < max_va
      → pa % page_size ≡ 0
      → pa < 2 ^ 64
      → perm < 1024
      → is_user perm ≡ true
      → IsFree k ps
      → IsPath 2 pt va k.mem ps []
      → map_from (suc fuel) pt va va pa perm k ≡ ok (true, k')
      → walkaddr pt va k' ≡ ok pa
  mapped_page fuel k' lt al small p u f path e =
      let (nonzero, made) = map_one fuel pt va pa perm k k' lt e in
      let w = walk_from-Walked 2 pt va k ps [] f tt path in found nonzero made w.reached
    where
      a : ℕ
      a = (walk_from 2 true pt va k).0

      m : Mem
      m = (walk_from 2 true pt va k).1.mem

      found :
          a ≢ 0
          → k' ≡ record ((walk_from 2 true pt va k).1) { mem = store64 m a (leaf pa perm) }
          → (a ≡ 0) ⊎ (Reaches 2 pt va m a × Unit {0} × (a % 8 ≡ 0))
          → walkaddr pt va k' ≡ ok pa
      found nonzero made (inl z) = absurd (nonzero z)
      found nonzero made (inr (r, n, m8)) =
          let (to_pa, flags, valid, user, fits) = leaf_parts pa perm al small p in
          rw made (
            walkaddr_reached pt va _ a lt (Reaches-store64 2 pt va m a (leaf pa perm) r)
            ∙ ground (arith, load64-store64_self m a (leaf pa perm) fits, to_pa, valid, user))

  mappages_one :
      va % page_size ≡ 0
      → va < max_va
      → mappages pt va page_size pa perm k ≡ map_from (suc (max_va / page_size)) pt va va pa perm k
  unfolding mappages
  mappages_one start lt = λ i. map_from max_pages pt (first i) (last i) pa perm k
    where
      first : page_round_down va ≡ va
      first = omega arith

      last : page_round_down (u64 (va + page_size + 2 ^ 64 - 1)) ≡ va
      last = omega arith

  -- A page that `mappages` has mapped for the user is the page that `walkaddr` finds, where the
  -- tables on the way were pages of their own.
  pub walkaddr-mappages :
      (k' : Kmem)
      → va % page_size ≡ 0
      → va < max_va
      → pa % page_size ≡ 0
      → pa < 2 ^ 64
      → perm < 1024
      → is_user perm ≡ true
      → IsFree k ps
      → IsPath 2 pt va k.mem ps []
      → mappages pt va page_size pa perm k ≡ ok (true, k')
      → walkaddr pt va k' ≡ ok pa
  walkaddr-mappages k' start lt al small p u f path e =
      mapped_page (max_va / page_size) k' lt al small p u f path (sym (mappages_one start lt) ∙ e)
