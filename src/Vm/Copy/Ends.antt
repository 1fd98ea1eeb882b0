-- ===== src/Vm/Copy/Ends.antt =====
-- The loops of `copyout`, `copyin` and `copyinstr` end: as many rounds as bytes are enough, since
-- each round takes a byte or more.
use fast_ipc.Base.{
  ℕ, zero, suc, ◌+◌, ◌-◌, ◌<◌, ◌≤◌, ◌≡◌, ◌⊎◌, inl, inr, arith, Bool, true, false, ok, Bool-cases,
  ◌==◌, ltb,
}
use fast_ipc.Memory.{Mem, store8}
use fast_ipc.Kalloc.{Kmem, page_size, page_round_down}
use fast_ipc.Vm.Copy.{
  copyout, copyout_from, copyin, copyin_from, copyinstr, copyinstr_from, copy_text, in_page,
}
use fast_ipc.Vm.Ends.{walkaddr_total}

in_page-pos : (va len : ℕ) → 0 < len → (0 < in_page va len) × (in_page va len ≤ len)
in_page-pos va len h = ground arith

-- A round of `copyout` or `copyin` makes progress, and not too much.
copyout_from_total :
    (fuel pt dstva src len : ℕ) (k : Kmem)
    → len ≤ fuel
    → (r : Bool × Kmem) × (copyout_from fuel pt dstva src len k ≡ ok r)
unfolding copyout_from
copyout_from_total zero pt dstva src len k le = ((true, k), ground arith)
copyout_from_total (suc fuel) pt dstva src len k le = elim (Bool-cases (ltb 0 len)) [
  | inr none_left ↦ ((true, k), rw none_left)
  | inl more ↦
      (let (pa0, e) = walkaddr_total pt (page_round_down dstva) k in
        elim (Bool-cases (pa0 == 0)) [
          | inl unmapped ↦ ((false, k), rw (more, e, unmapped))
          | inr mapped ↦
              rw (more, e, mapped)
                (copyout_from_total fuel pt _ _ (len - in_page dstva len) _ (ground arith))
        ])
]

-- `copyout` returns, with 0 or with -1, for any arguments.
pub copyout_total :
    (pt dstva src len : ℕ) (k : Kmem) → (r : Bool × Kmem) × (copyout pt dstva src len k ≡ ok r)
unfolding copyout
copyout_total pt dstva src len k = copyout_from_total len pt dstva src len k (omega arith)

copyin_from_total :
    (fuel pt dst srcva len : ℕ) (k : Kmem)
    → len ≤ fuel
    → (r : Bool × Kmem) × (copyin_from fuel pt dst srcva len k ≡ ok r)
unfolding copyin_from
copyin_from_total zero pt dst srcva len k le = ((true, k), ground arith)
copyin_from_total (suc fuel) pt dst srcva len k le = elim (Bool-cases (ltb 0 len)) [
  | inr none_left ↦ ((true, k), rw none_left)
  | inl more ↦
      (let (pa0, e) = walkaddr_total pt (page_round_down srcva) k in
        elim (Bool-cases (pa0 == 0)) [
          | inl unmapped ↦ ((false, k), rw (more, e, unmapped))
          | inr mapped ↦
              rw (more, e, mapped)
                (copyin_from_total fuel pt _ _ (len - in_page srcva len) _ (ground arith))
        ])
]

-- `copyin` returns, with 0 or with -1, for any arguments.
pub copyin_total :
    (pt dst srcva len : ℕ) (k : Kmem) → (r : Bool × Kmem) × (copyin pt dst srcva len k ≡ ok r)
unfolding copyin
copyin_total pt dst srcva len k = copyin_from_total len pt dst srcva len k (omega arith)

-- The inner loop of `copyinstr` takes `n` bytes, or stops at the NUL.
copy_text_max :
    (n p dst max : ℕ) (m : Mem)
    → n ≤ max
    → ((copy_text n p dst max m).0 ≡ true) ⊎ ((copy_text n p dst max m).1 + n ≡ max)
unfolding copy_text
copy_text_max zero p dst max m le = inr (omega arith)
copy_text_max (suc n) p dst max m le =
    ground (arith, copy_text_max n (p + 1) (dst + 1) (max - 1) (store8 m dst (m p)))

copyinstr_from_total :
    (fuel pt dst srcva max : ℕ) (k : Kmem)
    → max ≤ fuel
    → (r : Bool × Kmem) × (copyinstr_from fuel pt dst srcva max k ≡ ok r)
unfolding copyinstr_from
copyinstr_from_total zero pt dst srcva max k le = ((false, k), ground arith)
copyinstr_from_total (suc fuel) pt dst srcva max k le = elim (Bool-cases (ltb 0 max)) [
  | inr none_left ↦ ((false, k), rw none_left)
  | inl more ↦
      (let (pa0, e) = walkaddr_total pt (page_round_down srcva) k in
        elim (Bool-cases (pa0 == 0)) [
          | inl unmapped ↦ ((false, k), rw (more, e, unmapped))
          | inr mapped ↦
              (let copied =
                  copy_text (in_page srcva max) (pa0 + (srcva - page_round_down srcva)) dst max
                    k.mem in
                elim (Bool-cases copied.0) [
                  | inl done ↦ ((true, record k { mem = copied.3 }), rw (more, e, mapped, done))
                  | inr not_yet ↦
                      rw (more, e, mapped, not_yet)
                        (copyinstr_from_total fuel pt copied.2 (page_round_down srcva + page_size)
                          copied.1 _
                          (ground (
                            arith,
                            copy_text_max (in_page srcva max)
                                (pa0 + (srcva - page_round_down srcva)) dst max k.mem,
                            in_page-pos srcva max,
                          )))
                ])
        ])
]

-- `copyinstr` returns, with 0 or with -1, for any arguments.
pub copyinstr_total :
    (pt dst srcva max : ℕ) (k : Kmem) → (r : Bool × Kmem) × (copyinstr pt dst srcva max k ≡ ok r)
unfolding copyinstr
copyinstr_total pt dst srcva max k = copyinstr_from_total max pt dst srcva max k (omega arith)
