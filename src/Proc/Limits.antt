-- ===== src/Proc/Limits.antt =====
-- Where the functions of kernel/proc.c reach a limit: a full table.
use fast_ipc.Base.{
  ℕ, suc, ◌+◌, ◌<◌, ◌≡◌, ◌≢◌, inl, inr, refl, arith, List, [], ◌∷◌, none, length, Bool-cases, panic,
}
use fast_ipc.Proc.{Proc, unused, proc_at, is_unused, find_unused}
use fast_ipc.Proc.Life.{Sys, allocproc}
use fast_ipc.Proc.Calls.{fork, fork_start}

find_unused-none :
    (k : ℕ) (ps : List Proc)
    → ((j : ℕ) → j < length ps → (proc_at ps j).state ≢ unused)
    → find_unused k ps ≡ none
unfolding find_unused
find_unused-none k [] full = refl
find_unused-none k (p ∷ ps) full = elim (Bool-cases (is_unused p.state)) [
  | inl u ↦ absurd (full 0 (omega arith) (ground arith))
  | inr n ↦ rw n (find_unused-none (k + 1) ps (λ j lt. full (suc j) (omega (arith, lt))))
]

-- `fork` panics where every entry of the table is in use.
pub fork_full :
    (me : ℕ) (s : Sys)
    → ((j : ℕ) → j < length s.procs → (proc_at s.procs j).state ≢ unused)
    → fork me s ≡ panic
unfolding fork fork_start allocproc
fork_full me s full = rw (find_unused-none 0 s.procs full, allocproc) refl
