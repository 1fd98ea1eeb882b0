-- ===== src/Proc/Family/Updates.antt =====
-- What a change of one entry of the table of processes, and `wakeup`, do to parents and pids.
use fast_ipc.Base.{
  ℕ, zero, suc, ◌<◌, ◌≡◌, ◌≢◌, refl, sym, ap, ◌∙◌, subst, arith, false, ◌==◌, List, [], ◌∷◌, Option,
  some, length, set, get_or-set_self, get_or-set_ne, Bool-cases, inl, inr,
}
use fast_ipc.Proc.{Proc, no_proc, proc_at, wake, wakeup, kill, killed_proc}
use fast_ipc.Proc.Life.{Sys}
use fast_ipc.Proc.Wakes.{proc_at-wakeup}
use fast_ipc.Proc.Family.{free, stage, tie, ties, update}
use fast_ipc.Proc.Family.Making.{Makers, IsGrowing}

-- A change that leaves the family as it was.

pub record IsKept (s s' : Sys) : Type 0 where
  pub ties_are : ties s'.procs ≡ ties s.procs
  pub next_is : s'.nextpid ≡ s.nextpid
  pub root_kept : s'.initproc ≡ s.initproc

-- The process that `userinit` made is the root.
abbrev pub IsSound : Makers → Sys → Type 0
IsSound m s =
    (root : ℕ) × (s.initproc ≡ some root)
    × (0 < s.nextpid)
    × IsGrowing m root s.nextpid (ties s.procs)

pub kept-IsSound : {m : Makers} {s s' : Sys} → IsKept s s' → IsSound m s → IsSound m s'
kept-IsSound {m} {s} {s'} k (root, r, pos, f) = (
  root,
  k.root_kept ∙ r,
  rw k.next_is pos,
  subst (λ n. IsGrowing m root n (ties s'.procs)) (sym k.next_is)
      (subst (λ t. IsGrowing m root s.nextpid t) (sym k.ties_are) f),
)

-- An entry in use lies in the table.
pub in_table : (ps : List Proc) (i : ℕ) → stage (proc_at ps i).state ≢ free → i < length ps
in_table [] i u = absurd (u refl)
in_table (p ∷ ps) zero u = omega arith
in_table (p ∷ ps) (suc i) u = omega (arith, in_table ps i u)

differs : {i j : ℕ} → i ≡ j → (j == i) ≡ false → ⊥
differs e d = ground arith

pub ties-set :
    (ps : List Proc) (i : ℕ) (p : Proc) (j : ℕ)
    → i < length ps
    → ties (set ps i p) j ≡ update (ties ps) i (tie p) j
ties-set ps i p j lt = elim (Bool-cases (j == i)) [
  | inl s ↦ let e : j ≡ i = ground arith in rw (s, e) (ap tie (get_or-set_self ps i p no_proc lt))
  | inr d ↦ rw d (ap tie (get_or-set_ne ps i j p no_proc (λ e. differs e d)))
]

-- A change of other fields, which also an index past the table is.
pub ties-set_keeps :
    (ps : List Proc) (i : ℕ) (p : Proc) (j : ℕ)
    → tie p ≡ ties ps i
    → ties (set ps i p) j ≡ ties ps j
ties-set_keeps [] i p j e = refl
ties-set_keeps (q ∷ ps) zero p zero e = e
ties-set_keeps (q ∷ ps) zero p (suc j) e = refl
ties-set_keeps (q ∷ ps) (suc i) p zero e = refl
ties-set_keeps (q ∷ ps) (suc i) p (suc j) e = ties-set_keeps ps i p j e

tie-wake : (me : Option ℕ) (chan i : ℕ) (p : Proc) → tie (wake me chan i p) ≡ tie p
unfolding wake
tie-wake me chan i p = ground arith

pub ties-wakeup :
    (me : Option ℕ) (chan : ℕ) (ps : List Proc) (j : ℕ) → ties (wakeup me chan ps) j ≡ ties ps j
ties-wakeup me chan ps j = ap tie (proc_at-wakeup me chan ps j) ∙ tie-wake me chan j (proc_at ps j)

tie-killed_proc : (p : Proc) → tie (killed_proc p) ≡ tie p
unfolding killed_proc
tie-killed_proc p = ground arith

pub ties-kill : (pid : ℕ) (ps : List Proc) (j : ℕ) → ties (kill pid ps).1 j ≡ ties ps j
unfolding kill
ties-kill pid [] j = refl
ties-kill pid (p ∷ ps) zero = ground (arith, tie-killed_proc p)
ties-kill pid (p ∷ ps) (suc j) = ground (arith, ties-kill pid ps j)
