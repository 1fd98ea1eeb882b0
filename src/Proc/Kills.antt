-- ===== src/Proc/Kills.antt =====
-- `kill` of kernel/proc.c.
use fast_ipc.Base.{
  ℕ, zero, suc, ◌<◌, ◌≡◌, ◌≢◌, ◌⊎◌, inl, inr, refl, sym, ap, ◌∙◌, arith, true, false, ◌==◌, List,
  [], ◌∷◌, some, length, set, get_or-set_self, get_or-set_ne, Bool-cases, ok,
}
use fast_ipc.Kalloc.{Kmem}
use fast_ipc.Proc.{
  ProcState, Proc, unused, sleeping, runnable, no_proc, proc_at, kill, killed_proc, find_unused,
}
use fast_ipc.Proc.Life.{Sys, allocproc, claimed}
use fast_ipc.Proc.Family.{free, stage, ties, IsFamily}
use fast_ipc.Proc.Family.Updates.{in_table}
use fast_ipc.Proc.Family.Forks.{find_unused-some, set_up, allocproc-some}

apart : {a b : ℕ} → (a == b) ≡ false → a ≢ b
apart d e = ground arith

none_has :
    (pid : ℕ) (p : Proc) (ps : List Proc)
    → p.pid ≢ pid
    → ((i : ℕ) → i < length ps → (proc_at ps i).pid ≢ pid)
    → (i : ℕ) → i < length (p ∷ ps)
    → (proc_at (p ∷ ps) i).pid ≢ pid
none_has pid p ps n c zero lt = n
none_has pid p ps n c (suc i) lt = c i (omega arith)

-- `kill` ends with -1 and no change where no entry has the pid, and else changes the first that has.
kill-cases :
    (pid : ℕ) (ps : List Proc)
    → (((kill pid ps).0 ≡ false)
        × ((kill pid ps).1 ≡ ps)
        × ((i : ℕ) → i < length ps → (proc_at ps i).pid ≢ pid))
      ⊎ ((i : ℕ) × (i < length ps)
          × ((proc_at ps i).pid ≡ pid)
          × ((kill pid ps).0 ≡ true)
          × ((kill pid ps).1 ≡ set ps i (killed_proc (proc_at ps i))))
unfolding kill
kill-cases pid [] = inl (refl, refl, λ i lt. elim lt [ ])
kill-cases pid (p ∷ ps) = elim (Bool-cases (p.pid == pid)) [
  | inl e ↦ inr (0, omega arith, ground arith, rw e refl, rw e refl)
  | inr n ↦ elim (kill-cases pid ps) [
    | inl (a, b, c) ↦ inl (rw n a, rw n (ap (λ r. p ∷ r) b), none_has pid p ps (apart n) c)
    | inr (i, lt, e, a, b) ↦ inr (suc i, omega (arith, lt), e, rw n a, rw n (ap (λ r. p ∷ r) b))
  ]
]

unused_of : (st : ProcState) → (stage st ≢ free → ⊥) → st ≡ unused
unused_of st h = ground arith

free-unused : (st : ProcState) → stage st ≡ free → st ≡ unused
free-unused st e = ground arith

positive : {a : ℕ} → 0 < a → 0 ≡ a → ⊥
positive lt e = omega arith

killed-parts :
    (p : Proc)
    → ((killed_proc p).killed ≡ 1)
      × (p.state ≡ sleeping → (killed_proc p).state ≡ runnable)
      × (p.state ≢ sleeping → (killed_proc p).state ≡ p.state)
      × (record (killed_proc p) { killed = p.killed; state = p.state } ≡ p)
unfolding killed_proc
killed-parts p = (refl, λ e. ground arith, λ h. ground arith, refl)

-- Where the family is sound, `kill` of the pid of a process in use succeeds: the process is marked as
-- killed, is runnable if it slept and in the state it was in if it did not, and is as it was in all
-- else; and every other process is as it was.
pub kill-IsFamily :
    (root n pid i : ℕ) (ps : List Proc)
    → IsFamily root n (ties ps)
    → (proc_at ps i).state ≢ unused
    → (proc_at ps i).pid ≡ pid
    → let ps' = (kill pid ps).1 in
      ((kill pid ps).0 ≡ true)
      × ((proc_at ps' i).killed ≡ 1)
      × ((proc_at ps i).state ≡ sleeping → (proc_at ps' i).state ≡ runnable)
      × ((proc_at ps i).state ≢ sleeping → (proc_at ps' i).state ≡ (proc_at ps i).state)
      × (record (proc_at ps' i) { killed = (proc_at ps i).killed; state = (proc_at ps i).state }
          ≡ proc_at ps i)
      × ((j : ℕ) → j ≢ i → proc_at ps' j ≡ proc_at ps j)
kill-IsFamily root n pid i ps f inside named =
    let used_ : stage (proc_at ps i).state ≢ free = λ e. inside (free-unused _ e) in
    let (pos, _) = f.pid_given i used_ in
    elim (kill-cases pid ps) [
      | inl (a, b, c) ↦ absurd (c i (in_table ps i used_) named)
      | inr (j, lt, e, a, b) ↦
          let busy : stage (proc_at ps j).state ≢ free =
            λ u. positive pos (sym (f.free_pid j u) ∙ e ∙ sym named) in
          let same : j ≡ i = f.pids_differ j i busy used_ (e ∙ sym named) in
          let made : (kill pid ps).1 ≡ set ps i (killed_proc (proc_at ps i)) =
            b ∙ ap (λ k. set ps k (killed_proc (proc_at ps k))) same in
          let at_i : proc_at (kill pid ps).1 i ≡ killed_proc (proc_at ps i) =
            ap (λ l. proc_at l i) made
            ∙ get_or-set_self ps i (killed_proc (proc_at ps i)) no_proc (in_table ps i used_) in
          let (marked, woken, stays, rest) = killed-parts (proc_at ps i) in
          (
            a,
            ap (λ (p : Proc). p.killed) at_i ∙ marked,
            λ s. ap (λ (p : Proc). p.state) at_i ∙ woken s,
            λ s. ap (λ (p : Proc). p.state) at_i ∙ stays s,
            ap
                  (λ (p : Proc). record p {
                    killed = (proc_at ps i).killed;
                    state = (proc_at ps i).state;
                  })
                  at_i
                ∙ rest,
            λ k ne.
                ap (λ l. proc_at l k) made
                ∙ get_or-set_ne ps i k (killed_proc (proc_at ps i)) no_proc (λ h. ne (sym h)),
          )
    ]

-- A field that a change of an entry leaves is as it was there.
field-set :
    (f : Proc → ℕ) (ps : List Proc) (i : ℕ) (p : Proc)
    → f p ≡ f (proc_at ps i)
    → f (proc_at (set ps i p) i) ≡ f (proc_at ps i)
field-set f [] i p e = refl
field-set f (q ∷ ps) zero p e = e
field-set f (q ∷ ps) (suc i) p e = field-set f ps i p e

set_up-killed :
    (s : Sys) (i : ℕ) (r : ℕ × Kmem)
    → (proc_at (set_up s i r).procs i).killed ≡ (proc_at s.procs i).killed
unfolding claimed
set_up-killed s i r =
    let f = λ (p : Proc). p.killed in
    field-set f _ i _ refl
    ∙ field-set f _ i _ refl
    ∙ field-set f _ i _ refl
    ∙ field-set f s.procs i _ refl

-- Where the family is sound and an entry is not in use, `kill` of the pid 0 succeeds and marks such an
-- entry as killed, and a process that `allocproc` then makes of that entry is killed from the start.
pub kill_zero :
    (root n i : ℕ) (s : Sys)
    → IsFamily root n (ties s.procs)
    → find_unused 0 s.procs ≡ some i
    → (j : ℕ) × ((proc_at s.procs j).state ≡ unused)
      × ((kill 0 s.procs).0 ≡ true)
      × ((s' : Sys)
          → allocproc (record s { procs = (kill 0 s.procs).1 }) ≡ ok (some j, s')
          → (proc_at s'.procs j).killed ≡ 1)
unfolding killed_proc
kill_zero root n i s f e =
    let (k, a, lt, free_) = find_unused-some 0 s.procs i e in
    elim (kill-cases 0 s.procs) [
      | inl (x, y, c) ↦ absurd (c k lt (f.free_pid k (rw free_ refl)))
      | inr (j, lt', zero_, x, y) ↦
          let idle : (proc_at s.procs j).state ≡ unused =
            unused_of _ (λ u. positive (f.pid_given j u).0 (sym zero_)) in
          (
            j,
            idle,
            x,
            λ s' g.
                let (inside, _, _, (r, is)) =
                  allocproc-some (record s { procs = (kill 0 s.procs).1 }) j g in
                ap (λ (v : Sys). (proc_at v.procs j).killed) is
                ∙ set_up-killed (record s { procs = (kill 0 s.procs).1 }) j r
                ∙ ap (λ ps. (proc_at ps j).killed) y
                ∙ ap (λ (p : Proc). p.killed) (get_or-set_self s.procs j _ no_proc lt'),
          )
    ]
