-- ===== src/Proc/Family/Reports.antt =====
-- How `exit` and `wait` of kernel/proc.c meet.
use fast_ipc.Base.{
  ℕ, ◌≡◌, ◌≢◌, refl, sym, ap, ◌∙◌, subst, arith, Bool, true, false, some, inl, inr, ◌⊎◌, ok, List,
}
use fast_ipc.File.{Release}
use fast_ipc.Proc.{ProcState, runnable, zombie, proc_at, is_proc, is_zombie, scan_children}
use fast_ipc.Proc.Wakes.{IsWaiting}
use fast_ipc.Proc.Life.{Sys, address}
use fast_ipc.Proc.Calls.{exit, wait, reap}
use fast_ipc.Proc.Family.{gone, stage, Tie, ties, exited}
use fast_ipc.Proc.Family.Exits.{exit-IsExited}
use fast_ipc.Proc.Family.Waits.{scan_children-inl, scan_children-inr}
use fast_ipc.Proc.Family.Owns.{IsCurrent}

stage-gone : (st : ProcState) → stage st ≡ gone → is_zombie st ≡ true
stage-gone st e = ground arith

self : (q : ℕ) → is_proc (some q) q ≡ true
self q = ground arith

-- The tie of a process that has exited, whose parent is another.
exited_self :
    (t : ℕ → Tie) (root me q : ℕ)
    → (t me).1 ≡ some q
    → q ≢ me
    → exited t root me me ≡ (gone, some q, (t me).2)
exited_self t root me q child ne = ground arith

-- A child in the table that has exited is found.
record IsFound (me i : ℕ) (s : Sys) : Type 0 where
  found : scan_children me 0 false s.procs ≡ inl i
  had_exited : (proc_at s.procs i).state ≡ zombie
  was_child : is_proc (proc_at s.procs i).parent me ≡ true

scan_children-IsFound :
    (me j : ℕ) (s : Sys) (r : ℕ ⊎ Bool)
    → scan_children me 0 false s.procs ≡ r
    → is_proc (proc_at s.procs j).parent me ≡ true
    → is_zombie (proc_at s.procs j).state ≡ true
    → (i : ℕ) × IsFound me i s
scan_children-IsFound me j s (inl i) e c z =
    let (k, a, lt, d, f) = scan_children-inl me 0 false s.procs i e in
    let same : i ≡ k = omega (arith, a) in
    (i, record { found = e; had_exited = rw same f; was_child = rw same d })
scan_children-IsFound me j s (inr h) e c z =
    let (_, n) = scan_children-inr me 0 false s.procs h j e c in absurd (cc)

wait-scanned :
    (me i addr : ℕ) (s : Sys)
    → scan_children me 0 false s.procs ≡ inl i
    → wait me addr s ≡ reap me i addr s
unfolding wait
wait-scanned me i addr s e = rw (e, wait) refl

-- Where `exit` of a child of another process gets to `sched`, the parent is runnable if it slept in
-- `wait` or had just been woken there, and its next round of `wait` neither sleeps nor returns -1 for
-- want of children: it goes on to report and free a child that has exited.
pub wait-exit :
    (me status q root : ℕ) (s : Sys) {rs : List Release} {c : Bool} {s' : Sys}
    → exit me status s ≡ ok (rs, some c, s')
    → s.initproc ≡ some root
    → IsCurrent s me
    → (proc_at s.procs me).parent ≡ some q
    → q ≢ me
    → (IsWaiting (address s q) (proc_at s.procs q) → (proc_at s'.procs q).state ≡ runnable)
      × ((i : ℕ) × ((proc_at s'.procs i).state ≡ zombie)
          × (is_proc (proc_at s'.procs i).parent q ≡ true)
          × ((addr : ℕ) → wait q addr s' ≡ reap q i addr s'))
wait-exit me status q root s {rs} {c} {s'} e r current child ne =
    let k = exit-IsExited me status s e in
    let t : ties s'.procs ≡ exited (ties s.procs) root me = k.ties_are root r (rw current refl) in
    let at_me : ties s'.procs me ≡ (gone, some q, (proc_at s.procs me).pid) =
      ap (λ (u : ℕ → Tie). u me) t ∙ exited_self (ties s.procs) root me q child ne in
    let (i, f) =
      scan_children-IsFound q me s' (scan_children q 0 false s'.procs) refl
        (subst (λ o. is_proc o q ≡ true) (sym (ap (λ (x : Tie). x.1) at_me)) (self q))
        (stage-gone _ (ap (λ (x : Tie). x.0) at_me)) in
    (
      k.wakes_parent root q r child ne,
      (i, f.had_exited, f.was_child, λ addr. wait-scanned q i addr s' f.found),
    )
