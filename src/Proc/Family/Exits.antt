-- ===== src/Proc/Family/Exits.antt =====
-- What `exit` of kernel/proc.c, with `reparent`, does to the table of processes where it gets to the
-- scheduler.
use mathlib.Core.Path.{fun_ext}
use fast_ipc.Base.{
  ℕ, ◌+◌, ◌<◌, ◌≡◌, ◌≢◌, refl, sym, ap, ◌∙◌, subst, arith, Bool, false, ◌==◌, if◌then◌else◌, ◌*◌,
  List, Option, none, some, length, set, Bool-cases, Option-cases, inl, inr, Outcome, ok, panic,
  fault, ◌>>=◌, >>=-eq-ok, get_or-set_ne,
}
use fast_ipc.File.{Release}
use fast_ipc.Log.{Log, begin_op, end_op}
use fast_ipc.Fs.Icache.{Store, iput}
use fast_ipc.Proc.{Proc, runnable, zombie, no_proc, proc_at, is_proc, wakeup, reparent_from}
use fast_ipc.Proc.Life.{Sys, address, proc_size, chan_of}
use fast_ipc.Proc.Calls.{close_files, close_all, put_dir, leave, exit}
use fast_ipc.Proc.Wakes.{IsWaiting, wakeup-ends, reparent_from-IsWaiting}
use fast_ipc.Proc.Family.{live, gone, Tie, tie, ties, exited}
use fast_ipc.Proc.Family.Forks.{ok-pair-eq}
use fast_ipc.Proc.Family.Updates.{IsKept, in_table, ties-set, ties-set_keeps, ties-wakeup}
use fast_ipc.Proc.Family.Adopts.{apart, adopt, ties-reparented, not_own, not_me}

-- From `acquire(&wait_lock)` on.

ties-leave :
    (me status root : ℕ) (s : Sys)
    → s.initproc ≡ some root
    → (ties s.procs me).0 ≡ live
    → ties (leave me status s).procs ≡ exited (ties s.procs) root me
unfolding leave
ties-leave me status root s r lives =
    let chan = chan_of s s.initproc in
    let ps = reparent_from s.initproc chan me (length s.procs) 0 s.procs in
    let parent = chan_of s (proc_at ps me).parent in
    let ps1 = wakeup (some me) parent ps in
    let now : (j : ℕ) → ties ps1 j ≡ adopt root me (ties s.procs j) =
      λ j. ties-wakeup (some me) parent ps j ∙ ties-reparented root chan me s j r in
    let inside : me < length ps1 =
      in_table ps1 me (λ e. apart (sym lives ∙ sym (ap (λ (x : Tie). x.0) (now me)) ∙ e)) in
    fun_ext λ j.
      ties-set ps1 me (record (proc_at ps1 me) { state = zombie }) j inside
      ∙ elim (Bool-cases (j == me)) [
        | inl e ↦
            let same : j ≡ me = ground arith in
            rw (e, same) (ap (λ (x : Tie). (gone, x.1, x.2)) (now me))
        | inr d ↦ rw d (now j)
      ]

-- A change of the process `me` alone, which leaves the family as it was.
record IsOwn (me : ℕ) (s s' : Sys) : Type 0 where
  kept : IsKept s s'
  others : (j : ℕ) → j ≢ me → proc_at s'.procs j ≡ proc_at s.procs j
  base_is : s'.proc_base ≡ s.proc_base

set-IsOwn :
    (me : ℕ) (s : Sys) (p : Proc) {s' : Sys}
    → tie p ≡ ties s.procs me
    → s'.procs ≡ set s.procs me p
    → s'.nextpid ≡ s.nextpid
    → s'.initproc ≡ s.initproc
    → s'.proc_base ≡ s.proc_base
    → IsOwn me s s'
set-IsOwn me s p e ps n r b = record {
  kept = record {
    ties_are = ap ties ps ∙ fun_ext λ j. ties-set_keeps s.procs me p j e;
    next_is = n;
    root_kept = r;
  };
  others =
      λ j ne. ap (λ l. proc_at l j) ps ∙ get_or-set_ne s.procs me j p no_proc (λ h. ne (sym h));
  base_is = b;
}

close_all-IsOwn :
    (me : ℕ) (s : Sys) {rs : List Release} {s' : Sys}
    → close_all me s ≡ ok (rs, s')
    → (is_proc s.initproc me ≡ false) × IsOwn me s s'
unfolding close_all
close_all-IsOwn me s {rs} {s'} e = elim (Bool-cases (is_proc s.initproc me)) [
  | inl root ↦
      (let h : ◌≡◌ {A = Outcome (List Release × Sys)} panic (ok (rs, s')) = rw root at e in
        absurd (cc))
  | inr other ↦
      (let p = proc_at s.procs me in
        let (r, a, b) = >>=-eq-ok (close_files p.ofile s.files) _ (rw other at e) in
        let (m, u) = ok-pair-eq b in
        (
          other,
          set-IsOwn me s (record p { ofile = r.1 }) refl (ap (λ (x : Sys). x.procs) u)
              (ap (λ (x : Sys). x.nextpid) u) (ap (λ (x : Sys). x.initproc) u)
              (ap (λ (x : Sys). x.proc_base) u),
        ))
]

abbrev put_away : (me : ℕ) → Sys → Log → Store → Sys
put_away me s log store = record s {
  log = log;
  store = store;
  procs = set s.procs me (record (proc_at s.procs me) { cwd = none });
}

snd-eq :
    {c c' : Bool} {u v : Sys}
    → ◌≡◌ {A = Outcome (Option (Bool × Sys))} (ok (some (c, u))) (ok (some (c', v)))
    → v ≡ u
snd-eq e = cc

left-eq :
    {rs rs' : List Release} {c c' : Bool} {u v : Sys}
    → ◌≡◌ {A = Outcome (List Release × Option Bool × Sys)}
        (ok (rs, some c, u))
        (ok (rs', some c', v))
    → v ≡ u
left-eq e = cc

put_dir-IsOwn :
    (me : ℕ) (s : Sys) {c : Bool} {s' : Sys} → put_dir me s ≡ ok (some (c, s')) → IsOwn me s s'
unfolding put_dir
put_dir-IsOwn me s {c} {s'} e = elim (Option-cases (begin_op s.log)) [
  | inl asleep ↦
      (let h : ◌≡◌ {A = Outcome (Option (Bool × Sys))} (ok none) (ok (some (c, s'))) =
          rw (asleep, put_dir) at e in
        absurd (cc))
  | inr (log, began) ↦ elim (Option-cases (proc_at s.procs me).cwd) [
    | inl nowhere ↦
        (let h : ◌≡◌ {A = Outcome (Option (Bool × Sys))} fault (ok (some (c, s'))) =
            rw (began, nowhere, put_dir) at e in
          absurd (cc))
    | inr (ip, there) ↦
        (let h : (iput s.store ip >>= λ store.
        end_op log >>= λ r. ok (some (r.0, put_away me s r.1 store)))
              ≡ ok (some (c, s')) =
            rw (began, there, put_dir) at e in
          let (store, a, b) = >>=-eq-ok (iput s.store ip) _ h in
          let (r, f, g) = >>=-eq-ok (end_op log) _ b in
          let u : s' ≡ put_away me s r.1 store = snd-eq g in
          set-IsOwn me s (record (proc_at s.procs me) { cwd = none }) refl
            (ap (λ (x : Sys). x.procs) u) (ap (λ (x : Sys). x.nextpid) u)
            (ap (λ (x : Sys). x.initproc) u) (ap (λ (x : Sys). x.proc_base) u))
  ]
]

-- The parent that waits is woken.
leave-wakes :
    (me status q root : ℕ) (s : Sys)
    → s.initproc ≡ some root
    → (proc_at s.procs me).parent ≡ some q
    → q ≢ me
    → IsWaiting (address s q) (proc_at s.procs q)
    → (proc_at (leave me status s).procs q).state ≡ runnable
unfolding leave
leave-wakes me status q root s r child ne w =
    let chan = chan_of s s.initproc in
    let ps = reparent_from s.initproc chan me (length s.procs) 0 s.procs in
    let parent = chan_of s (proc_at ps me).parent in
    let ps1 = wakeup (some me) parent ps in
    let other : is_proc (some me) q ≡ false = not_me me q ne in
    let still : (proc_at ps me).parent ≡ some q =
      ap (λ (x : Tie). x.1) (ties-reparented root chan me s me r)
      ∙ ap (λ o. if is_proc o me then some root else o) child
      ∙ not_own me q root ne in
    ap (λ (p : Proc). p.state)
      (get_or-set_ne ps1 me q (record (proc_at ps1 me) { state = zombie }) no_proc
        (λ h. ne (sym h)))
    ∙ ap (λ o. (proc_at (wakeup (some me) (chan_of s o) ps) q).state) still
    ∙ wakeup-ends (some me) (address s q) ps q other
        (reparent_from-IsWaiting s.initproc chan me (length s.procs) 0 (address s q) q s.procs w)

-- What `exit` does to the family where it gets to `sched`.
pub record IsExited (me : ℕ) (s s' : Sys) : Type 0 where
  pub not_root : is_proc s.initproc me ≡ false
  pub ties_are :
      (root : ℕ)
      → s.initproc ≡ some root
      → (ties s.procs me).0 ≡ live
      → ties s'.procs ≡ exited (ties s.procs) root me
  pub wakes_parent :
      (root q : ℕ)
      → s.initproc ≡ some root
      → (proc_at s.procs me).parent ≡ some q
      → q ≢ me
      → IsWaiting (address s q) (proc_at s.procs q)
      → (proc_at s'.procs q).state ≡ runnable
  pub next_is : s'.nextpid ≡ s.nextpid
  pub root_kept : s'.initproc ≡ s.initproc

exit-found :
    (me status : ℕ) (s0 : Sys) (rs rs' : List Release) {c : Bool} {s' : Sys}
    (d : Option (Bool × Sys))
    → put_dir me s0 ≡ ok d
    → ◌≡◌ {A = Outcome (List Release × Option Bool × Sys)}
        (elim d [ none ↦ ok (rs, none, s0) | some r ↦ ok (rs, some r.0, leave me status r.1) ])
        (ok (rs', some c, s'))
    → (s1 : Sys) × IsOwn me s0 s1 × (s' ≡ leave me status s1)
exit-found me status s0 rs rs' none a b = absurd (cc)
exit-found me status s0 rs rs' (some (c', s1)) a b = (s1, put_dir-IsOwn me s0 a, left-eq b)

pub exit-IsExited :
    (me status : ℕ) (s : Sys) {rs : List Release} {c : Bool} {s' : Sys}
    → exit me status s ≡ ok (rs, some c, s')
    → IsExited me s s'
unfolding exit leave
exit-IsExited me status s {rs} {c} {s'} e =
    let ((rs1, s0), a, b) = >>=-eq-ok (close_all me s) _ e in
    let (d, f, g) = >>=-eq-ok (put_dir me s0) _ b in
    let (other, k0) = close_all-IsOwn me s a in
    let (s1, k1, is) = exit-found me status s0 rs1 rs d f g in
    let same : ties s1.procs ≡ ties s.procs = k1.kept.ties_are ∙ k0.kept.ties_are in
    let root_same : s1.initproc ≡ s.initproc = k1.kept.root_kept ∙ k0.kept.root_kept in
    record {
      not_root = other;
      ties_are = λ root r lives.
          ap (λ (x : Sys). ties x.procs) is
          ∙ ties-leave me status root s1 (root_same ∙ r)
              (ap (λ (t : ℕ → Tie). (t me).0) same ∙ lives)
          ∙ ap (λ t. exited t root me) same;
      next_is = ap (λ (x : Sys). x.nextpid) is ∙ k1.kept.next_is ∙ k0.kept.next_is;
      wakes_parent = λ root q r child ne w.
          let there : proc_at s1.procs q ≡ proc_at s.procs q = k1.others q ne ∙ k0.others q ne in
          let base : s1.proc_base ≡ s.proc_base = k1.base_is ∙ k0.base_is in
          let child1 : (proc_at s1.procs me).parent ≡ some q =
            ap (λ (t : ℕ → Tie). (t me).1) same ∙ child in
          ap (λ (x : Sys). (proc_at x.procs q).state) is
          ∙ leave-wakes me status q root s1 (root_same ∙ r) child1 ne (
              subst (λ b. IsWaiting (b + proc_size * q) (proc_at s1.procs q)) (sym base)
                (subst (λ p. IsWaiting (address s q) p) (sym there) w));
      root_kept = ap (λ (x : Sys). x.initproc) is ∙ root_same;
    }

closed-eq :
    (me status : ℕ) (s0 : Sys) (rs rs' : List Release) {s' : Sys} (d : Option (Bool × Sys))
    → ◌≡◌ {A = Outcome (List Release × Option Bool × Sys)}
        (elim d [ none ↦ ok (rs, none, s0) | some r ↦ ok (rs, some r.0, leave me status r.1) ])
        (ok (rs', none, s'))
    → s' ≡ s0
closed-eq me status s0 rs rs' none e = cc
closed-eq me status s0 rs rs' (some r) e = absurd (cc)

-- Where `begin_op` makes `exit` sleep, the ties are kept.
pub exit-IsKept :
    (me status : ℕ) (s : Sys) {rs : List Release} {s' : Sys}
    → exit me status s ≡ ok (rs, none, s')
    → IsKept s s'
unfolding exit
exit-IsKept me status s {rs} {s'} e =
    let ((rs1, s0), a, b) = >>=-eq-ok (close_all me s) _ e in
    let (d, f, g) = >>=-eq-ok (put_dir me s0) _ b in
    subst (λ u. IsKept s u) (sym (closed-eq me status s0 rs1 rs d g))
      (close_all-IsOwn me s a).1.kept
