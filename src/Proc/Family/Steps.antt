-- ===== src/Proc/Family/Steps.antt =====
-- All that processes do to the table of kernel/proc.c from the first process on, in any order: each
-- call is a step, and `fork` three.
use mathlib.Core.Path.{fun_ext}
use fast_ipc.Base.{
  ℕ, ◌+◌, ◌<◌, ◌^◌, ◌≡◌, ◌≢◌, refl, sym, ◌∙◌, subst, arith, Bool, false, ◌==◌, List, none, some,
  inl, inr, ok,
}
use fast_ipc.File.{Release}
use fast_ipc.Proc.{Proc, proc_at, is_proc}
use fast_ipc.Proc.Life.{Sys, put_proc, userinit}
use fast_ipc.Proc.Calls.{fork_start, link_child, make_ready, exit, Waited, wait}
use fast_ipc.Proc.Family.{free, tie, ties, update}
use fast_ipc.Proc.Family.Making.{
  Makers, no_makers, set_maker, IsIdle, IsGrowing, IsGrowing-made, IsGrowing-linked,
}
use fast_ipc.Proc.Family.Endings.{IsGrowing-ready, IsGrowing-exited, IsGrowing-reaped}
use fast_ipc.Proc.Family.Updates.{IsSound, kept-IsSound, ties-set, in_table}
use fast_ipc.Proc.Family.Boots.{IsBoot, userinit-IsSound}
use fast_ipc.Proc.Family.Forks.{fork_start-IsForked}
use fast_ipc.Proc.Family.Exits.{exit-IsExited}
use fast_ipc.Proc.Family.Owns.{IsCurrent, current_lives, OwnStep, OwnStep-IsKept}
use fast_ipc.Proc.Family.Waits.{IsReaped, wait-WaitEnd}

-- The state, and for each entry the process whose `fork` is making the child there: a `fork` holds no
-- lock between its parts, so that the others run there. A process in `fork` does not call `exit` or
-- `wait`, or `fork` again. `exit` up to `sched` and a round of `wait` are one step each. The pids do
-- not overflow an `int`.
pub record Run : Type 0 where
  pub sys : Sys
  pub makers : Makers

pub data Step : Run → Run → Type 0 where
  forks :
      {m : Makers} {s s' : Sys} (me i pid : ℕ)
      → IsCurrent s me
      → IsIdle m me
      → s.nextpid + 1 < 2 ^ 31
      → fork_start me s ≡ ok (i, pid, s')
      → Step
          (record { sys = s; makers = m })
          (record { sys = s'; makers = set_maker m i (some me) })
  links :
      {m : Makers} {s : Sys} (me i : ℕ)
      → IsCurrent s me
      → m i ≡ some me
      → Step (record { sys = s; makers = m }) (record { sys = link_child me i s; makers = m })
  readies :
      {m : Makers} {s : Sys} (me i : ℕ)
      → IsCurrent s me
      → m i ≡ some me
      → (proc_at s.procs i).parent ≡ some me
      → Step
          (record { sys = s; makers = m })
          (record { sys = make_ready i s; makers = set_maker m i none })
  exits :
      {m : Makers} {s s' : Sys} (me status : ℕ) (rs : List Release) (c : Bool)
      → IsCurrent s me
      → IsIdle m me
      → exit me status s ≡ ok (rs, some c, s')
      → Step (record { sys = s; makers = m }) (record { sys = s'; makers = m })
  waits :
      {m : Makers} {s s' : Sys} (me addr : ℕ) (w : Waited)
      → IsCurrent s me
      → IsIdle m me
      → wait me addr s ≡ ok (w, s')
      → Step (record { sys = s; makers = m }) (record { sys = s'; makers = m })
  others :
      {m : Makers} {s s' : Sys}
      → OwnStep s s'
      → Step (record { sys = s; makers = m }) (record { sys = s'; makers = m })

-- The states after `userinit`.
pub data Reached (boot : Sys) : Run → Type 0 where
  starts :
      {s : Sys} (initcode : ℕ)
      → userinit initcode boot ≡ ok s
      → Reached boot (record { sys = s; makers = no_makers })
  goes_on : {r r' : Run} → Reached boot r → Step r r' → Reached boot r'

not_same : (root me : ℕ) → (root == me) ≡ false → me ≢ root
not_same root me d e = ground arith

forked-IsSound :
    {m : Makers} (s : Sys) {s' : Sys} (me i pid : ℕ)
    → IsCurrent s me
    → s.nextpid + 1 < 2 ^ 31
    → fork_start me s ≡ ok (i, pid, s')
    → IsSound m s
    → IsSound (set_maker m i (some me)) s'
forked-IsSound {m} s {s'} me i pid c few e (root, r, pos, g) =
    let k = fork_start-IsForked me i pid s e in
    let same : s'.nextpid ≡ s.nextpid + 1 = k.next_is ∙ ground arith in
    let m' = set_maker m i (some me) in
    (
      root,
      k.root_is ∙ r,
      omega (arith, same),
      subst (λ n. IsGrowing m' root n (ties s'.procs)) (sym same)
          (subst (λ t. IsGrowing m' root (s.nextpid + 1) t) (sym k.ties_are)
            (IsGrowing-made me i g (current_lives s me c) (rw k.was_free refl) pos)),
    )

-- A change of the entry at `i`, which is in use.
entry_set :
    (s : Sys) (i : ℕ) (p : Proc)
    → (ties s.procs i).0 ≢ free
    → ties (put_proc s i p).procs ≡ update (ties s.procs) i (tie p)
entry_set s i p u = fun_ext λ j. ties-set s.procs i p j (in_table s.procs i u)

linked-IsSound :
    {m : Makers} (s : Sys) (me i : ℕ) → m i ≡ some me → IsSound m s → IsSound m (link_child me i s)
unfolding link_child
linked-IsSound {m} s me i mine (root, r, pos, g) = (
  root,
  r,
  pos,
  subst (λ t. IsGrowing m root s.nextpid t) (sym (entry_set s i _ (g.making i me mine).0))
      (IsGrowing-linked me i g mine),
)

ready-IsSound :
    {m : Makers} (s : Sys) (me i : ℕ)
    → m i ≡ some me
    → (proc_at s.procs i).parent ≡ some me
    → IsSound m s
    → IsSound (set_maker m i none) (make_ready i s)
unfolding make_ready
ready-IsSound {m} s me i mine linked (root, r, pos, g) = (
  root,
  r,
  pos,
  subst (λ t. IsGrowing (set_maker m i none) root s.nextpid t)
      (sym (entry_set s i _ (g.making i me mine).0)) (IsGrowing-ready me i g mine linked),
)

exited-IsSound :
    {m : Makers} (s : Sys) {s' : Sys} (me status : ℕ) (rs : List Release) (b : Bool)
    → IsCurrent s me
    → IsIdle m me
    → exit me status s ≡ ok (rs, some b, s')
    → IsSound m s
    → IsSound m s'
exited-IsSound {m} s {s'} me status rs b c idle e (root, r, pos, g) =
    let k = exit-IsExited me status s e in
    let lives = current_lives s me c in
    let other : me ≢ root = not_same root me (subst (λ o. is_proc o me ≡ false) r k.not_root) in
    (
      root,
      k.root_kept ∙ r,
      rw k.next_is pos,
      subst (λ n. IsGrowing m root n (ties s'.procs)) (sym k.next_is)
          (subst (λ t. IsGrowing m root s.nextpid t) (sym (k.ties_are root r lives))
            (IsGrowing-exited me g idle lives other)),
    )

reaped-IsSound :
    {m : Makers} {me pid : ℕ} {s s' : Sys}
    → IsIdle m me
    → IsReaped me pid s s'
    → IsSound m s
    → IsSound m s'
reaped-IsSound {m} {me} {pid} {s} {s'} idle k (root, r, pos, g) = (
  root,
  k.root_kept ∙ r,
  rw k.next_is pos,
  subst (λ n. IsGrowing m root n (ties s'.procs)) (sym k.next_is)
      (subst (λ t. IsGrowing m root s.nextpid t) (sym k.ties_are)
        (IsGrowing-reaped me k.entry g idle (rw k.had_exited refl) k.was_child)),
)

waited-IsSound :
    {m : Makers} (s : Sys) {s' : Sys} (me addr : ℕ) (w : Waited)
    → IsCurrent s me
    → IsIdle m me
    → wait me addr s ≡ ok (w, s')
    → IsSound m s
    → IsSound m s'
waited-IsSound s {s'} me addr w c idle e v =
    elim (wait-WaitEnd me addr s w (current_lives s me c) e) [
      | inl (pid, _, k) ↦ reaped-IsSound idle k v
      | inr k ↦ kept-IsSound k v
    ]

-- Each step keeps the family sound.
Step-IsSound : {r r' : Run} → Step r r' → IsSound r.makers r.sys → IsSound r'.makers r'.sys
Step-IsSound (forks me i pid c idle few e) v = forked-IsSound _ me i pid c few e v
Step-IsSound (links me i c mine) v = linked-IsSound _ me i mine v
Step-IsSound (readies me i c mine linked) v = ready-IsSound _ me i mine linked v
Step-IsSound (exits me status rs b c idle e) v = exited-IsSound _ me status rs b c idle e v
Step-IsSound (waits me addr w c idle e) v = waited-IsSound _ me addr w c idle e v
Step-IsSound (others o) v = kept-IsSound (OwnStep-IsKept o) v

-- In every state that processes reach from the first one on, the first process has not exited; every
-- other process in use has a parent that has not exited, or else is being made by a `fork` of a
-- process that has not exited, which sets its parent; the pids in use are positive, were given out
-- and differ; and entries not in use have no pid and no parent.
pub Reached-IsSound : {boot : Sys} {r : Run} → IsBoot boot → Reached boot r → IsSound r.makers r.sys
Reached-IsSound {boot} b (starts initcode e) = userinit-IsSound initcode boot b e
Reached-IsSound b (goes_on r step) = Step-IsSound step (Reached-IsSound b r)
