-- ===== src/Proc/Family/Owns.antt =====
-- What of the calls of kernel/proc.c leaves parents and pids as they are.
use mathlib.Core.Path.{fun_ext}
use fast_ipc.Base.{
  ℕ, ◌+◌, ◌≡◌, refl, sym, ap, subst, Bool, true, false, ◌==◌, List, Option, none, set, Bool-cases,
  inl, inr, Outcome, ok, >>=-eq-ok, to_int, is_negative,
}
use fast_ipc.Kalloc.{Kmem}
use fast_ipc.File.{File, Release}
use fast_ipc.Log.{Log}
use fast_ipc.Fs.Icache.{Store}
use fast_ipc.Vm.Grow.{uvmalloc, uvmdealloc}
use fast_ipc.Proc.{Proc, sleeping, runnable, running, proc_at, wakeup, kill, fall_asleep, tidy_up}
use fast_ipc.Proc.Life.{Sys, growproc, with_size}
use fast_ipc.Proc.Calls.{exit}
use fast_ipc.Proc.Run.{dispatched, gave_way}
use fast_ipc.Proc.Family.{Stage, live, stage, tie, ties}
use fast_ipc.Proc.Family.Updates.{IsKept, ties-set_keeps, ties-wakeup, ties-kill}
use fast_ipc.Proc.Family.Forks.{ok-pair-eq}
use fast_ipc.Proc.Family.Exits.{exit-IsKept}

abbrev pub IsCurrent : Sys → ℕ → Type 0
IsCurrent s me = (proc_at s.procs me).state ≡ running

-- What leaves parents and pids as they are. A call up to where it returns or sleeps is one step. Where
-- `begin_op` makes `exit` sleep, its files are closed, so that `exit` from there on is the rest of the
-- call.
pub data OwnStep : Sys → Sys → Type 0 where
  exit_sleeps :
      {s s' : Sys} (me status : ℕ) (rs : List Release)
      → IsCurrent s me
      → exit me status s ≡ ok (rs, none, s')
      → OwnStep s s'
  grows :
      {s s' : Sys} (me n : ℕ) (b : Bool)
      → IsCurrent s me
      → growproc me n s ≡ ok (b, s')
      → OwnStep s s'
  wakes :
      {s : Sys} (me : Option ℕ) (chan : ℕ) → OwnStep s (record s { procs = wakeup me chan s.procs })
  kills : {s : Sys} (pid : ℕ) → OwnStep s (record s { procs = (kill pid s.procs).1 })
  sleeps :
      {s : Sys} (me chan : ℕ)
      → IsCurrent s me
      → OwnStep s (record s { procs = fall_asleep me chan s.procs })
  tidies : {s : Sys} (me : ℕ) → IsCurrent s me → OwnStep s (record s { procs = tidy_up me s.procs })
  yields : {s : Sys} (me : ℕ) → IsCurrent s me → OwnStep s (gave_way s me)
  dispatches : {s : Sys} (i : ℕ) → (proc_at s.procs i).state ≡ runnable → OwnStep s (dispatched s i)
  -- What the rest of the kernel does to memory, files and disk.
  works :
      {s : Sys} (k : Kmem) (files : List File) (store : Store) (log : Log)
      → OwnStep s (record s { kmem = k; files = files; store = store; log = log })

pub current_lives : (s : Sys) (me : ℕ) → IsCurrent s me → (ties s.procs me).0 ≡ live
current_lives s me c = rw c refl

one-IsKept :
    (s : Sys) (i : ℕ) (p : Proc)
    → tie p ≡ ties s.procs i
    → IsKept s (record s { procs = set s.procs i p })
one-IsKept s i p e = record {
  ties_are = fun_ext λ j. ties-set_keeps s.procs i p j e;
  next_is = refl;
  root_kept = refl;
}

staged : (p : Proc) (a : Stage) → stage p.state ≡ a → (a, p.parent, p.pid) ≡ tie p
staged p a e = ap (λ x. (x, p.parent, p.pid)) (sym e)

with_size-IsKept :
    (s : Sys) (me : ℕ) (r : ℕ × Kmem) {s' : Sys} → s' ≡ with_size s me r → IsKept s s'
with_size-IsKept s me r {s'} u =
    subst (λ x. IsKept s x) (sym u)
      (record {
        ties_are = fun_ext λ j. ties-set_keeps s.procs me _ j refl;
        next_is = refl;
        root_kept = refl;
      })

memory-IsKept :
    (s : Sys) (k : Kmem) (files : List File) (store : Store) (log : Log)
    → IsKept s (record s { kmem = k; files = files; store = store; log = log })
memory-IsKept s k files store log = record { ties_are = refl; next_is = refl; root_kept = refl }

table-IsKept :
    (s : Sys) (ps : List Proc)
    → ((j : ℕ) → ties ps j ≡ ties s.procs j)
    → IsKept s (record s { procs = ps })
table-IsKept s ps h = record { ties_are = fun_ext h; next_is = refl; root_kept = refl }

growproc-IsKept :
    (me n : ℕ) (s : Sys) (b : Bool) {s' : Sys} → growproc me n s ≡ ok (b, s') → IsKept s s'
unfolding growproc
growproc-IsKept me n s b {s'} e =
    let p = proc_at s.procs me in
    let sz = to_int p.sz in
    elim (Bool-cases (is_negative n)) [
      | inl neg ↦
          (let (r, a, h) =
              >>=-eq-ok (uvmdealloc p.pagetable sz (to_int (sz + n)) s.kmem) _ (rw neg at e) in
            with_size-IsKept s me r (ok-pair-eq h).1)
      | inr pos ↦ elim (Bool-cases (n == 0)) [
        | inl z ↦
            (let h : ◌≡◌ {A = Outcome (Bool × Sys)} (ok (true, with_size s me (sz, s.kmem)))
                  (ok (b, s')) =
                rw (pos, z) at e in
              with_size-IsKept s me (sz, s.kmem) (ok-pair-eq h).1)
        | inr nz ↦
            (let (r, a, h) =
                >>=-eq-ok (uvmalloc p.pagetable sz (to_int (sz + n)) s.kmem) _
                  (rw (pos, nz) at e) in
              elim (Bool-cases (to_int r.0 == 0)) [
                | inl no_room ↦
                    (let g : ◌≡◌ {A = Outcome (Bool × Sys)} (ok (false, record s { kmem = r.1 }))
                          (ok (b, s')) =
                        rw no_room at h in
                      subst (λ x. IsKept s x) (sym (ok-pair-eq g).1)
                        (memory-IsKept s r.1 s.files s.store s.log))
                | inr grown ↦
                    (let g : ◌≡◌ {A = Outcome (Bool × Sys)} (ok (true, with_size s me r))
                          (ok (b, s')) =
                        rw grown at h in
                      with_size-IsKept s me r (ok-pair-eq g).1)
              ])
      ]
    ]

pub OwnStep-IsKept : {s s' : Sys} → OwnStep s s' → IsKept s s'
unfolding fall_asleep tidy_up gave_way dispatched
OwnStep-IsKept {s} (exit_sleeps me status rs c e) = exit-IsKept me status s e
OwnStep-IsKept {s} (grows me n b c e) = growproc-IsKept me n s b e
OwnStep-IsKept {s} (wakes me chan) =
    table-IsKept s (wakeup me chan s.procs) (ties-wakeup me chan s.procs)
OwnStep-IsKept {s} (kills pid) = table-IsKept s (kill pid s.procs).1 (ties-kill pid s.procs)
OwnStep-IsKept {s} (sleeps me chan c) =
    one-IsKept s me (record (proc_at s.procs me) { chan = chan; state = sleeping })
      (staged (proc_at s.procs me) live (current_lives s me c))
OwnStep-IsKept {s} (tidies me c) = one-IsKept s me (record (proc_at s.procs me) { chan = 0 }) refl
OwnStep-IsKept {s} (yields me c) =
    one-IsKept s me (record (proc_at s.procs me) { state = runnable })
      (staged (proc_at s.procs me) live (current_lives s me c))
OwnStep-IsKept {s} (dispatches i c) =
    one-IsKept s i (record (proc_at s.procs i) { state = running })
      (staged (proc_at s.procs i) live (rw c refl))
OwnStep-IsKept {s} (works k files store log) = memory-IsKept s k files store log
