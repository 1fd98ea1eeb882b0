-- ===== src/Proc/Family/Boots.antt =====
-- The first process: what `userinit` of kernel/proc.c makes of a table that is not in use.
use mathlib.Core.Path.{fun_ext}
use fast_ipc.Base.{
  ℕ, ◌+◌, ◌≡◌, ◌≢◌, refl, sym, ap, ◌∙◌, subst, arith, true, ◌==◌, [], ◌∷◌, set, Option, none, some,
  Bool-cases, inl, inr, Outcome, ok, fault, >>=-eq-ok, to_int,
}
use fast_ipc.Fs.Path.{slash, namei}
use fast_ipc.Vm.Grow.{uvminit}
use fast_ipc.Proc.{Proc, unused, runnable, proc_at}
use fast_ipc.Proc.Life.{Sys, userinit, first_user, allocproc, claimed}
use fast_ipc.Proc.Family.{free, live, stage, Tie, tie, ties, update, IsFamily}
use fast_ipc.Proc.Family.Updates.{IsSound}
use fast_ipc.Proc.Family.Making.{IsGrowing, no_makers, live_free}
use fast_ipc.Proc.Family.Forks.{Becomes, Becomes-again, set_up-Becomes, allocproc-some}

-- The table as `procinit` leaves it.

pub record IsBoot (s : Sys) : Type 0 where
  pub first_pid : s.nextpid ≡ 1
  pub all_unused : (j : ℕ) → (proc_at s.procs j).state ≡ unused
  pub no_parents : (j : ℕ) → (proc_at s.procs j).parent ≡ none
  pub no_pids : (j : ℕ) → (proc_at s.procs j).pid ≡ 0

-- What `first_user` leaves of the state.
record IsFirst (i : ℕ) (s s' : Sys) : Type 0 where
  entry_is : Proc
  procs_are : s'.procs ≡ set s.procs i entry_is
  state_is : entry_is.state ≡ runnable
  pid_is : entry_is.pid ≡ (proc_at s.procs i).pid
  next_is : s'.nextpid ≡ s.nextpid
  root_is : s'.initproc ≡ some i

ok-eq {ℓ} : {X : Type ℓ} {u v : X} → ◌≡◌ {A = Outcome X} (ok u) (ok v) → v ≡ u
ok-eq e = cc

first_user-IsFirst :
    (initcode i : ℕ) (s : Sys) {s' : Sys} → first_user initcode i s ≡ ok s' → IsFirst i s s'
unfolding first_user
first_user-IsFirst initcode i s {s'} e =
    let p = proc_at s.procs i in
    let (k, a, b) = >>=-eq-ok (uvminit p.pagetable initcode 52 s.kmem) _ e in
    let (r, c, d) = >>=-eq-ok (namei s.store 0 (slash ∷ [])) _ b in
    let u = ok-eq d in
    record {
      entry_is = _;
      procs_are = ap (λ (x : Sys). x.procs) u;
      state_is = refl;
      pid_is = refl;
      next_is = ap (λ (x : Sys). x.nextpid) u;
      root_is = ap (λ (x : Sys). x.initproc) u;
    }

userinit-found :
    (initcode : ℕ) (s : Sys) {s' : Sys} (o : Option ℕ) (s1 : Sys)
    → allocproc s ≡ ok (o, s1)
    → ◌≡◌ {A = Outcome Sys} (elim o [ none ↦ fault | some i ↦ first_user initcode i s1 ]) (ok s')
    → (i : ℕ) × (allocproc s ≡ ok (some i, s1)) × IsFirst i s1 s'
userinit-found initcode s none s1 a b = absurd (cc)
userinit-found initcode s (some i) s1 a b = (i, a, first_user-IsFirst initcode i s1 b)

same : (a b : ℕ) → (a == b) ≡ true → a ≡ b
same a b e = ground arith

-- One process, and an empty table else.
IsFamily-first :
    (i : ℕ) (o : Option ℕ) (t : ℕ → Tie)
    → ((j : ℕ) → (t j).0 ≡ free)
    → ((j : ℕ) → (t j).2 ≡ 0)
    → IsFamily i 2 (update t i (live, o, 1))
IsFamily-first i o t idle zeros =
    let t' = update t i (live, o, 1) in
    let only : (j : ℕ) → (t' j).0 ≢ free → (j == i) ≡ true =
      λ j u. elim (Bool-cases (j == i)) [ inl s ↦ s | inr d ↦ absurd (u (rw d (idle j))) ] in
    let self : (i == i) ≡ true = ground arith in
    record {
      root_lives = rw self refl;
      parent_lives = λ j u ne. absurd (ne (same j i (only j u)));
      pid_given = λ j u. rw (only j u) (omega arith, omega arith);
      free_pid = λ j u. elim (Bool-cases (j == i)) [
        | inl s ↦ absurd (let h : live ≡ free = rw s at u in cc)
        | inr d ↦ rw d (zeros j)
      ];
      pids_differ = λ j k u v e. same j i (only j u) ∙ sym (same k i (only k v));
    }

-- No `fork` is at work.
IsGrowing-first :
    (i : ℕ) (o : Option ℕ) (t : ℕ → Tie)
    → ((j : ℕ) → (t j).0 ≡ free)
    → ((j : ℕ) → (t j).1 ≡ none)
    → ((j : ℕ) → (t j).2 ≡ 0)
    → IsGrowing no_makers i 2 (update t i (live, o, 1))
IsGrowing-first i o t idle orphans zeros = record {
  family = IsFamily-first i o t idle zeros;
  no_parent = λ j u. elim (Bool-cases (j == i)) [
    | inl s ↦ absurd (live_free (rw s at u))
    | inr d ↦ rw d (orphans j)
  ];
  making = λ j q e. absurd (cc);
}

pub userinit-IsSound :
    (initcode : ℕ) (boot : Sys) {s : Sys}
    → IsBoot boot
    → userinit initcode boot ≡ ok s
    → IsSound no_makers s
unfolding userinit claimed
userinit-IsSound initcode boot {s} b e =
    let (r, a, c) = >>=-eq-ok (allocproc boot) _ e in
    let (i, a', f) = userinit-found initcode boot r.0 r.1 a c in
    let (lt, free_, first, (q, is)) = allocproc-some boot i a' in
    let o = (proc_at boot.procs i).parent in
    let setup : Becomes boot.procs r.1.procs i (live, o, boot.nextpid) =
      subst (λ x. Becomes boot.procs x.procs i (live, o, boot.nextpid)) (sym is)
        (set_up-Becomes boot i q lt) in
    let made = Becomes-again boot.procs r.1.procs f.entry_is setup in
    let pid_one : f.entry_is.pid ≡ 1 = f.pid_is ∙ ap (λ (x : Tie). x.2) setup.1 ∙ b.first_pid in
    let is_tie : tie f.entry_is ≡ (live, f.entry_is.parent, 1) =
      ap (λ st. (stage st, f.entry_is.parent, f.entry_is.pid)) f.state_is
      ∙ ap (λ n. (live, f.entry_is.parent, n)) pid_one in
    let two : s.nextpid ≡ 2 =
      f.next_is ∙ ap (λ (x : Sys). x.nextpid) is ∙ ap (λ n. to_int (n + 1)) b.first_pid in
    (
      i,
      f.root_is,
      omega (arith, two),
      subst (λ n. IsGrowing no_makers i n (ties s.procs)) (sym two)
          (subst (λ t. IsGrowing no_makers i 2 t)
            (sym (
              fun_ext λ j.
                ap (λ ps. ties ps j) f.procs_are
                ∙ made.2 j
                ∙ ap (λ x. update (ties boot.procs) i x j) is_tie))
            (IsGrowing-first i f.entry_is.parent (ties boot.procs) (λ j. rw (b.all_unused j) refl)
              b.no_parents b.no_pids)),
    )
