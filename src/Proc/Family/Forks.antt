-- ===== src/Proc/Family/Forks.antt =====
-- What `fork` of kernel/proc.c, with `allocproc`, does to the table of processes where it returns.
use mathlib.Core.Path.{fun_ext}
use fast_ipc.Base.{
  ℕ, suc, ◌+◌, ◌<◌, ◌≡◌, refl, sym, ap, ◌∙◌, subst, arith, true, ◌==◌, List, [], ◌∷◌, Option, none,
  some, length, set, length-set, Bool-cases, inl, inr, Outcome, ◌>>=◌, ok, panic, >>=-eq-ok, to_int,
  Option-cases,
}
use fast_ipc.Kalloc.{Kmem, kalloc}
use fast_ipc.Vm.Grow.{uvmcopy}
use fast_ipc.Proc.{Proc, unused, proc_at, is_unused, find_unused}
use fast_ipc.Proc.Life.{
  Sys, claimed, with_trapframe, with_pagetable, with_context, give_up, freeproc, set_up_proc,
  allocproc, proc_pagetable,
}
use fast_ipc.Proc.Calls.{fork_start, fork_into, child_of, dup_files, dup_dir}
use fast_ipc.Proc.Family.{live, Tie, tie, ties, update}
use fast_ipc.Proc.Family.Updates.{ties-set}

-- The entry found is in the table and not in use, and all before it are.

pub find_unused-some :
    (k : ℕ) (ps : List Proc) (i : ℕ)
    → find_unused k ps ≡ some i
    → (j : ℕ) × (i ≡ k + j) × (j < length ps) × ((proc_at ps j).state ≡ unused)
unfolding find_unused
find_unused-some k [] i e = absurd (cc)
find_unused-some k (p ∷ ps) i e = elim (Bool-cases (is_unused p.state)) [
  | inl u ↦
      let h : some k ≡ some i = rw u at e in
      let h' : k ≡ i = cc in (0, omega arith, omega arith, ground arith)
  | inr n ↦
      let (j, a, b, c) = find_unused-some (k + 1) ps i (rw n at e) in
      (suc j, omega arith, omega arith, c)
]

-- The state in which `allocproc` has set the entry up.
abbrev pub set_up : Sys → (i : ℕ) → (r : ℕ × Kmem) → Sys
set_up s i r =
    with_context (with_pagetable (with_trapframe (claimed s i) i (kalloc (claimed s i).kmem)) i r) i

give_up-ne : (s : Sys) (i n : ℕ) {s' : Sys} → give_up s i ≡ ok (some n, s') → ⊥
unfolding give_up
give_up-ne s i n {s'} e =
    let (x, a, b) = >>=-eq-ok (freeproc s i) _ e in
    let h : ◌≡◌ {A = Outcome (Option ℕ × Sys)} (ok (none, x)) (ok (some n, s')) = b in cc

ok-some-eq {ℓ} :
    {X : Type ℓ} {i n : ℕ} {u v : X}
    → ◌≡◌ {A = Outcome (Option ℕ × X)} (ok (some i, u)) (ok (some n, v))
    → (n ≡ i) × (v ≡ u)
ok-some-eq e = (cc, cc)

set_up_proc-some :
    (s : Sys) (i n : ℕ) {s' : Sys}
    → set_up_proc s i ≡ ok (some n, s')
    → (n ≡ i) × ((r : ℕ × Kmem) × (s' ≡ set_up s i r))
unfolding set_up_proc
set_up_proc-some s i n {s'} e =
    let s1 = claimed s i in
    let s2 = with_trapframe s1 i (kalloc s1.kmem) in
    elim (Bool-cases ((kalloc s1.kmem).0 == 0)) [
      | inl z ↦ absurd (give_up-ne s2 i n (rw z at e))
      | inr nz ↦
          let (r, a, b) =
            >>=-eq-ok (proc_pagetable s2.trampoline (kalloc s1.kmem).0 s2.kmem) _ (rw nz at e) in
          elim (Bool-cases (r.0 == 0)) [
            | inl z ↦ absurd (give_up-ne (with_pagetable s2 i r) i n (rw z at b))
            | inr nz' ↦
                let b' : ok (some i, set_up s i r) ≡ ok (some n, s') = rw nz' at b in
                let (m, u) = ok-some-eq b' in (m, (r, u))
          ]
    ]

-- All that the family sees of the entry at `i` is now `x`, and nothing else of it has changed.
abbrev pub Becomes : (ps ps' : List Proc) → (i : ℕ) → Tie → Type 0
Becomes ps ps' i x =
    (i < length ps') × (ties ps' i ≡ x) × ((j : ℕ) → ties ps' j ≡ update (ties ps) i x j)

Becomes-set :
    (ps : List Proc) (i : ℕ) (p : Proc) → i < length ps → Becomes ps (set ps i p) i (tie p)
Becomes-set ps i p lt = (
  rw (length-set ps i p) lt,
  ties-set ps i p i lt ∙ (let e : (i == i) ≡ true = ground arith in rw e refl),
  λ j. ties-set ps i p j lt,
)

pub Becomes-again :
    (ps ps1 : List Proc) {i : ℕ} {x : Tie} (p : Proc)
    → Becomes ps ps1 i x
    → Becomes ps (set ps1 i p) i (tie p)
Becomes-again ps ps1 {i} {x} p (lt, at_i, rest) = (
  rw (length-set ps1 i p) lt,
  ties-set ps1 i p i lt ∙ (let e : (i == i) ≡ true = ground arith in rw e refl),
  λ j.
      ties-set ps1 i p j lt
      ∙ elim (Bool-cases (j == i)) [ inl s ↦ rw s refl | inr d ↦ rw d (rest j ∙ (rw d refl)) ],
)

Becomes-keeps :
    (ps ps1 : List Proc) {i : ℕ} {x : Tie} (p : Proc)
    → tie p ≡ ties ps1 i
    → Becomes ps ps1 i x
    → Becomes ps (set ps1 i p) i x
Becomes-keeps ps ps1 {i} p e b =
    subst (λ y. Becomes ps (set ps1 i p) i y) (e ∙ b.1) (Becomes-again ps ps1 p b)

pub set_up-Becomes :
    (s : Sys) (i : ℕ) (r : ℕ × Kmem)
    → i < length s.procs
    → Becomes s.procs (set_up s i r).procs i (live, (proc_at s.procs i).parent, s.nextpid)
unfolding claimed
set_up-Becomes s i r lt =
    Becomes-keeps _ _ _ refl
      (Becomes-keeps _ _ _ refl (Becomes-keeps _ _ _ refl (Becomes-set s.procs i _ lt)))

pub allocproc-some :
    (s : Sys) (i : ℕ) {s' : Sys}
    → allocproc s ≡ ok (some i, s')
    → (i < length s.procs)
      × ((proc_at s.procs i).state ≡ unused)
      × (find_unused 0 s.procs ≡ some i)
      × ((r : ℕ × Kmem) × (s' ≡ set_up s i r))
unfolding allocproc
allocproc-some s i {s'} e = elim (Option-cases (find_unused 0 s.procs)) [
  | inl absent ↦
      (let h : ◌≡◌ {A = Outcome (Option ℕ × Sys)} (ok (none, s)) (ok (some i, s')) =
          rw (absent, allocproc) at e in
        absurd (cc))
  | inr (k, found) ↦
      (let (j, a, b, c) = find_unused-some 0 s.procs k found in
        let h : set_up_proc s k ≡ ok (some i, s') = rw (found, allocproc) at e in
        let (m, r) = set_up_proc-some s k i h in
        let same : i ≡ j = omega (arith, m, a) in
        let same' : i ≡ k = m in (rw same b, rw same c, rw same' found, rw same' r))
]

-- What the rest of `fork` changes in the table where it returns.
record IsChild (me i pid : ℕ) (s s' : Sys) : Type 0 where
  pid_is : pid ≡ (proc_at s.procs i).pid
  ofile : List (Option ℕ)
  procs_are : s'.procs ≡ set s.procs i (child_of (proc_at s.procs me) (proc_at s.procs i) ofile)
  next_is : s'.nextpid ≡ s.nextpid
  root_is : s'.initproc ≡ s.initproc

pub ok-pair-eq {ℓ ι} :
    {X : Type ℓ} {Y : Type ι} {i n : X} {u v : Y}
    → ◌≡◌ {A = Outcome (X × Y)} (ok (i, u)) (ok (n, v))
    → (n ≡ i) × (v ≡ u)
ok-pair-eq e = (cc, cc)

fork_into-IsChild :
    (me i : ℕ) (s : Sys) (pid : ℕ) {s' : Sys}
    → fork_into me i s ≡ ok (pid, s')
    → IsChild me i pid s s'
unfolding fork_into
fork_into-IsChild me i s pid {s'} e =
    let p = proc_at s.procs me in
    let np = proc_at s.procs i in
    let (r, a, b) = >>=-eq-ok (uvmcopy p.pagetable np.pagetable p.sz s.kmem) _ e in
    elim (Bool-cases r.0) [
      | inl t ↦
          let (fs, c, d) = >>=-eq-ok (dup_files p.ofile np.ofile s.files) _ (rw t at b) in
          let (store, f, g) = >>=-eq-ok (dup_dir p.cwd s.store) _ d in
          let (m, u) = ok-pair-eq g in
          record {
            pid_is = m;
            ofile = fs.0;
            procs_are = ap (λ (x : Sys). x.procs) u;
            next_is = ap (λ (x : Sys). x.nextpid) u;
            root_is = ap (λ (x : Sys). x.initproc) u;
          }
      | inr f ↦
          (let h : ◌≡◌ {A = Outcome (ℕ × Sys)} panic (ok (pid, s')) = rw f at b in absurd (cc))
    ]

ok-triple-eq :
    {i i' n n' : ℕ} {u u' : Sys}
    → ◌≡◌ {A = Outcome (ℕ × ℕ × Sys)} (ok (i, n, u)) (ok (i', n', u'))
    → (i' ≡ i) × (n' ≡ n) × (u' ≡ u)
ok-triple-eq e = (cc, cc, cc)

fork-found :
    (me : ℕ) (i pid : ℕ) {s' : Sys} (o : Option ℕ) (s1 : Sys)
    → ◌≡◌ {A = Outcome (ℕ × ℕ × Sys)}
        (elim o [ none ↦ panic | some j ↦ fork_into me j s1 >>= λ c. ok (j, c.0, c.1) ])
        (ok (i, pid, s'))
    → (o ≡ some i) × (fork_into me i s1 ≡ ok (pid, s'))
fork-found me i pid none s1 e = absurd (cc)
fork-found me i pid {s'} (some j) s1 e =
    let (c, a, b) = >>=-eq-ok (fork_into me j s1) _ e in
    let (m, n, u) = ok-triple-eq b in
    (
      ap some (sym m),
      subst (λ k. fork_into me k s1 ≡ ok (pid, s')) (sym m) (a ∙ λ k. ok (sym n k, sym u k)),
    )

-- What the first part of `fork` does to the family: an entry that was not in use has the next pid,
-- and the parent that it had.
pub record IsForked (i pid : ℕ) (s s' : Sys) : Type 0 where
  pub was_free : (proc_at s.procs i).state ≡ unused
  pub is_next : pid ≡ s.nextpid
  pub ties_are :
      ties s'.procs ≡ update (ties s.procs) i (live, (proc_at s.procs i).parent, s.nextpid)
  pub next_is : s'.nextpid ≡ to_int (s.nextpid + 1)
  pub root_is : s'.initproc ≡ s.initproc

pub fork_start-IsForked :
    (me i pid : ℕ) (s : Sys) {s' : Sys} → fork_start me s ≡ ok (i, pid, s') → IsForked i pid s s'
unfolding claimed child_of fork_start
fork_start-IsForked me i pid s {s'} e =
    let (r, a0, b0) = >>=-eq-ok (allocproc s) _ e in
    let s1 = r.1 in
    let (o, b) = fork-found me i pid r.0 s1 b0 in
    let a : allocproc s ≡ ok (some i, s1) = a0 ∙ ap (λ x. ok (x, s1)) o in
    let (lt, free_, first, (q, is)) = allocproc-some s i a in
    let c : IsChild me i pid s1 s' = fork_into-IsChild me i s1 pid b in
    let new : Tie = (live, (proc_at s.procs i).parent, s.nextpid) in
    let setup : Becomes s.procs s1.procs i new =
      subst (λ x. Becomes s.procs x.procs i new) (sym is) (set_up-Becomes s i q lt) in
    let made : Becomes s.procs _ i new =
      Becomes-keeps s.procs s1.procs (child_of (proc_at s1.procs me) (proc_at s1.procs i) c.ofile)
        refl setup in
    record {
      was_free = free_;
      is_next = c.pid_is ∙ ap (λ (x : Tie). x.2) setup.1;
      ties_are = fun_ext λ j. ap (λ ps. ties ps j) c.procs_are ∙ made.2 j;
      next_is = c.next_is ∙ ap (λ (x : Sys). x.nextpid) is;
      root_is = c.root_is ∙ ap (λ (x : Sys). x.initproc) is;
    }
