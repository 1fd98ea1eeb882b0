-- ===== src/Proc/Family/Waits.antt =====
-- What a round of `wait` of kernel/proc.c, with `freeproc`, does to the table of processes.
use mathlib.Core.Path.{fun_ext}
use fast_ipc.Base.{
  ℕ, zero, suc, ◌+◌, ◌<◌, ◌≡◌, refl, sym, ap, ◌∙◌, subst, arith, Bool, true, false, not, ◌||◌, ◌==◌,
  if◌then◌else◌, List, [], ◌∷◌, length, set, Bool-cases, inl, inr, ◌⊎◌, Outcome, ok, >>=-eq-ok,
}
use fast_ipc.Proc.{Proc, sleeping, zombie, proc_at, is_proc, is_zombie, scan_children, fall_asleep}
use fast_ipc.Proc.Life.{Sys, address, freed, free_memory, freeproc}
use fast_ipc.Proc.Calls.{Waited, child, failed, asleep, report, reap, wait}
use fast_ipc.Proc.Family.{live, ties, reaped}
use fast_ipc.Proc.Family.Updates.{IsKept, ties-set, ties-set_keeps}

-- A child that the scan finds has exited.

pub scan_children-inl :
    (me k : ℕ) (havekids : Bool) (ps : List Proc) (i : ℕ)
    → scan_children me k havekids ps ≡ inl i
    → (j : ℕ) × (i ≡ k + j)
      × (j < length ps)
      × (is_proc (proc_at ps j).parent me ≡ true)
      × ((proc_at ps j).state ≡ zombie)
unfolding scan_children
scan_children-inl me k havekids [] i e = absurd (cc)
scan_children-inl me k havekids (p ∷ ps) i e = elim (Bool-cases (is_proc p.parent me)) [
  | inl c ↦ elim (Bool-cases (is_zombie p.state)) [
    | inl z ↦
        (let h : ◌≡◌ {A = ℕ ⊎ Bool} (inl k) (inl i) = rw (c, z) at e in
          let h' : k ≡ i = cc in (0, omega arith, omega arith, c, ground arith))
    | inr nz ↦
        (let (j, a, b, d, f) = scan_children-inl me (k + 1) true ps i (rw (c, nz) at e) in
          (suc j, omega arith, omega arith, d, f))
  ]
  | inr n ↦
      (let (j, a, b, d, f) = scan_children-inl me (k + 1) havekids ps i (rw n at e) in
        (suc j, omega arith, omega arith, d, f))
]

scan_had : (me k : ℕ) (ps : List Proc) (h : Bool) → scan_children me k true ps ≡ inr h → h ≡ true
unfolding scan_children
scan_had me k [] h e = cc
scan_had me k (p ∷ ps) h e = elim (Bool-cases (is_proc p.parent me)) [
  | inl c ↦ elim (Bool-cases (is_zombie p.state)) [
    | inl z ↦ (let f : ◌≡◌ {A = ℕ ⊎ Bool} (inl k) (inr h) = rw (c, z) at e in absurd (cc))
    | inr nz ↦ scan_had me (k + 1) ps h (rw (c, nz) at e)
  ]
  | inr n ↦ scan_had me (k + 1) ps h (rw n at e)
]

-- A scan that finds none says whether there are children, none of which has exited.
pub scan_children-inr :
    (me k : ℕ) (havekids : Bool) (ps : List Proc) (h : Bool) (j : ℕ)
    → scan_children me k havekids ps ≡ inr h
    → is_proc (proc_at ps j).parent me ≡ true
    → (h ≡ true) × (is_zombie (proc_at ps j).state ≡ false)
unfolding scan_children
scan_children-inr me k havekids [] h j e c = absurd (cc)
scan_children-inr me k havekids (p ∷ ps) h zero e c = elim (Bool-cases (is_zombie p.state)) [
  | inl z ↦ (let f : ◌≡◌ {A = ℕ ⊎ Bool} (inl k) (inr h) = rw (c, z) at e in absurd (cc))
  | inr nz ↦ (scan_had me (k + 1) ps h (rw (c, nz) at e), nz)
]
scan_children-inr me k havekids (p ∷ ps) h (suc j) e c = elim (Bool-cases (is_proc p.parent me)) [
  | inl d ↦ elim (Bool-cases (is_zombie p.state)) [
    | inl z ↦ (let f : ◌≡◌ {A = ℕ ⊎ Bool} (inl k) (inr h) = rw (d, z) at e in absurd (cc))
    | inr nz ↦ scan_children-inr me (k + 1) true ps h j (rw (d, nz) at e) c
  ]
  | inr n ↦ scan_children-inr me (k + 1) havekids ps h j (rw n at e) c
]

ok-eq {ℓ} : {X : Type ℓ} {u v : X} → ◌≡◌ {A = Outcome X} (ok u) (ok v) → v ≡ u
ok-eq e = cc

freeproc-IsFreed :
    (s : Sys) (i : ℕ) {s' : Sys}
    → freeproc s i ≡ ok s'
    → (s'.procs ≡ set s.procs i (freed (proc_at s.procs i)))
      × (s'.nextpid ≡ s.nextpid)
      × (s'.initproc ≡ s.initproc)
unfolding freeproc
freeproc-IsFreed s i {s'} e =
    let (k, a, b) = >>=-eq-ok (free_memory (proc_at s.procs i) s.kmem) _ e in
    let u = ok-eq b in
    (ap (λ (x : Sys). x.procs) u, ap (λ (x : Sys). x.nextpid) u, ap (λ (x : Sys). x.initproc) u)

-- A child of `me` that had exited is off the table, and `pid` was its pid.
pub record IsReaped (me pid : ℕ) (s s' : Sys) : Type 0 where
  pub entry : ℕ
  pub was_child : is_proc (proc_at s.procs entry).parent me ≡ true
  pub had_exited : (proc_at s.procs entry).state ≡ zombie
  pub was_pid : pid ≡ (proc_at s.procs entry).pid
  pub ties_are : ties s'.procs ≡ reaped (ties s.procs) entry
  pub next_is : s'.nextpid ≡ s.nextpid
  pub root_kept : s'.initproc ≡ s.initproc

-- What `wait` can come to.
abbrev pub WaitEnd : (me : ℕ) → Waited → Sys → Sys → Type 0
WaitEnd me w s s' = ((pid : ℕ) × (w ≡ child pid) × IsReaped me pid s s') ⊎ IsKept s s'

waited-eq :
    {w w' : Waited} {u v : Sys}
    → ◌≡◌ {A = Outcome (Waited × Sys)} (ok (w, u)) (ok (w', v))
    → (w' ≡ w) × (v ≡ u)
waited-eq e = (cc, cc)

IsKept-refl : {s s' : Sys} → s' ≡ s → IsKept s s'
IsKept-refl u = record {
  ties_are = ap (λ (x : Sys). ties x.procs) u;
  next_is = ap (λ (x : Sys). x.nextpid) u;
  root_kept = ap (λ (x : Sys). x.initproc) u;
}

reap-WaitEnd :
    (me i addr : ℕ) (s : Sys) (w : Waited) {s' : Sys}
    → i < length s.procs
    → is_proc (proc_at s.procs i).parent me ≡ true
    → (proc_at s.procs i).state ≡ zombie
    → reap me i addr s ≡ ok (w, s')
    → WaitEnd me w s s'
unfolding reap freed
reap-WaitEnd me i addr s w {s'} lt c z e =
    let (r, a, b) = >>=-eq-ok (report me i addr s) _ e in
    let s1 = record s { kmem = r.1 } in
    elim (Bool-cases r.0) [
      | inl done ↦
          (let (s2, f, g) = >>=-eq-ok (freeproc s1 i) _ (rw done at b) in
            let (m, u) = waited-eq g in
            let (x, y, t) = freeproc-IsFreed s1 i f in
            inl (
              (proc_at s.procs i).pid,
              m,
              record {
                entry = i;
                was_child = c;
                had_exited = z;
                was_pid = refl;
                ties_are =
                    ap (λ (v : Sys). ties v.procs) u
                    ∙ ap ties x
                    ∙ fun_ext λ j. ties-set s.procs i (freed (proc_at s.procs i)) j lt;
                next_is = ap (λ (v : Sys). v.nextpid) u ∙ y;
                root_kept = ap (λ (v : Sys). v.initproc) u ∙ t;
              },
            ))
      | inr faulted ↦
          (let h : ◌≡◌ {A = Outcome (Waited × Sys)} (ok (failed, s1)) (ok (w, s')) =
              rw faulted at b in
            let (m, u) = waited-eq h in
            inr (record {
              ties_are = ap (λ (v : Sys). ties v.procs) u;
              next_is = ap (λ (v : Sys). v.nextpid) u;
              root_kept = ap (λ (v : Sys). v.initproc) u;
            }))
    ]

sleeper-IsKept :
    (me chan : ℕ) (s : Sys)
    → (ties s.procs me).0 ≡ live
    → IsKept s (record s { procs = fall_asleep me chan s.procs })
unfolding fall_asleep
sleeper-IsKept me chan s lives = record {
  ties_are = fun_ext λ j.
      ties-set_keeps s.procs me (record (proc_at s.procs me) { chan = chan; state = sleeping }) j
        (ap (λ x. (x, (proc_at s.procs me).parent, (proc_at s.procs me).pid)) (sym lives));
  next_is = refl;
  root_kept = refl;
}

-- What follows the scan.
abbrev after_scan : (me addr : ℕ) → Sys → ℕ ⊎ Bool → Outcome (Waited × Sys)
after_scan me addr s found = elim found [
  | inl i ↦ reap me i addr s
  | inr havekids ↦
      if not havekids || not ((proc_at s.procs me).killed == 0)
      then ok (failed, s)
      else ok (asleep, record s { procs = fall_asleep me (address s me) s.procs })
]

after_scan-WaitEnd :
    (me addr : ℕ) (s : Sys) (w : Waited) {s' : Sys} (found : ℕ ⊎ Bool)
    → (ties s.procs me).0 ≡ live
    → scan_children me 0 false s.procs ≡ found
    → after_scan me addr s found ≡ ok (w, s')
    → WaitEnd me w s s'
after_scan-WaitEnd me addr s w (inl i) lives at_i e =
    let (j, a, lt, c, z) = scan_children-inl me 0 false s.procs i at_i in
    let same : i ≡ j = omega (arith, a) in
    reap-WaitEnd me i addr s w (rw same lt) (rw same c) (rw same z) e
after_scan-WaitEnd me addr s w {s'} (inr havekids) lives at_h e =
    elim (Bool-cases (not havekids || not ((proc_at s.procs me).killed == 0))) [
      | inl t ↦
          (let h : ◌≡◌ {A = Outcome (Waited × Sys)} (ok (failed, s)) (ok (w, s')) = rw t at e in
            inr (IsKept-refl (waited-eq h).1))
      | inr f ↦
          (let s1 = record s { procs = fall_asleep me (address s me) s.procs } in
            let h : ◌≡◌ {A = Outcome (Waited × Sys)} (ok (asleep, s1)) (ok (w, s')) = rw f at e in
            let (m, u) = waited-eq h in
            inr (subst (λ x. IsKept s x) (sym u) (sleeper-IsKept me (address s me) s lives)))
    ]

pub wait-WaitEnd :
    (me addr : ℕ) (s : Sys) (w : Waited) {s' : Sys}
    → (ties s.procs me).0 ≡ live
    → wait me addr s ≡ ok (w, s')
    → WaitEnd me w s s'
unfolding wait
wait-WaitEnd me addr s w lives e =
    after_scan-WaitEnd me addr s w (scan_children me 0 false s.procs) lives refl e
