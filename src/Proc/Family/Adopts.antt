-- ===== src/Proc/Family/Adopts.antt =====
-- What `reparent` of kernel/proc.c does to the table of processes.
use fast_ipc.Base.{
  ℕ, zero, suc, ◌+◌, ◌<◌, ◌≤◌, ◌≡◌, ◌≢◌, refl, sym, ap, ◌∙◌, subst, arith, true, false, ◌&&◌, ltb,
  leb, ◌==◌, if◌then◌else◌, List, [], ◌∷◌, some, length, set, Bool-cases, inl, inr,
}
use fast_ipc.Proc.{Proc, proc_at, is_proc, wakeup, reparent_from}
use fast_ipc.Proc.Life.{Sys}
use fast_ipc.Proc.Family.{free, live, Tie, ties, update}
use fast_ipc.Proc.Family.Updates.{ties-set, ties-wakeup}

pub apart : live ≡ free → ⊥
apart e = cc

-- The children of `me` go to the root.
abbrev pub adopt : (root me : ℕ) → Tie → Tie
adopt root me x = (x.0, if is_proc x.1 me then some root else x.1, x.2)

child_in_table :
    (ps : List Proc) (i me : ℕ) → is_proc (proc_at ps i).parent me ≡ true → i < length ps
child_in_table [] i me e = absurd (cc)
child_in_table (p ∷ ps) zero me e = omega arith
child_in_table (p ∷ ps) (suc i) me e = omega (arith, child_in_table ps i me e)

-- One round of `reparent`.
abbrev one_adopted : (root chan me i : ℕ) → List Proc → List Proc
one_adopted root chan me i ps =
    if is_proc (proc_at ps i).parent me
    then wakeup (some me) chan (set ps i (record (proc_at ps i) { parent = some root }))
    else ps

ties-one_adopted :
    (root chan me i : ℕ) (ps : List Proc) (j : ℕ)
    → ties (one_adopted root chan me i ps) j ≡ update (ties ps) i (adopt root me (ties ps i)) j
ties-one_adopted root chan me i ps j = elim (Bool-cases (is_proc (proc_at ps i).parent me)) [
  | inl c ↦ rw c (
      ties-wakeup (some me) chan (set ps i (record (proc_at ps i) { parent = some root })) j
      ∙ ties-set ps i (record (proc_at ps i) { parent = some root }) j (child_in_table ps i me c))
  | inr n ↦ rw n (elim (Bool-cases (j == i)) [
    | inl s ↦ let e : j ≡ i = ground arith in rw (s, e) refl
    | inr d ↦ rw d refl
  ])
]

ties-reparent_from :
    (root chan me left i : ℕ) (ps : List Proc) (j : ℕ)
    → ties (reparent_from (some root) chan me left i ps) j
      ≡ (if leb i j && ltb j (i + left) then adopt root me (ties ps j) else ties ps j)
unfolding reparent_from
ties-reparent_from root chan me zero i ps j = ground arith
ties-reparent_from root chan me (suc left) i ps j =
    ties-reparent_from root chan me left (i + 1) (one_adopted root chan me i ps) j
    ∙ ap (λ x. if leb (i + 1) j && ltb j (i + 1 + left) then adopt root me x else x)
        (ties-one_adopted root chan me i ps j)
    ∙ elim (Bool-cases (j == i)) [
      | inl s ↦ let e : j ≡ i = ground arith in rw (s, e) (ground arith)
      | inr d ↦ rw d (ground arith)
    ]

past_table :
    (root me : ℕ) (ps : List Proc) (j : ℕ) → length ps ≤ j → adopt root me (ties ps j) ≡ ties ps j
past_table root me [] j le = refl
past_table root me (p ∷ ps) zero le = absurd (omega arith)
past_table root me (p ∷ ps) (suc j) le = past_table root me ps j (omega arith)

-- After the whole of `reparent` every child of `me` is the root's.
ties-reparent :
    (root chan me : ℕ) (ps : List Proc) (j : ℕ)
    → ties (reparent_from (some root) chan me (length ps) 0 ps) j ≡ adopt root me (ties ps j)
ties-reparent root chan me ps j =
    ties-reparent_from root chan me (length ps) 0 ps j ∙ elim (Bool-cases (ltb j (length ps))) [
      | inl inside ↦ ground arith
      | inr past ↦ rw (past_table root me ps j (ground arith)) (ground arith)
    ]

pub ties-reparented :
    (root chan me : ℕ) (s : Sys) (j : ℕ)
    → s.initproc ≡ some root
    → ties (reparent_from s.initproc chan me (length s.procs) 0 s.procs) j
      ≡ adopt root me (ties s.procs j)
ties-reparented root chan me s j r =
    subst
      (λ o.
        ties (reparent_from o chan me (length s.procs) 0 s.procs) j
        ≡ adopt root me (ties s.procs j))
      (sym r) (ties-reparent root chan me s.procs j)

pub not_own :
    (me q root : ℕ) → q ≢ me → (if is_proc (some q) me then some root else some q) ≡ some q
not_own me q root ne = ground arith

pub not_me : (me q : ℕ) → q ≢ me → is_proc (some me) q ≡ false
not_me me q ne = ground arith
