-- ===== src/Proc/Family.antt =====
-- Parents and children in the table of processes of kernel/proc.c, and their pids: what is always
-- true of them, on a table that keeps of each process only these.
pub mod Updates
pub mod Making
pub mod Endings
pub mod Owns
pub mod Forks
pub mod Adopts
pub mod Exits
pub mod Waits
pub mod Boots
pub mod Steps
pub mod Reports
use fast_ipc.Base.{
  ℕ, ◌+◌, ◌<◌, ◌≤◌, ◌≡◌, ◌≢◌, refl, sym, ap, ◌∙◌, arith, Bool, true, false, ◌==◌, if◌then◌else◌,
  Option, none, some, List, inl, inr, Bool-cases,
}
use fast_ipc.Proc.{
  ProcState, Proc, unused, used, sleeping, runnable, running, zombie, proc_at, is_proc,
}

-- An entry is not in use, or has a process, or one that has exited.
pub data Stage : Type 0 where
  free live gone : Stage

abbrev pub stage : ProcState → Stage
stage st = elim st [ unused ↦ free | zombie ↦ gone | _ ↦ live ]

-- Stage, parent and pid.
abbrev pub Tie : Type 0
Tie = Stage × Option ℕ × ℕ

abbrev pub tie : Proc → Tie
tie p = (stage p.state, p.parent, p.pid)

abbrev pub ties : List Proc → ℕ → Tie
ties ps i = tie (proc_at ps i)

-- `root` has not exited, the parent of every other process in use has not exited, the pids in use
-- are positive, differ from each other and were given out, and that of an entry not in use is 0.
pub record IsFamily (root nextpid : ℕ) (t : ℕ → Tie) : Type 0 where
  pub root_lives : (t root).0 ≡ live
  pub parent_lives :
      (i : ℕ) → (t i).0 ≢ free → i ≢ root → (q : ℕ) × ((t i).1 ≡ some q) × ((t q).0 ≡ live)
  pub pid_given : (i : ℕ) → (t i).0 ≢ free → (0 < (t i).2) × ((t i).2 < nextpid)
  pub free_pid : (i : ℕ) → (t i).0 ≡ free → (t i).2 ≡ 0
  pub pids_differ : (i j : ℕ) → (t i).0 ≢ free → (t j).0 ≢ free → (t i).2 ≡ (t j).2 → i ≡ j

abbrev pub update : (ℕ → Tie) → (i : ℕ) → Tie → ℕ → Tie
update t i x j = if j == i then x else t j

-- `fork` by `me`, `exit` by `me` and the end of `wait` for the child at `i`.
abbrev pub forked : (ℕ → Tie) → (me i pid : ℕ) → ℕ → Tie
forked t me i pid = update t i (live, some me, pid)

abbrev pub exited : (ℕ → Tie) → (root me : ℕ) → ℕ → Tie
exited t root me j =
    (if j == me then gone else (t j).0, if is_proc (t j).1 me then some root else (t j).1, (t j).2)

abbrev pub reaped : (ℕ → Tie) → (i : ℕ) → ℕ → Tie
reaped t i = update t i (free, none, 0)

same : (a b : ℕ) → (a == b) ≡ true → a ≡ b
same a b e = ground arith

not_same : (a b : ℕ) → (a == b) ≡ false → a ≢ b
not_same a b d e = ground arith

both : {a : Stage} → a ≡ live → a ≡ gone → ⊥
both e f = cc

live_used : {a : Stage} → a ≡ live → a ≢ free
live_used e f = cc

-- A child whose pid is the next one, in an entry not in use, whose parent has not exited.
pub IsFamily-forked :
    {root n : ℕ} {t : ℕ → Tie} (me i : ℕ)
    → IsFamily root n t
    → (t me).0 ≡ live
    → (t i).0 ≡ free
    → 0 < n
    → IsFamily root (n + 1) (forked t me i n)
IsFamily-forked {root} {n} {t} me i f lives unused_ pos =
    let still : (q : ℕ) → (t q).0 ≡ live → (forked t me i n q).0 ≡ live =
      λ q e. elim (Bool-cases (q == i)) [ inl s ↦ rw s refl | inr d ↦ rw d e ] in
    let given : (j : ℕ)
        → (forked t me i n j).0 ≢ free
        → (0 < (forked t me i n j).2) × ((forked t me i n j).2 < n + 1) =
      λ j u. elim (Bool-cases (j == i)) [
        | inl s ↦ rw s (pos, omega arith)
        | inr d ↦ let (a, b) = f.pid_given j (rw d at u) in rw d (a, omega arith)
      ] in
    record {
      root_lives = still root f.root_lives;
      parent_lives = λ j u ne. elim (Bool-cases (j == i)) [
        | inl s ↦ rw s (me, refl, still me lives)
        | inr d ↦ let (q, e, l) = f.parent_lives j (rw d at u) ne in rw d (q, e, still q l)
      ];
      pid_given = given;
      free_pid = λ j u. elim (Bool-cases (j == i)) [
        | inl s ↦ absurd (let h : live ≡ free = rw s at u in cc)
        | inr d ↦ rw d (f.free_pid j (rw d at u))
      ];
      pids_differ = λ j k u v e. elim (Bool-cases (j == i)) [
        | inl s ↦ elim (Bool-cases (k == i)) [
          | inl s' ↦ same j i s ∙ sym (same k i s')
          | inr d ↦
              let (a, b) = f.pid_given k (rw d at v) in
              absurd (let h : n ≡ (t k).2 = rw (s, d) at e in omega (arith, h, b))
        ]
        | inr d ↦ elim (Bool-cases (k == i)) [
          | inl s ↦
              let (a, b) = f.pid_given j (rw d at u) in
              absurd (let h : (t j).2 ≡ n = rw (s, d) at e in omega (arith, h, b))
          | inr d' ↦ f.pids_differ j k (rw d at u) (rw d' at v) (rw (d, d') at e)
        ]
      ];
    }

-- `me` exits, which is not the root; its children go to the root.
pub IsFamily-exited :
    {root n : ℕ} {t : ℕ → Tie} (me : ℕ)
    → IsFamily root n t
    → (t me).0 ≡ live
    → me ≢ root
    → IsFamily root n (exited t root me)
IsFamily-exited {root} {n} {t} me f lives other =
    let still : (q : ℕ) → q ≢ me → (t q).0 ≡ live → (exited t root me q).0 ≡ live = λ q ne e.
      elim (Bool-cases (q == me)) [ inl s ↦ absurd (ne (same q me s)) | inr d ↦ rw d e ] in
    let before : (j : ℕ) → (exited t root me j).0 ≢ free → (t j).0 ≢ free = λ j u.
      elim (Bool-cases (j == me)) [
        | inl s ↦ rw (same j me s) (live_used lives)
        | inr d ↦ rw d at u
      ] in
    record {
      root_lives = still root (λ e. other (sym e)) f.root_lives;
      parent_lives = λ j u ne.
          let (q, e, l) = f.parent_lives j (before j u) ne in
          elim (Bool-cases (q == me)) [
            | inl s ↦ (root, rw (e, s) refl, still root (λ e. other (sym e)) f.root_lives)
            | inr d ↦ (q, rw (e, d) refl, still q (λ h. not_same q me d h) l)
          ];
      pid_given = λ j u. f.pid_given j (before j u);
      free_pid = λ j u. elim (Bool-cases (j == me)) [
        | inl s ↦ absurd (let h : gone ≡ free = rw s at u in cc)
        | inr d ↦ f.free_pid j (rw d at u)
      ];
      pids_differ = λ j k u v e. f.pids_differ j k (before j u) (before k v) e;
    }

-- A process that has exited is taken off the table.
pub IsFamily-reaped :
    {root n : ℕ} {t : ℕ → Tie} (i : ℕ)
    → IsFamily root n t
    → (t i).0 ≡ gone
    → IsFamily root n (reaped t i)
IsFamily-reaped {root} {n} {t} i f left =
    let still : (q : ℕ) → (t q).0 ≡ live → (reaped t i q).0 ≡ live = λ q e.
      elim (Bool-cases (q == i)) [
        | inl s ↦ absurd (both (e) (rw (same q i s) left))
        | inr d ↦ rw d e
      ] in
    let differs : (j : ℕ) → (reaped t i j).0 ≢ free → (j == i) ≡ false =
      λ j u. elim (Bool-cases (j == i)) [ inl s ↦ absurd (u (rw s refl)) | inr d ↦ d ] in
    let before : (j : ℕ) → (reaped t i j).0 ≢ free → (t j).0 ≢ free =
      λ j u. rw (differs j u) at u in
    record {
      root_lives = still root f.root_lives;
      parent_lives = λ j u ne.
          let (q, e, l) = f.parent_lives j (before j u) ne in (q, rw (differs j u) e, still q l);
      free_pid = λ j u. elim (Bool-cases (j == i)) [
        | inl s ↦ rw s refl
        | inr d ↦ rw d (f.free_pid j (rw d at u))
      ];
      pid_given = λ j u. rw (differs j u) (f.pid_given j (before j u));
      pids_differ = λ j k u v e.
          f.pids_differ j k (before j u) (before k v) (rw (differs j u, differs k v) at e);
    }
