-- ===== src/Proc/Family/Endings.antt =====
-- The end of `fork`, `exit` and `wait` of kernel/proc.c, while other calls of `fork` are between
-- their parts.
use mathlib.Core.Path.{fun_ext}
use fast_ipc.Base.{
  ℕ, ◌<◌, ◌≡◌, ◌≢◌, inl, inr, refl, sym, ap, ◌∙◌, subst, arith, true, false, ◌==◌, none, some,
  Bool-cases, Option-cases,
}
use fast_ipc.Proc.{is_proc}
use fast_ipc.Proc.Family.{
  free, live, gone, Tie, IsFamily, IsFamily-exited, IsFamily-reaped, update, exited, reaped,
}
use fast_ipc.Proc.Family.Making.{
  Makers, IsIdle, IsGrowing, promise, promised, set_maker, same, live_free,
}

-- A process in use that becomes, or stays, one that has not exited.
IsFamily-revived :
    {root n : ℕ} {t : ℕ → Tie} (i : ℕ)
    → IsFamily root n t
    → (t i).0 ≢ free
    → IsFamily root n (update t i (live, (t i).1, (t i).2))
IsFamily-revived {root} {n} {t} i f used_ =
    let t' = update t i (live, (t i).1, (t i).2) in
    let before : (j : ℕ) → (t' j).0 ≢ free → (t j).0 ≢ free =
      λ j u. elim (Bool-cases (j == i)) [ inl s ↦ rw (same s) used_ | inr d ↦ rw d at u ] in
    let still : (j : ℕ) → (t j).0 ≡ live → (t' j).0 ≡ live =
      λ j e. elim (Bool-cases (j == i)) [ inl s ↦ rw s refl | inr d ↦ rw d e ] in
    let parent : (j : ℕ) → (t' j).1 ≡ (t j).1 =
      λ j. elim (Bool-cases (j == i)) [ inl s ↦ rw (s, same s) refl | inr d ↦ rw d refl ] in
    let pid : (j : ℕ) → (t' j).2 ≡ (t j).2 =
      λ j. elim (Bool-cases (j == i)) [ inl s ↦ rw (s, same s) refl | inr d ↦ rw d refl ] in
    record {
      root_lives = still root f.root_lives;
      parent_lives = λ j u ne.
          let (q, e, l) = f.parent_lives j (before j u) ne in (q, parent j ∙ e, still q l);
      pid_given = λ j u. subst (λ p. (0 < p) × (p < n)) (sym (pid j)) (f.pid_given j (before j u));
      free_pid = λ j u. elim (Bool-cases (j == i)) [
        | inl s ↦ absurd (live_free (rw s at u))
        | inr d ↦ pid j ∙ f.free_pid j (rw d at u)
      ];
      pids_differ =
          λ j k u v e. f.pids_differ j k (before j u) (before k v) (sym (pid j) ∙ e ∙ pid k);
    }

-- `fork` makes the child runnable, whose parent it has set.
pub IsGrowing-ready :
    {m : Makers} {root n : ℕ} {t : ℕ → Tie} (me i : ℕ)
    → IsGrowing m root n t
    → m i ≡ some me
    → (t i).1 ≡ some me
    → IsGrowing (set_maker m i none) root n (update t i (live, (t i).1, (t i).2))
IsGrowing-ready {m} {root} {n} {t} me i g mine linked =
    let t' = update t i (live, (t i).1, (t i).2) in
    let m' = set_maker m i none in
    let kept : promise (m i) (t i).1 ≡ (t i).1 = ap (λ o. promise o (t i).1) mine ∙ sym linked in
    let shape : promised m' t' ≡ update (promised m t) i (live, promise (m i) (t i).1, (t i).2) =
      fun_ext λ j. elim (Bool-cases (j == i)) [ inl s ↦ rw (s, kept) refl | inr d ↦ rw d refl ] in
    let (used_, _, _) = g.making i me mine in
    record {
      family = subst (λ u. IsFamily root n u) (sym shape) (IsFamily-revived i g.family used_);
      no_parent = λ j u. elim (Bool-cases (j == i)) [
        | inl s ↦ absurd (live_free (rw s at u))
        | inr d ↦ rw d (g.no_parent j (rw d at u))
      ];
      making = λ j q e. elim (Bool-cases (j == i)) [
        | inl s ↦ absurd (let h : none ≡ some q = rw s at e in cc)
        | inr d ↦ rw d (g.making j q (rw d at e))
      ];
    }

-- A parent other than `me` stays.
not_me : {q me : ℕ} → q ≢ me → is_proc (some q) me ≡ false
not_me e = ground arith

-- `exit` by a process that is not in `fork`.
pub IsGrowing-exited :
    {m : Makers} {root n : ℕ} {t : ℕ → Tie} (me : ℕ)
    → IsGrowing m root n t
    → IsIdle m me
    → (t me).0 ≡ live
    → me ≢ root
    → IsGrowing m root n (exited t root me)
IsGrowing-exited {m} {root} {n} {t} me g idle lives other =
    let away : (j q : ℕ) → m j ≡ some q → is_proc (some q) me ≡ false =
      λ j q e. not_me (λ h. idle j (e ∙ ap some h)) in
    let shape : promised m (exited t root me) ≡ exited (promised m t) root me =
      fun_ext λ j. elim (Option-cases (m j)) [
        | inl e ↦ rw e refl
        | inr (q, e) ↦ rw (e, away j q e) refl
      ] in
    let before : (j : ℕ) → (exited t root me j).0 ≡ free → (t j).0 ≡ free = λ j u.
      elim (Bool-cases (j == me)) [
        | inl s ↦ absurd (let h : gone ≡ free = rw s at u in cc)
        | inr d ↦ rw d at u
      ] in
    record {
      family = subst (λ u. IsFamily root n u) (sym shape) (IsFamily-exited me g.family lives other);
      no_parent = λ j u. rw (g.no_parent j (before j u)) refl;
      making = λ j q e.
          let (used_, apart, parent) = g.making j q e in
          (
            (λ u. used_ (before j u)),
            apart,
            elim parent [ inl h ↦ inl (rw h refl) | inr h ↦ inr (rw (h, away j q e) refl) ],
          );
    }

-- The end of `wait`, by a process that is not in `fork`, for its child at `i`.
pub IsGrowing-reaped :
    {m : Makers} {root n : ℕ} {t : ℕ → Tie} (me i : ℕ)
    → IsGrowing m root n t
    → IsIdle m me
    → (t i).0 ≡ gone
    → is_proc (t i).1 me ≡ true
    → IsGrowing m root n (reaped t i)
IsGrowing-reaped {m} {root} {n} {t} me i g idle left child =
    let unmade : m i ≡ none = elim (Option-cases (m i)) [
      | inl e ↦ e
      | inr (q, e) ↦ elim (g.making i q e).2 [
        | inl h ↦ absurd (let x : false ≡ true = rw h at child in cc)
        | inr h ↦ let x : (q == me) ≡ true = rw h at child in absurd (idle i (e ∙ ap some (same x)))
      ]
    ] in
    let shape : promised m (reaped t i) ≡ reaped (promised m t) i =
      fun_ext λ j. elim (Bool-cases (j == i)) [
        | inl s ↦ rw (s, same s, unmade) refl
        | inr d ↦ rw d refl
      ] in
    record {
      family = subst (λ u. IsFamily root n u) (sym shape) (IsFamily-reaped i g.family left);
      no_parent = λ j u. elim (Bool-cases (j == i)) [
        | inl s ↦ rw s refl
        | inr d ↦ rw d (g.no_parent j (rw d at u))
      ];
      making = λ j q e. elim (Bool-cases (j == i)) [
        | inl s ↦ absurd (let h : none ≡ some q = sym unmade ∙ ap m (sym (same s)) ∙ e in cc)
        | inr d ↦ rw d (g.making j q e)
      ];
    }
