-- ===== src/Proc/Family/Making.antt =====
-- Parents and children while calls of `fork` of kernel/proc.c are between their parts: a child is in
-- the table before its parent is set.
use mathlib.Core.Path.{fun_ext}
use fast_ipc.Base.{
  ℕ, ◌+◌, ◌<◌, ◌≡◌, ◌≢◌, ◌⊎◌, inl, inr, refl, sym, ap, ◌∙◌, subst, arith, true, ◌==◌, Option, none,
  some, if◌then◌else◌, Bool-cases,
}
use fast_ipc.Proc.Family.{free, live, Tie, IsFamily, IsFamily-forked, update, forked}

-- For each entry, the process whose `fork` is making the child there.
abbrev pub Makers : Type 0
Makers = ℕ → Option ℕ

abbrev pub no_makers : Makers
no_makers i = none

abbrev pub set_maker : Makers → (i : ℕ) → Option ℕ → Makers
set_maker m i o j = if j == i then o else m j

-- `me` is not in `fork`.
abbrev pub IsIdle : Makers → (me : ℕ) → Type 0
IsIdle m me = (i : ℕ) → m i ≢ some me

-- The parent that an entry has once the `fork` that makes it has set it.
abbrev pub promise : Option ℕ → Option ℕ → Option ℕ
promise (some q) parent = some q
promise none parent = parent

abbrev pub promised : Makers → (ℕ → Tie) → ℕ → Tie
promised m t i = ((t i).0, promise (m i) (t i).1, (t i).2)

-- An entry that a `fork` is making is in use, is not the first process, and has no parent or the
-- process that calls `fork`.
abbrev pub IsMaking : Makers → (root : ℕ) → (ℕ → Tie) → Type 0
IsMaking m root t =
    (i q : ℕ)
    → m i ≡ some q
    → ((t i).0 ≢ free) × (i ≢ root) × (((t i).1 ≡ none) ⊎ ((t i).1 ≡ some q))

-- The family as it is once every `fork` has set the parent of its child is sound, entries not in use
-- have no parent, and those in the making are in use.
pub record IsGrowing (m : Makers) (root nextpid : ℕ) (t : ℕ → Tie) : Type 0 where
  pub family : IsFamily root nextpid (promised m t)
  pub no_parent : (i : ℕ) → (t i).0 ≡ free → (t i).1 ≡ none
  pub making : IsMaking m root t

pub same : {a b : ℕ} → (a == b) ≡ true → a ≡ b
same e = ground arith

pub live_free : live ≡ free → ⊥
live_free e = cc

-- `fork` takes a free entry.
pub IsGrowing-made :
    {m : Makers} {root n : ℕ} {t : ℕ → Tie} (me i : ℕ)
    → IsGrowing m root n t
    → (t me).0 ≡ live
    → (t i).0 ≡ free
    → 0 < n
    → IsGrowing (set_maker m i (some me)) root (n + 1) (update t i (live, (t i).1, n))
IsGrowing-made {m} {root} {n} {t} me i g lives unused_ pos =
    let t' = update t i (live, (t i).1, n) in
    let m' = set_maker m i (some me) in
    let shape : promised m' t' ≡ forked (promised m t) me i n =
      fun_ext λ j. elim (Bool-cases (j == i)) [ inl s ↦ rw s refl | inr d ↦ rw d refl ] in
    record {
      family =
          subst (λ u. IsFamily root (n + 1) u) (sym shape)
            (IsFamily-forked me i g.family lives unused_ pos);
      no_parent = λ j u. elim (Bool-cases (j == i)) [
        | inl s ↦ absurd (live_free (rw s at u))
        | inr d ↦ rw d (g.no_parent j (rw d at u))
      ];
      making = λ j q e. elim (Bool-cases (j == i)) [
        | inl s ↦ rw s (
          live_free,
          (λ r. live_free (sym g.family.root_lives ∙ ap (λ k. (t k).0) (sym r ∙ same s) ∙ unused_)),
          inl (g.no_parent i unused_),
        )
        | inr d ↦ rw d (g.making j q (rw d at e))
      ];
    }

-- It sets the parent.
pub IsGrowing-linked :
    {m : Makers} {root n : ℕ} {t : ℕ → Tie} (me i : ℕ)
    → IsGrowing m root n t
    → m i ≡ some me
    → IsGrowing m root n (update t i ((t i).0, some me, (t i).2))
IsGrowing-linked {m} {root} {n} {t} me i g mine =
    let t' = update t i ((t i).0, some me, (t i).2) in
    let shape : promised m t' ≡ promised m t =
      fun_ext
        λ j. elim (Bool-cases (j == i)) [ inl s ↦ rw (s, same s, mine) refl | inr d ↦ rw d refl ] in
    let (used_, other, _) = g.making i me mine in
    record {
      family = subst (λ u. IsFamily root n u) (sym shape) g.family;
      no_parent = λ j u. elim (Bool-cases (j == i)) [
        | inl s ↦ absurd (used_ (rw s at u))
        | inr d ↦ rw d (g.no_parent j (rw d at u))
      ];
      making = λ j q e. elim (Bool-cases (j == i)) [
        | inl s ↦
            let h : some me ≡ some q = sym mine ∙ ap m (sym (same s)) ∙ e in
            rw s (used_, (λ r. other (sym (same s) ∙ r)), inr h)
        | inr d ↦ rw d (g.making j q e)
      ];
    }
