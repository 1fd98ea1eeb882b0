-- ===== src/Sysfile/Descriptors.antt =====
-- The descriptors of a process: `sys_dup`, `sys_close` and `fdalloc` of kernel/sysfile.c.
use fast_ipc.Base.{
  ℕ, zero, suc, ◌+◌, ◌-◌, ◌<◌, ◌≤◌, ◌^◌, ◌≡◌, ◌≢◌, refl, sym, ap, ◌∙◌, arith, true, false, not, ltb,
  ◌&&◌, List, [], ◌∷◌, Option, none, some, length, set, set-set, set-get_or, get_or,
  get_or-set_self, Outcome, ok, ◌>>=◌, >>=-eq-ok, to_int, is_negative,
}
use fast_ipc.File.{File, no_file, filedup, fileclose, is_unused, Release, nothing}
use fast_ipc.File.Counts.{in_table}
use fast_ipc.Sysfile.{fdalloc, argfd, dup, close}

-- What `fdalloc` from descriptor `k` on takes: the first that is free.

record IsTaken (f k d : ℕ) (ofile : List (Option ℕ)) : Type 0 where
  from : k ≤ d
  inside : d - k < length ofile
  was_free : get_or ofile (d - k) none ≡ none
  first : (j : ℕ) → j < d - k → get_or ofile j none ≢ none
  made : (fdalloc f k ofile).1 ≡ set ofile (d - k) (some f)

earlier :
    (g m n : ℕ) (ofile : List (Option ℕ))
    → n ≡ suc m
    → ((j : ℕ) → j < m → get_or ofile j none ≢ none)
    → (j : ℕ) → j < n
    → get_or (some g ∷ ofile) j none ≢ none
earlier g m n ofile e h zero lt = λ q. cc
earlier g m n ofile e h (suc j) lt = h j (omega (arith, e))

fdalloc-IsTaken :
    (f k d : ℕ) (ofile : List (Option ℕ)) → (fdalloc f k ofile).0 ≡ some d → IsTaken f k d ofile
unfolding fdalloc
fdalloc-IsTaken f k d [] e = absurd (cc)
fdalloc-IsTaken f k d (none ∷ ofile) e =
    let h : k ≡ d = cc in
    let z : d - k ≡ 0 = omega (arith, h) in
    record {
      from = omega (arith, h);
      inside = omega (arith, z);
      was_free = rw z refl;
      first = λ j lt. absurd (omega (arith, z, lt));
      made = rw z refl;
    }
fdalloc-IsTaken f k d (some g ∷ ofile) e =
    let v = fdalloc-IsTaken f (k + 1) d ofile e in
    let step : d - k ≡ suc (d - (k + 1)) = omega (arith, v.from) in
    record {
      from = omega (arith, v.from);
      inside = omega (arith, step, v.inside);
      was_free = rw step v.was_free;
      first = earlier g (d - (k + 1)) (d - k) ofile step v.first;
      made = rw step (ap (λ r. some g ∷ r) v.made);
    }

ok-eq {ℓ} : {X : Type ℓ} {run : Outcome X} {u v : X} → run ≡ ok u → run ≡ ok v → v ≡ u
ok-eq {u = u} {v = v} e f = let h : ok u ≡ ok v = sym e ∙ f in cc

dup-eq :
    {o o' : Option ℕ} {t t' : List (Option ℕ)} {l l' : List File}
    → ◌≡◌ {A = Outcome (Option ℕ × List (Option ℕ) × List File)} (ok (o, t, l)) (ok (o', t', l'))
    → (o ≡ o') × (t' ≡ t) × (l ≡ l')
dup-eq e = (cc, cc, cc)

abbrev counted : File → ℕ → File
counted p n = record p { ref = n }

filedup-counted :
    (fs : List File) (f : ℕ)
    → 0 < (get_or fs f no_file).ref
    → (get_or fs f no_file).ref < 2 ^ 31 - 1
    → filedup fs f ≡ ok (set fs f (counted (get_or fs f no_file) ((get_or fs f no_file).ref + 1)))
unfolding filedup
filedup-counted fs f pos few =
    let p = get_or fs f no_file in
    let used : is_unused p ≡ false = ground arith in
    let more : to_int (p.ref + 1) ≡ p.ref + 1 = ground arith in rw (used, more) refl

fileclose-counted :
    (fs : List File) (f : ℕ) (p : File)
    → get_or fs f no_file ≡ p
    → 1 < p.ref
    → p.ref < 2 ^ 31
    → fileclose fs f ≡ ok (nothing, set fs f (counted p (p.ref - 1)))
unfolding fileclose
fileclose-counted fs f p e pos few =
    let used : is_unused p ≡ false = ground arith in
    let less : to_int (p.ref + 2 ^ 32 - 1) ≡ p.ref - 1 = ground arith in
    let left : (not (is_negative (p.ref - 1)) && ltb 0 (p.ref - 1)) ≡ true = ground arith in
    rw (e, used, less, left) refl

-- A file that has a reference, duplicated and closed.
fileclose-filedup :
    (fs fs' : List File) (f : ℕ)
    → 0 < (get_or fs f no_file).ref
    → (get_or fs f no_file).ref < 2 ^ 31 - 1
    → filedup fs f ≡ ok fs'
    → fileclose fs' f ≡ ok (nothing, fs)
fileclose-filedup fs fs' f pos few e =
    let p = get_or fs f no_file in
    let q = counted p (p.ref + 1) in
    let is : fs' ≡ set fs f q = ok-eq (filedup-counted fs f pos few) e in
    let back : p.ref + 1 - 1 ≡ p.ref = omega arith in
    ap (λ l. fileclose l f) is
    ∙ fileclose-counted (set fs f q) f q (get_or-set_self fs f q no_file (in_table fs f pos))
        (omega arith) (omega arith)
    ∙ ap (λ l. ok (nothing, l))
        (set-set fs f q (counted q (q.ref - 1))
          ∙ ap (λ n. set fs f (counted p n)) back
          ∙ set-get_or fs f no_file)

abbrev Dup : Type 0
Dup = Outcome (Option ℕ × List (Option ℕ) × List File)

dup-found :
    (f fd' : ℕ) (t ofile' : List (Option ℕ)) (fs fs' : List File) (o : Option ℕ)
    → ◌≡◌ {A = Dup}
        (elim o [ none ↦ ok (none, t, fs) | some d ↦ filedup fs f >>= λ fs1. ok (some d, t, fs1) ])
        (ok (some fd', ofile', fs'))
    → (o ≡ some fd') × (ofile' ≡ t) × (filedup fs f ≡ ok fs')
dup-found f fd' t ofile' fs fs' none e = absurd (cc)
dup-found f fd' t ofile' fs fs' (some d) e =
    let (fs1, a, b) = >>=-eq-ok (filedup fs f) _ e in
    let (x, y, z) = dup-eq b in (x, y, a ∙ ap (λ l. ok l) z)

dup-parts :
    (fd fd' f : ℕ) (ofile ofile' : List (Option ℕ)) (fs fs' : List File)
    → argfd ofile fd ≡ some f
    → dup fd ofile fs ≡ ok (some fd', ofile', fs')
    → ((fdalloc f 0 ofile).0 ≡ some fd')
      × (ofile' ≡ (fdalloc f 0 ofile).1)
      × (filedup fs f ≡ ok fs')
unfolding dup
dup-parts fd fd' f ofile ofile' fs fs' at_f e =
    dup-found f fd' (fdalloc f 0 ofile).1 ofile' fs fs' (fdalloc f 0 ofile).0 (rw (at_f, dup) at e)

close-at :
    (fd f : ℕ) (ofile : List (Option ℕ)) (fs fs' : List File)
    → argfd ofile fd ≡ some f
    → fileclose fs f ≡ ok (nothing, fs')
    → close fd ofile fs ≡ ok (some nothing, set ofile fd none, fs')
unfolding close
close-at fd f ofile fs fs' at_f e =
    rw (at_f, close)
      (ap (λ (r : Outcome (Release × List File)). r >>= λ c. ok (some c.0, set ofile fd none, c.1))
        e)

-- Where `sys_dup` of a file returns a descriptor, it is the lowest that was free, and `sys_close` of it
-- releases nothing and leaves the descriptors and the files as they were before.
pub close-dup :
    (fd fd' f : ℕ) (ofile ofile' : List (Option ℕ)) (fs fs' : List File)
    → argfd ofile fd ≡ some f
    → 0 < (get_or fs f no_file).ref
    → (get_or fs f no_file).ref < 2 ^ 31 - 1
    → dup fd ofile fs ≡ ok (some fd', ofile', fs')
    → (argfd ofile fd' ≡ none)
      × ((j : ℕ) → j < fd' → argfd ofile j ≢ none)
      × (close fd' ofile' fs' ≡ ok (some nothing, ofile, fs))
close-dup fd fd' f ofile ofile' fs fs' at_f pos few e =
    let (a, b, d) = dup-parts fd fd' f ofile ofile' fs fs' at_f e in
    let v = fdalloc-IsTaken f 0 fd' ofile a in
    let z : fd' - 0 ≡ fd' = omega arith in
    let inside : fd' < length ofile = omega (arith, v.inside) in
    let idle : get_or ofile fd' none ≡ none = rw z at v.was_free in
    let is : ofile' ≡ set ofile fd' (some f) = b ∙ (rw z at v.made) in
    (
      idle,
      λ j lt. v.first j (omega arith),
      ap (λ o. close fd' o fs') is
          ∙ close-at fd' f (set ofile fd' (some f)) fs' fs
              (get_or-set_self ofile fd' (some f) none inside)
              (fileclose-filedup fs fs' f pos few d)
          ∙ ap (λ o. ok (some nothing, o, fs))
              (set-set ofile fd' (some f) none
                ∙ ap (λ o. set ofile fd' o) (sym idle)
                ∙ set-get_or ofile fd' none),
    )
