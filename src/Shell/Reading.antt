-- ===== src/Shell/Reading.antt =====
-- The parser of user/sh.c reads back what is printed.
use fast_ipc.Base.{
  ℕ, zero, suc, ◌<◌, ◌≡◌, inl, inr, refl, sym, ap, ◌∙◌, subst, arith, true, false, [], ◌∷◌, ◌++◌,
  length, length-append, ok,
}
use mathlib.Core.List.{append_assoc, append-nil}
use fast_ipc.Shell.{
  Line, Cmd, exec, redir, pipe, list, back, skip_white, starts_with, parseexec, parsepipe,
  parseline, parsecmd,
}
use fast_ipc.Shell.Words.{is_name, is_plain, is_stop, is_stop-plain, is_stop-starts_with}
use fast_ipc.Shell.Printing.{print, operator, IsMode, IsCmd, parseredirs-none, parseexec-exec}
use fast_ipc.Shell.Parts.{
  parseexec-block, parseredirs-redir, pipe_from-pipe, parseline-pipe, parseline-exec,
  parseline-back, parseline-list, print-plain,
}

-- The text of a printed command with what comes after it.

two_parts :
    (a b s : Line) (x : ℕ)
    → (a ++ b')' ∷ x ∷ b'(' ∷ b ++ b')' ∷ []) ++ s ≡ a ++ b')' ∷ x ∷ b'(' ∷ (b ++ b')' ∷ s)
two_parts a b s x =
    append_assoc (a ++ b')' ∷ x ∷ b'(' ∷ b) (b')' ∷ []) s
    ∙ append_assoc a (b')' ∷ x ∷ b'(' ∷ b) (b')' ∷ s)

redir_parts :
    (a o f s : Line) → (a ++ b')' ∷ o ++ f ++ b' ' ∷ []) ++ s ≡ a ++ b')' ∷ (o ++ (f ++ b' ' ∷ s))
redir_parts a o f s =
    append_assoc (a ++ b')' ∷ o ++ f) (b' ' ∷ []) s
    ∙ append_assoc (a ++ b')' ∷ o) f (b' ' ∷ s)
    ∙ append_assoc a (b')' ∷ o) (f ++ b' ' ∷ s)

-- What a printed command is read as, with enough rounds.
abbrev Reads : Cmd → Type 0
Reads c =
    (fuel : ℕ) (s : Line)
    → is_stop s ≡ true
    → length (print c ++ s) < fuel
    → parseline fuel (print c ++ s) ≡ ok (c, s)

-- A printed command in parentheses, before a text that is no redirection.
block-read :
    (fuel : ℕ) (c : Cmd) (s : Line)
    → IsCmd c
    → Reads c
    → is_plain s ≡ true
    → starts_with (b'<' ∷ b'>' ∷ []) s ≡ false
    → length (print c ++ b')' ∷ s) < fuel
    → parseexec (parseline fuel) (b'(' ∷ print c ++ b')' ∷ s) ≡ ok (c, s)
block-read fuel c s v h p n lt =
    parseexec-block (parseline fuel) c (print c ++ b')' ∷ s) s (print-plain c (b')' ∷ s) v refl) p
      (h fuel (b')' ∷ s) refl lt)
    ∙ parseredirs-none c s p n

stop_plain : (s : Line) → is_stop s ≡ true → starts_with (b'<' ∷ b'>' ∷ []) s ≡ false
stop_plain s p = is_stop-starts_with (b'<' ∷ b'>' ∷ []) s refl p

-- Two printed commands in parentheses with a character between them.
abbrev both_print : (x : ℕ) → (l r : Cmd) → Line → Line
both_print x l r s = b'(' ∷ print l ++ b')' ∷ x ∷ b'(' ∷ (print r ++ b')' ∷ s)

length-both :
    (x : ℕ) (l r : Cmd) (s : Line)
    → (length (print l ++ b')' ∷ x ∷ b'(' ∷ (print r ++ b')' ∷ s)) < length (both_print x l r s))
      × (suc (length (print r ++ b')' ∷ s)) < length (both_print x l r s))
length-both x l r s =
    (omega arith, omega (arith, length-append (print l) (b')' ∷ x ∷ b'(' ∷ (print r ++ b')' ∷ s))))

pipe-read :
    (fuel : ℕ) (l r : Cmd) (s : Line)
    → IsCmd l
    → IsCmd r
    → Reads l
    → Reads r
    → is_stop s ≡ true
    → length (both_print b'|' l r s) < suc fuel
    → parseline (suc fuel) (both_print b'|' l r s) ≡ ok (pipe l r, s)
unfolding parsepipe starts_with
pipe-read fuel l r s v w h k p lt =
    let (a, b) = length-both b'|' l r s in
    let u = b'(' ∷ print r ++ b')' ∷ s in
    parseline-pipe fuel (pipe l r) (both_print b'|' l r s) s
      (pipe_from-pipe (parseline fuel) _ l r (both_print b'|' l r s) u s
        (block-read fuel l (b'|' ∷ u) v h refl refl (omega (arith, a)))
        (block-read fuel r s w k (is_stop-plain s p) (stop_plain s p) (omega (arith, b))) refl p)
      p

list-read :
    (fuel : ℕ) (l r : Cmd) (s : Line)
    → IsCmd l
    → IsCmd r
    → Reads l
    → Reads r
    → is_stop s ≡ true
    → length (both_print b';' l r s) < suc (suc fuel)
    → parseline (suc (suc fuel)) (both_print b';' l r s) ≡ ok (list l r, s)
unfolding starts_with
list-read fuel l r s v w h k p lt =
    let (a, b) = length-both b';' l r s in
    let u = b'(' ∷ print r ++ b')' ∷ s in
    parseline-list (suc fuel) l r (both_print b';' l r s) u s
      (block-read (suc fuel) l (b';' ∷ u) v h refl refl (omega (arith, a)))
      (parseline-exec fuel r u s
        (block-read fuel r s w k (is_stop-plain s p) (stop_plain s p) (omega (arith, b))) p)
      refl

operator-plain : (mode fd : ℕ) (s : Line) → IsMode mode fd → is_plain (operator mode ++ s) ≡ true
operator-plain mode fd s m = elim m [
  | inl (a, b) ↦ rw a refl
  | inr (inl (a, b)) ↦ rw a refl
  | inr (inr (a, b)) ↦ rw a refl
]

redir-read :
    (fuel : ℕ) (c : Cmd) (file s : Line) (mode fd : ℕ)
    → IsCmd c
    → is_name file ≡ true
    → IsMode mode fd
    → Reads c
    → is_stop s ≡ true
    → length (b'(' ∷ print c ++ b')' ∷ (operator mode ++ (file ++ b' ' ∷ s))) < suc fuel
    → parseline (suc fuel) (b'(' ∷ print c ++ b')' ∷ (operator mode ++ (file ++ b' ' ∷ s)))
      ≡ ok (redir c file mode fd, s)
redir-read fuel c file s mode fd v n m h p lt =
    let u = operator mode ++ (file ++ b' ' ∷ s) in
    parseline-exec fuel (redir c file mode fd) (b'(' ∷ print c ++ b')' ∷ u) s
      (parseexec-block (parseline fuel) c (print c ++ b')' ∷ u) u (print-plain c (b')' ∷ u) v refl)
          (operator-plain mode fd (file ++ b' ' ∷ s) m) (h fuel (b')' ∷ u) refl (omega arith))
        ∙ parseredirs-redir c file s mode fd n m p)
      p

back-read :
    (fuel : ℕ) (c : Cmd) (s : Line)
    → IsCmd c
    → Reads c
    → is_stop s ≡ true
    → length (b'(' ∷ print c ++ b')' ∷ b'&' ∷ s) < suc fuel
    → parseline (suc fuel) (b'(' ∷ print c ++ b')' ∷ b'&' ∷ s) ≡ ok (back c, s)
unfolding starts_with
back-read fuel c s v h p lt =
    parseline-back fuel c (b'(' ∷ print c ++ b')' ∷ b'&' ∷ s) s
      (block-read fuel c (b'&' ∷ s) v h refl refl (omega arith)) p

-- With enough rounds a printed command is read as itself, up to a stop.
parseline-print : (c : Cmd) → IsCmd c → Reads c
unfolding print IsCmd
parseline-print c v zero s p lt = absurd (omega arith)
parseline-print (exec argv) v (suc fuel) s p lt =
    parseline-exec fuel (exec argv) (print (exec argv) ++ s) s
      (parseexec-exec (parseline fuel) argv s v.0 v.1 p) p
parseline-print (redir c file mode fd) v (suc fuel) s p lt =
    let e = ap (λ t. b'(' ∷ t) (redir_parts (print c) (operator mode) file s) in
    ap (parseline (suc fuel)) e
    ∙ redir-read fuel c file s mode fd v.0 v.1 v.2 (parseline-print c v.0) p
        (subst (λ t. length t < suc fuel) e lt)
parseline-print (pipe l r) v (suc fuel) s p lt =
    let e = ap (λ t. b'(' ∷ t) (two_parts (print l) (print r) s b'|') in
    ap (parseline (suc fuel)) e
    ∙ pipe-read fuel l r s v.0 v.1 (parseline-print l v.0) (parseline-print r v.1) p
        (subst (λ t. length t < suc fuel) e lt)
parseline-print (list l r) v (suc zero) s p lt = absurd (omega arith)
parseline-print (list l r) v (suc (suc fuel)) s p lt =
    let e = ap (λ t. b'(' ∷ t) (two_parts (print l) (print r) s b';') in
    ap (parseline (suc (suc fuel))) e
    ∙ list-read fuel l r s v.0 v.1 (parseline-print l v.0) (parseline-print r v.1) p
        (subst (λ t. length t < suc (suc fuel)) e lt)
parseline-print (back c) v (suc fuel) s p lt =
    let e = ap (λ t. b'(' ∷ t) (append_assoc (print c) (b')' ∷ b'&' ∷ []) s) in
    ap (parseline (suc fuel)) e
    ∙ back-read fuel c s v (parseline-print c v) p (subst (λ t. length t < suc fuel) e lt)

-- Every command whose words are free of white space and symbols, with at most nine to a program, is
-- what the parser reads from the command printed with parentheses.
pub parsecmd-print : (c : Cmd) → IsCmd c → parsecmd (print c) ≡ ok c
unfolding parsecmd skip_white
parsecmd-print c v =
    let nothing_after = append-nil (print c) in
    let read : parseline (suc (length (print c))) (print c) ≡ ok (c, []) =
      ap (parseline (suc (length (print c)))) (sym nothing_after)
      ∙ parseline-print c v (suc (length (print c))) [] refl
          (subst (λ t. length t < suc (length (print c))) (sym nothing_after) (omega arith)) in
    rw read refl
