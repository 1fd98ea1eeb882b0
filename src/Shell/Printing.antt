-- ===== src/Shell/Printing.antt =====
-- The printing of commands, and what the parser of user/sh.c makes of the parts of a printed one.
use fast_ipc.Base.{
  ℕ, zero, suc, ◌+◌, ◌<◌, ◌≤◌, ◌≡◌, ◌⊎◌, refl, sym, ap, ◌∙◌, subst, arith, Bool, true, false, ◌&&◌,
  ◌==◌, if◌then◌else◌, List, [], ◌∷◌, ◌++◌, leb, length, length-append, ok, ◌>>=◌,
}
use mathlib.Core.List.{append_assoc, append-nil}
use fast_ipc.Shell.{
  Line, Cmd, exec, redir, pipe, list, back, max_args, has_char, symbols, skip_white, read_only,
  write_new, write_on, token_at, gettoken, starts_with, peek, Parsed, redirs_from, parseredirs,
  add_arg, args_from, parseexec,
}
use fast_ipc.Shell.Words.{
  is_name, is_plain, is_stop, skip_white-plain, is_stop-plain, is_stop-starts_with, peek-plain,
  gettoken-name, is_name-plain, is_name-starts_with, and_left, and_right,
}

-- Each word with a space behind it.

pub print_args : List Line → Line
print_args [] = []
print_args (w ∷ ws) = w ++ b' ' ∷ print_args ws

abbrev pub operator : (mode : ℕ) → Line
operator mode =
    if mode == read_only
    then b'<' ∷ []
    else if mode == write_new
    then b'>' ∷ []
    else b'>' ∷ b'>' ∷ []

-- Every command within another is put in parentheses.
unfoldable pub print : Cmd → Line
print (exec argv) = print_args argv
print (redir cmd file mode fd) = b'(' ∷ print cmd ++ b')' ∷ operator mode ++ file ++ b' ' ∷ []
print (pipe left right) = b'(' ∷ print left ++ b')' ∷ b'|' ∷ b'(' ∷ print right ++ b')' ∷ []
print (list left right) = b'(' ∷ print left ++ b')' ∷ b';' ∷ b'(' ∷ print right ++ b')' ∷ []
print (back cmd) = b'(' ∷ print cmd ++ b')' ∷ b'&' ∷ []

-- The three kinds of redirection.
abbrev pub IsMode : (mode fd : ℕ) → Type 0
IsMode mode fd =
    (mode ≡ read_only) × (fd ≡ 0) ⊎ ((mode ≡ write_new) × (fd ≡ 1) ⊎ (mode ≡ write_on) × (fd ≡ 1))

unfoldable pub all_names : List Line → Bool
all_names [] = true
all_names (w ∷ ws) = is_name w && all_names ws

-- Words of characters that are neither white space nor symbols, at most nine for a program.
unfoldable pub IsCmd : Cmd → Type 0
IsCmd (exec argv) = (all_names argv ≡ true) × (length argv < max_args)
IsCmd (redir cmd file mode fd) = IsCmd cmd × (is_name file ≡ true) × IsMode mode fd
IsCmd (pipe left right) = IsCmd left × IsCmd right
IsCmd (list left right) = IsCmd left × IsCmd right
IsCmd (back cmd) = IsCmd cmd

pub print_args-plain :
    (ws : List Line) (s : Line)
    → all_names ws ≡ true
    → is_plain s ≡ true
    → is_plain (print_args ws ++ s) ≡ true
unfolding print_args all_names
print_args-plain [] s e p = p
print_args-plain (w ∷ ws) s e p =
    subst (λ t. is_plain t ≡ true) (sym (append_assoc w (b' ' ∷ print_args ws) s))
      (is_name-plain w (b' ' ∷ print_args ws ++ s) (and_left (is_name w) (all_names ws) e))

-- No redirection begins here.
pub redirs_from-none :
    (fuel : ℕ) (cmd : Cmd) (s : Line)
    → is_plain s ≡ true
    → starts_with (b'<' ∷ b'>' ∷ []) s ≡ false
    → redirs_from (suc fuel) cmd s ≡ ok (cmd, s)
unfolding redirs_from
redirs_from-none fuel cmd s p e =
    let f : peek s (b'<' ∷ b'>' ∷ []) ≡ false = peek-plain s (b'<' ∷ b'>' ∷ []) p ∙ e in
    rw f (ap (λ t. ok (cmd, t)) (skip_white-plain s p))

pub parseredirs-none :
    (cmd : Cmd) (s : Line)
    → is_plain s ≡ true
    → starts_with (b'<' ∷ b'>' ∷ []) s ≡ false
    → parseredirs cmd s ≡ ok (cmd, s)
unfolding parseredirs
parseredirs-none cmd s p e = redirs_from-none (length s) cmd s p e

abbrev IsSymbols : Line → Type 0
IsSymbols toks = (d : ℕ) → has_char toks d ≡ true → has_char symbols d ≡ true

-- Neither a word nor a stop begins with one of `toks`.
print_args-starts_with :
    (toks : Line) (ws : List Line) (s : Line)
    → IsSymbols toks
    → has_char toks b')' ≡ false
    → all_names ws ≡ true
    → is_stop s ≡ true
    → starts_with toks (print_args ws ++ s) ≡ false
unfolding print_args all_names
print_args-starts_with toks [] s sub f e p = is_stop-starts_with toks s f p
print_args-starts_with toks (w ∷ ws) s sub f e p =
    subst (λ t. starts_with toks t ≡ false) (sym (append_assoc w (b' ' ∷ print_args ws) s))
      (is_name-starts_with toks w (b' ' ∷ print_args ws ++ s) sub
        (and_left (is_name w) (all_names ws) e))

redirect-IsSymbols : IsSymbols (b'<' ∷ b'>' ∷ [])
redirect-IsSymbols d e = ground arith

paren-IsSymbols : IsSymbols (b'(' ∷ [])
paren-IsSymbols d e = ground arith

stop-IsSymbols : IsSymbols (b'|' ∷ b')' ∷ b'&' ∷ b';' ∷ [])
stop-IsSymbols d e = ground arith

-- One argument is read.
args_from-name :
    (fuel argc : ℕ) (before : List Line) (w s : Line)
    → is_name w ≡ true
    → is_plain s ≡ true
    → starts_with (b'<' ∷ b'>' ∷ []) s ≡ false
    → suc argc < max_args
    → args_from (suc fuel) argc (exec before) (w ++ b' ' ∷ s)
      ≡ args_from fuel (suc argc) (exec (before ++ w ∷ [])) s
unfolding args_from add_arg
args_from-name fuel argc before w s e p q few =
    let t = w ++ b' ' ∷ s in
    let on : peek t (b'|' ∷ b')' ∷ b'&' ∷ b';' ∷ []) ≡ false =
      peek-plain t (b'|' ∷ b')' ∷ b'&' ∷ b';' ∷ []) (is_name-plain w (b' ' ∷ s) e)
      ∙ is_name-starts_with (b'|' ∷ b')' ∷ b'&' ∷ b';' ∷ []) w (b' ' ∷ s) stop-IsSymbols e in
    let room : leb max_args (suc argc) ≡ false = ground arith in
    rw (on, gettoken-name w s e p, room)
      (ap (λ r. r >>= λ r. args_from fuel (suc argc) r.0 r.1)
        (parseredirs-none (exec (before ++ w ∷ [])) s p q))

args_from-stop :
    (fuel argc : ℕ) (cmd : Cmd) (s : Line)
    → is_stop s ≡ true
    → args_from (suc fuel) argc cmd s ≡ ok (cmd, s)
unfolding args_from skip_white starts_with gettoken token_at
args_from-stop fuel argc cmd [] e = refl
args_from-stop fuel argc cmd (c ∷ s) e = let f : c ≡ b')' = ground arith in rw f refl

args_from-args :
    (fuel argc : ℕ) (before ws : List Line) (s : Line)
    → all_names ws ≡ true
    → is_stop s ≡ true
    → argc + length ws < max_args
    → length ws < fuel
    → args_from fuel argc (exec before) (print_args ws ++ s) ≡ ok (exec (before ++ ws), s)
unfolding print_args all_names
args_from-args zero argc before ws s e p few lt = absurd (omega arith)
args_from-args (suc fuel) argc before [] s e p few lt =
    args_from-stop fuel argc (exec before) s p ∙ ap (λ b. ok (exec b, s)) (sym (append-nil before))
args_from-args (suc fuel) argc before (w ∷ ws) s e p few lt =
    let a = and_left (is_name w) (all_names ws) e in
    let b = and_right (is_name w) (all_names ws) e in
    ap (args_from (suc fuel) argc (exec before)) (append_assoc w (b' ' ∷ print_args ws) s)
    ∙ args_from-name fuel argc before w (print_args ws ++ s) a
        (print_args-plain ws s b (is_stop-plain s p))
        (print_args-starts_with (b'<' ∷ b'>' ∷ []) ws s redirect-IsSymbols refl b p) (omega arith)
    ∙ args_from-args fuel (suc argc) (before ++ w ∷ []) ws s b p (omega arith) (omega arith)
    ∙ ap (λ v. ok (exec v, s)) (append_assoc before (w ∷ []) ws)

length-print_args : (ws : List Line) → length ws ≤ length (print_args ws)
unfolding print_args
length-print_args [] = omega arith
length-print_args (w ∷ ws) =
    omega (arith, length-append w (b' ' ∷ print_args ws), length-print_args ws)

-- A program and its arguments, up to a stop.
pub parseexec-exec :
    (line : Line → Parsed) (argv : List Line) (s : Line)
    → all_names argv ≡ true
    → length argv < max_args
    → is_stop s ≡ true
    → parseexec line (print_args argv ++ s) ≡ ok (exec argv, s)
unfolding parseexec
parseexec-exec line argv s e few p =
    let t = print_args argv ++ s in
    let plain : is_plain t ≡ true = print_args-plain argv s e (is_stop-plain s p) in
    let f : peek t (b'(' ∷ []) ≡ false =
      peek-plain t (b'(' ∷ []) plain
      ∙ print_args-starts_with (b'(' ∷ []) argv s paren-IsSymbols refl e p in
    rw f (
      ap (λ r. r >>= λ r. args_from (suc (length r.1)) 0 r.0 r.1)
        (parseredirs-none (exec []) t plain
          (print_args-starts_with (b'<' ∷ b'>' ∷ []) argv s redirect-IsSymbols refl e p))
      ∙ args_from-args (suc (length t)) 0 [] argv s e p (omega arith)
          (omega (arith, length-append (print_args argv) s, length-print_args argv)))
