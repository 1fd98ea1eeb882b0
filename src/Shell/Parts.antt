-- ===== src/Shell/Parts.antt =====
-- What the functions of user/sh.c make of a text in parentheses, a redirection, a pipe, an `&` and a
-- `;`, given what they make of its parts.
use fast_ipc.Base.{
  ℕ, suc, ◌≡◌, inl, inr, refl, ap, ◌∙◌, true, false, not, if◌then◌else◌, [], ◌∷◌, ◌++◌, length, ok,
  panic, ◌>>=◌,
}
use fast_ipc.Shell.{
  Line, Cmd, exec, redir, pipe, list, back, skip_white, Token, append, word, symbol, token_at,
  gettoken, starts_with, peek, past, Parsed, redirected, redirs_from, parseredirs, parseblock,
  parseexec, pipe_from, parsepipe, backs_from, parseline,
}
use fast_ipc.Shell.Words.{
  is_name, is_plain, is_stop, skip_white-plain, is_stop-plain, is_stop-starts_with, peek-plain,
  gettoken-name, is_name-plain, after_greater-name,
}
use fast_ipc.Shell.Printing.{print, operator, IsMode, IsCmd, print_args-plain, redirs_from-none}

pub print-plain :
    (c : Cmd) (s : Line) → IsCmd c → is_plain s ≡ true → is_plain (print c ++ s) ≡ true
unfolding print IsCmd
print-plain (exec argv) s v p = print_args-plain argv s v.0 p
print-plain (redir cmd file mode fd) s v p = refl
print-plain (pipe left right) s v p = refl
print-plain (list left right) s v p = refl
print-plain (back cmd) s v p = refl

-- A text in parentheses, and what comes after it.
pub parseexec-block :
    (line : Line → Parsed) (c : Cmd) (u s : Line)
    → is_plain u ≡ true
    → is_plain s ≡ true
    → line u ≡ ok (c, b')' ∷ s)
    → parseexec line (b'(' ∷ u) ≡ parseredirs c s
unfolding parseexec parseblock gettoken token_at skip_white starts_with
parseexec-block line c u s p q e =
    ap (λ r. r >>= λ r. if not (peek r.1 (b')' ∷ [])) then panic else parseredirs r.0 (past r.1))
      (ap line (skip_white-plain u p) ∙ e)
    ∙ ap (parseredirs c) (skip_white-plain s q)

-- One redirection before a stop, with its operator read.
redirs_from-one :
    (fuel : ℕ) (cmd : Cmd) (t : Token) (x file s u : Line)
    → peek u (b'<' ∷ b'>' ∷ []) ≡ true
    → gettoken u ≡ (t, x, file ++ b' ' ∷ s)
    → is_name file ≡ true
    → is_stop s ≡ true
    → redirs_from (suc (suc fuel)) cmd u ≡ ok (redirected t cmd file, s)
unfolding redirs_from
redirs_from-one fuel cmd t x file s u e g n p =
    let first : (gettoken u).0 ≡ t = ap (λ (r : Token × Line × Line). r.0) g in
    let second : gettoken (past u) ≡ (word, file, s) =
      ap (λ (r : Token × Line × Line). gettoken r.2) g
      ∙ gettoken-name file s n (is_stop-plain s p) in
    rw (e, second, first)
      (redirs_from-none fuel (redirected t cmd file) s (is_stop-plain s p)
        (is_stop-starts_with (b'<' ∷ b'>' ∷ []) s refl p))

pub parseredirs-redir :
    (cmd : Cmd) (file s : Line) (mode fd : ℕ)
    → is_name file ≡ true
    → IsMode mode fd
    → is_stop s ≡ true
    → parseredirs cmd (operator mode ++ (file ++ b' ' ∷ s)) ≡ ok (redir cmd file mode fd, s)
unfolding parseredirs gettoken token_at skip_white starts_with
parseredirs-redir cmd file s mode fd n m p =
    let x = file ++ b' ' ∷ s in
    let plain : skip_white x ≡ x = skip_white-plain x (is_name-plain file (b' ' ∷ s) n) in
    elim m [
      | inl (a, b) ↦
          rw (a, b)
            (redirs_from-one (length x) cmd (symbol b'<') (b'<' ∷ []) file s (b'<' ∷ x) refl
              (ap (λ y. (symbol b'<', b'<' ∷ [], y)) plain) n p)
      | inr (inl (a, b)) ↦
          rw (a, b)
            (redirs_from-one (length x) cmd (symbol b'>') (b'>' ∷ []) file s (b'>' ∷ x) refl
              (ap (λ (r : Token × Line × Line). (r.0, r.1, skip_white r.2))
                  (after_greater-name file (b' ' ∷ s) n)
                ∙ ap (λ y. (symbol b'>', b'>' ∷ [], y)) plain)
              n p)
      | inr (inr (a, b)) ↦
          rw (a, b)
            (redirs_from-one (suc (length x)) cmd append (b'>' ∷ b'>' ∷ []) file s (b'>' ∷ b'>' ∷ x)
              refl (ap (λ y. (append, b'>' ∷ b'>' ∷ [], y)) plain) n p)
    ]

pub pipe_from-none :
    (line : Line → Parsed) (fuel : ℕ) (c : Cmd) (t s : Line)
    → parseexec line t ≡ ok (c, s)
    → is_plain s ≡ true
    → starts_with (b'|' ∷ []) s ≡ false
    → pipe_from line (suc fuel) t ≡ ok (c, s)
unfolding pipe_from
pipe_from-none line fuel c t s e p n =
    let f : peek s (b'|' ∷ []) ≡ false = peek-plain s (b'|' ∷ []) p ∙ n in
    rw e (rw f (ap (λ u. ok (c, u)) (skip_white-plain s p)))

pub pipe_from-pipe :
    (line : Line → Parsed) (fuel : ℕ) (l r : Cmd) (t u s : Line)
    → parseexec line t ≡ ok (l, b'|' ∷ u)
    → parseexec line u ≡ ok (r, s)
    → is_plain u ≡ true
    → is_stop s ≡ true
    → pipe_from line (suc (suc fuel)) t ≡ ok (pipe l r, s)
unfolding pipe_from gettoken token_at skip_white starts_with
pipe_from-pipe line fuel l r t u s e f p q = rw e (
    ap (λ v. pipe_from line (suc fuel) v >>= λ q. ok (pipe l q.0, q.1)) (skip_white-plain u p)
    ∙ ap (λ m. m >>= λ q. ok (pipe l q.0, q.1))
        (pipe_from-none line fuel r u s f (is_stop-plain s q)
          (is_stop-starts_with (b'|' ∷ []) s refl q)))

backs_from-none :
    (fuel : ℕ) (c : Cmd) (s : Line)
    → is_plain s ≡ true
    → starts_with (b'&' ∷ []) s ≡ false
    → backs_from (suc fuel) c s ≡ ok (c, s)
unfolding backs_from
backs_from-none fuel c s p n =
    let f : peek s (b'&' ∷ []) ≡ false = peek-plain s (b'&' ∷ []) p ∙ n in
    rw f (ap (λ u. ok (c, u)) (skip_white-plain s p))

backs_from-back :
    (fuel : ℕ) (c : Cmd) (s : Line)
    → is_stop s ≡ true
    → backs_from (suc (suc fuel)) c (b'&' ∷ s) ≡ ok (back c, s)
unfolding backs_from gettoken token_at skip_white starts_with
backs_from-back fuel c s p =
    ap (backs_from (suc fuel) (back c)) (skip_white-plain s (is_stop-plain s p))
    ∙ backs_from-none fuel (back c) s (is_stop-plain s p) (is_stop-starts_with (b'&' ∷ []) s refl p)

-- A line that ends after its `&`.
parseline-backs :
    (fuel : ℕ) (c d : Cmd) (t u s : Line)
    → parsepipe (parseline fuel) t ≡ ok (c, u)
    → backs_from (suc (length u)) c u ≡ ok (d, s)
    → is_stop s ≡ true
    → parseline (suc fuel) t ≡ ok (d, s)
unfolding parseline
parseline-backs fuel c d t u s e b p =
    let plain = is_stop-plain s p in
    let f : peek s (b';' ∷ []) ≡ false =
      peek-plain s (b';' ∷ []) plain ∙ is_stop-starts_with (b';' ∷ []) s refl p in
    rw (e, b, f) (ap (λ v. ok (d, v)) (skip_white-plain s plain))

-- A line with nothing after its pipe.
pub parseline-pipe :
    (fuel : ℕ) (c : Cmd) (t s : Line)
    → parsepipe (parseline fuel) t ≡ ok (c, s)
    → is_stop s ≡ true
    → parseline (suc fuel) t ≡ ok (c, s)
parseline-pipe fuel c t s e p =
    parseline-backs fuel c c t s s e
      (backs_from-none (length s) c s (is_stop-plain s p)
        (is_stop-starts_with (b'&' ∷ []) s refl p))
      p

-- Such a line of one part.
pub parseline-exec :
    (fuel : ℕ) (c : Cmd) (t s : Line)
    → parseexec (parseline fuel) t ≡ ok (c, s)
    → is_stop s ≡ true
    → parseline (suc fuel) t ≡ ok (c, s)
unfolding parsepipe
parseline-exec fuel c t s e p =
    parseline-pipe fuel c t s
      (pipe_from-none (parseline fuel) (length t) c t s e (is_stop-plain s p)
        (is_stop-starts_with (b'|' ∷ []) s refl p))
      p

pub parseline-back :
    (fuel : ℕ) (c : Cmd) (t s : Line)
    → parseexec (parseline fuel) t ≡ ok (c, b'&' ∷ s)
    → is_stop s ≡ true
    → parseline (suc fuel) t ≡ ok (back c, s)
unfolding parsepipe starts_with
parseline-back fuel c t s e p =
    parseline-backs fuel c (back c) t (b'&' ∷ s) s
      (pipe_from-none (parseline fuel) (length t) c t (b'&' ∷ s) e refl refl)
      (backs_from-back (length s) c s p) p

pub parseline-list :
    (fuel : ℕ) (l r : Cmd) (t u s : Line)
    → parseexec (parseline fuel) t ≡ ok (l, b';' ∷ u)
    → parseline fuel u ≡ ok (r, s)
    → is_plain u ≡ true
    → parseline (suc fuel) t ≡ ok (list l r, s)
unfolding parseline parsepipe gettoken token_at skip_white starts_with
parseline-list fuel l r t u s e f p =
    let first : parsepipe (parseline fuel) t ≡ ok (l, b';' ∷ u) =
      pipe_from-none (parseline fuel) (length t) l t (b';' ∷ u) e refl refl in
    rw (first, backs_from-none (suc (length u)) l (b';' ∷ u) refl refl)
      (ap (λ v. parseline fuel v >>= λ q. ok (list l q.0, q.1)) (skip_white-plain u p)
        ∙ ap (λ m. m >>= λ q. ok (list l q.0, q.1)) f)
