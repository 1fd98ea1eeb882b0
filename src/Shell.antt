-- ===== src/Shell.antt =====
-- The parser of the shell, user/sh.c. A pointer into the line is the text from there to its end, so
-- `s < es` is that the text is not empty. A word of a command, from `q` to `eq`, is its text: this is
-- the string at `q` once `nulterminate` has put a NUL at `eq`.
pub mod Ends
pub mod Words
pub mod Printing
pub mod Parts
pub mod Reading
mod Tests
use fast_ipc.Base.{
  ℕ, zero, suc, Bool, true, false, not, ◌&&◌, ◌||◌, ◌==◌, if◌then◌else◌, List, [], ◌∷◌, ◌++◌, leb,
  length, Outcome, ok, panic, fault, ◌>>=◌,
}

abbrev pub Line : Type 0
Line = List ℕ

-- `struct cmd`, with the kinds of it.
pub data Cmd : Type 0 where
  exec : (argv : List Line) → Cmd
  redir : (cmd : Cmd) → (file : Line) → (mode fd : ℕ) → Cmd
  pipe list : (left right : Cmd) → Cmd
  back : (cmd : Cmd) → Cmd

abbrev pub max_args : ℕ
max_args = 10

-- `O_RDONLY`, `O_WRONLY|O_CREATE|O_TRUNC` and `O_WRONLY|O_CREATE`
abbrev pub read_only : ℕ
read_only = 0

abbrev pub write_new : ℕ
write_new = 0x601

abbrev pub write_on : ℕ
write_on = 0x201

-- `strchr(s, c) != 0`, for a character other than the NUL
abbrev pub has_char : Line → ℕ → Bool
has_char [] c = false
has_char (d ∷ s) c = d == c || has_char s c

abbrev pub whitespace : Line
whitespace = b' ' ∷ 9 ∷ 13 ∷ 10 ∷ 11 ∷ []

abbrev pub symbols : Line
symbols = b'<' ∷ b'|' ∷ b'>' ∷ b'&' ∷ b';' ∷ b'(' ∷ b')' ∷ []

-- `while(s < es && strchr(whitespace, *s)) s++;`
pub skip_white : Line → Line
skip_white [] = []
skip_white (c ∷ s) = let rest = skip_white s in if has_char whitespace c then rest else c ∷ s

abbrev pub in_word : ℕ → Bool
in_word c = not (has_char whitespace c) && not (has_char symbols c)

-- The loop of the default case: the word, and the text after it.
pub word_of : Line → Line × Line
word_of [] = ([], [])
word_of (c ∷ s) = let rest = word_of s in if in_word c then (c ∷ rest.0, rest.1) else ([], c ∷ s)

-- What `gettoken` returns: 0, a symbol, '+' for `>>`, or 'a' for a word.
pub data Token : Type 0 where
  end append word : Token
  symbol : (c : ℕ) → Token

-- `>` or `>>`
abbrev pub after_greater : Line → Token × Line × Line
after_greater [] = (symbol b'>', b'>' ∷ [], [])
after_greater (d ∷ s) =
    if d == b'>' then (append, b'>' ∷ b'>' ∷ [], s) else (symbol b'>', b'>' ∷ [], d ∷ s)

-- The `switch` of `gettoken`: the token, its text, and the text after it.
pub token_at : Line → Token × Line × Line
token_at [] = (end, [], [])
token_at (c ∷ s) =
    if c == b'>'
    then after_greater s
    else if has_char symbols c
    then (symbol c, c ∷ [], s)
    else let w = word_of (c ∷ s) in (word, w.0, w.1)

pub gettoken : Line → Token × Line × Line
gettoken s = let (token, text, rest) = token_at (skip_white s) in (token, text, skip_white rest)

-- `peek`, whose new place in the text is `skip_white` of the old.
pub starts_with : (toks : Line) → Line → Bool
starts_with toks [] = false
starts_with toks (c ∷ s) = has_char toks c

abbrev pub peek : Line → (toks : Line) → Bool
peek s toks = starts_with toks (skip_white s)

-- The text after a token.
abbrev pub past : Line → Line
past s = (gettoken s).2

-- A parse: the command and the text after it.
abbrev pub Parsed : Type 0
Parsed = Outcome (Cmd × Line)

-- The `switch` of `parseredirs`; `gettoken` gives no other token there.
abbrev pub redirected : Token → Cmd → (file : Line) → Cmd
redirected (symbol c) cmd file =
    if c == b'<' then redir cmd file read_only 0 else redir cmd file write_new 1
redirected append cmd file = redir cmd file write_on 1
redirected end cmd file = cmd
redirected word cmd file = cmd

abbrev pub is_word : Token → Bool
is_word t = elim t [ word ↦ true | end ↦ false | append ↦ false | symbol c ↦ false ]

-- The loop of `parseredirs`, on fuel.
pub redirs_from : (fuel : ℕ) → Cmd → Line → Parsed
redirs_from zero cmd s = fault
redirs_from (suc fuel) cmd s =
    let file = gettoken (past s) in
    let rest = redirs_from fuel (redirected (gettoken s).0 cmd file.1) file.2 in
    if not (peek s (b'<' ∷ b'>' ∷ []))
    then ok (cmd, skip_white s)
    else if is_word file.0
    then rest
    else panic

pub parseredirs : Cmd → Line → Parsed
parseredirs cmd s = redirs_from (suc (length s)) cmd s

-- `cmd->argv[argc] = q`, where redirections may stand around the command.
pub add_arg : Cmd → Line → Cmd
add_arg (exec argv) q = exec (argv ++ q ∷ [])
add_arg (redir cmd file mode fd) q = redir (add_arg cmd q) file mode fd
add_arg (pipe left right) q = pipe left right
add_arg (list left right) q = list left right
add_arg (back cmd) q = back cmd

abbrev pub is_end : Token → Bool
is_end t = elim t [ end ↦ true | word ↦ false | append ↦ false | symbol c ↦ false ]

-- The loop of `parseexec`, on fuel, with `argc` arguments read.
pub args_from : (fuel argc : ℕ) → Cmd → Line → Parsed
args_from zero argc cmd s = fault
args_from (suc fuel) argc cmd s =
    let t = gettoken s in
    let rest = parseredirs (add_arg cmd t.1) t.2 >>= λ r. args_from fuel (suc argc) r.0 r.1 in
    if peek s (b'|' ∷ b')' ∷ b'&' ∷ b';' ∷ [])
    then ok (cmd, skip_white s)
    else if is_end t.0
    then ok (cmd, t.2)
    else if not (is_word t.0)
    then panic
    else if leb max_args (suc argc)
    then panic
    else rest

-- `parseblock`, with what reads the line inside.
pub parseblock : (line : Line → Parsed) → Line → Parsed
parseblock line s =
    if not (peek s (b'(' ∷ []))
    then panic
    else line (past s) >>= λ r.
        if not (peek r.1 (b')' ∷ [])) then panic else parseredirs r.0 (past r.1)

pub parseexec : (line : Line → Parsed) → Line → Parsed
parseexec line s =
    if peek s (b'(' ∷ [])
    then parseblock line s
    else parseredirs (exec []) s >>= λ r. args_from (suc (length r.1)) 0 r.0 r.1

-- `parsepipe`, on fuel.
pub pipe_from : (line : Line → Parsed) → (fuel : ℕ) → Line → Parsed
pipe_from line zero s = fault
pipe_from line (suc fuel) s = parseexec line s >>= λ r.
    let rest = pipe_from line fuel (past r.1) >>= λ q. ok (pipe r.0 q.0, q.1) in
    if peek r.1 (b'|' ∷ []) then rest else ok (r.0, skip_white r.1)

pub parsepipe : (line : Line → Parsed) → Line → Parsed
parsepipe line s = pipe_from line (suc (length s)) s

-- The loop over `&` of `parseline`, on fuel.
pub backs_from : (fuel : ℕ) → Cmd → Line → Parsed
backs_from zero cmd s = fault
backs_from (suc fuel) cmd s =
    let rest = backs_from fuel (back cmd) (past s) in
    if peek s (b'&' ∷ []) then rest else ok (cmd, skip_white s)

-- `parseline`, on fuel for the lines in it and after it.
pub parseline : (fuel : ℕ) → Line → Parsed
parseline zero s = fault
parseline (suc fuel) s = parsepipe (parseline fuel) s >>= λ p.
    backs_from (suc (length p.1)) p.0 p.1 >>= λ r.
    let rest = parseline fuel (past r.1) >>= λ q. ok (list r.0 q.0, q.1) in
    if peek r.1 (b';' ∷ []) then rest else ok (r.0, skip_white r.1)

abbrev pub is_empty : Line → Bool
is_empty [] = true
is_empty (c ∷ s) = false

-- `parsecmd`: each line in another, or after another, is shorter, so the length is enough fuel.
pub parsecmd : Line → Outcome Cmd
parsecmd s =
    parseline (suc (length s)) s >>= λ r. if is_empty (skip_white r.1) then ok r.0 else panic
