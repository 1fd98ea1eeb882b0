-- ===== src/Shell/Tests.antt =====
-- Commands and their texts.
use fast_ipc.Base.{◌≡◌, ◌≢◌, refl, arith, [], ◌∷◌, inl, inr, ok, fault}
use fast_ipc.Shell.{
  Line, Cmd, exec, redir, pipe, list, back, write_new, parsecmd, parseline, parsepipe, pipe_from,
  parseexec, starts_with, skip_white, parseredirs, redirs_from, args_from, gettoken, token_at,
  word_of, backs_from, add_arg,
}
use fast_ipc.Shell.Printing.{print, IsCmd, all_names}
use fast_ipc.Shell.Ends.{parsecmd-ends}
use fast_ipc.Shell.Reading.{parsecmd-print}

-- `ls -l | wc ; cat > f &`

abbrev ls : Line
ls = b'l' ∷ b's' ∷ []

abbrev sample : Cmd
sample =
    list (pipe (exec (ls ∷ (b'-' ∷ b'l' ∷ []) ∷ [])) (exec ((b'w' ∷ b'c' ∷ []) ∷ [])))
      (back (redir (exec ((b'c' ∷ b'a' ∷ b't' ∷ []) ∷ [])) (b'f' ∷ []) write_new 1))

sample-IsCmd : IsCmd sample
unfolding IsCmd all_names
sample-IsCmd = (
  ((refl, omega arith), (refl, omega arith)),
  ((refl, omega arith), refl, inr (inl (refl, refl))),
)

parsecmd-print_example : parsecmd (print sample) ≡ ok sample
parsecmd-print_example = parsecmd-print sample sample-IsCmd

parsecmd-ends_example : parsecmd (b'(' ∷ b'l' ∷ b';' ∷ []) ≢ fault
parsecmd-ends_example = parsecmd-ends (b'(' ∷ b'l' ∷ b';' ∷ [])

-- Without parentheses `;` is last and `&` before it.
unprinted :
    parsecmd (b'a' ∷ b'|' ∷ b'b' ∷ b'&' ∷ b';' ∷ b'c' ∷ [])
    ≡ ok (
        list
          (back (pipe (exec ((b'a' ∷ []) ∷ [])) (exec ((b'b' ∷ []) ∷ []))))
          (exec ((b'c' ∷ []) ∷ [])))
unfolding parsecmd parseline parsepipe pipe_from parseexec starts_with skip_white parseredirs
    redirs_from args_from gettoken token_at word_of backs_from add_arg
unprinted = refl
