-- ===== src/Shell/Ends.antt =====
-- The parser of user/sh.c ends: each token makes the text that is left shorter.
use fast_ipc.Base.{
  ℕ, zero, suc, ◌<◌, ◌≤◌, ◌≡◌, ◌≢◌, ◌⊎◌, inl, inr, refl, sym, subst, arith, true, false, ◌==◌, [],
  ◌∷◌, leb, length, Bool-cases, fault, ◌>>=◌, EndsIn, EndsIn-ok, EndsIn-panic, EndsIn->>=,
  EndsIn-mono, EndsIn-ne-fault,
}
use fast_ipc.Shell.{
  Line, Cmd, exec, back, max_args, has_char, whitespace, symbols, skip_white, in_word, word_of,
  after_greater, token_at, gettoken, starts_with, peek, past, Parsed, redirected, is_word,
  redirs_from, parseredirs, add_arg, is_end, args_from, parseblock, parseexec, pipe_from, parsepipe,
  backs_from, parseline, is_empty, parsecmd,
}

pub length-skip_white : (s : Line) → length (skip_white s) ≤ length s
unfolding skip_white
length-skip_white [] = omega arith
length-skip_white (c ∷ s) = elim (Bool-cases (has_char whitespace c)) [
  | inl t ↦ rw t (omega (arith, length-skip_white s))
  | inr f ↦ rw f (omega arith)
]

-- What `skip_white` stops at.
pub skip_white-cons :
    (s : Line) (c : ℕ) (r : Line) → skip_white s ≡ c ∷ r → has_char whitespace c ≡ false
unfolding skip_white
skip_white-cons [] c r e = cc
skip_white-cons (d ∷ s) c r e = elim (Bool-cases (has_char whitespace d)) [
  | inl t ↦ skip_white-cons s c r (rw t at e)
  | inr f ↦ let h : d ∷ s ≡ c ∷ r = rw f at e in let same : d ≡ c = cc in rw same at f
]

length-word_of : (s : Line) → length (word_of s).1 ≤ length s
unfolding word_of
length-word_of [] = omega arith
length-word_of (c ∷ s) = elim (Bool-cases (in_word c)) [
  | inl t ↦ rw t (omega (arith, length-word_of s))
  | inr f ↦ rw f (omega arith)
]

length-after_greater : (s : Line) → length (after_greater s).2 ≤ length s
length-after_greater [] = omega arith
length-after_greater (d ∷ s) = ground arith

length-token_at :
    (c : ℕ) (s : Line) → has_char whitespace c ≡ false → length (token_at (c ∷ s)).2 ≤ length s
unfolding token_at word_of
length-token_at c s plain = elim (Bool-cases (c == b'>')) [
  | inl t ↦ rw t (length-after_greater s)
  | inr f ↦ elim (Bool-cases (has_char symbols c)) [
    | inl t ↦ rw (f, t) (omega arith)
    | inr g ↦ rw (f, g, plain) (length-word_of s)
  ]
]

past-shorter : (s : Line) (c : ℕ) (r : Line) → skip_white s ≡ c ∷ r → length (past s) < length s
unfolding gettoken
past-shorter s c r e =
    let a : length (past s) ≤ length (token_at (skip_white s)).2 = length-skip_white _ in
    let b : length (token_at (skip_white s)).2 ≤ length r =
      subst (λ t. length (token_at t).2 ≤ length r) (sym e)
        (length-token_at c r (skip_white-cons s c r e)) in
    let d : suc (length r) ≤ length s = subst (λ t. length t ≤ length s) e (length-skip_white s) in
    omega (arith, a, b, d)

-- Nothing is left but white space, or a token is.
pub past-cases : (s : Line) → (skip_white s ≡ []) ⊎ (length (past s) < length s)
past-cases s = from (skip_white s) refl
  where
    from : (r : Line) → skip_white s ≡ r → (skip_white s ≡ []) ⊎ (length (past s) < length s)
    from [] e = inl e
    from (c ∷ r) e = inr (past-shorter s c r e)

peek-past : (s toks : Line) → peek s toks ≡ true → length (past s) < length s
unfolding starts_with
peek-past s toks e = elim (past-cases s) [
  | inl none ↦ absurd (let h : false ≡ true = rw none at e in cc)
  | inr lt ↦ lt
]

length-past : (s : Line) → length (past s) ≤ length s
unfolding gettoken token_at skip_white
length-past s = elim (past-cases s) [
  | inl none ↦ rw none (omega arith)
  | inr lt ↦ omega (arith, lt)
]

-- What is left of the text is at most `n` long.
abbrev pub Short : ℕ → Cmd × Line → Type 0
Short n r = length r.1 ≤ n

Short-mono : (m n : ℕ) (run : Parsed) → m ≤ n → EndsIn (Short m) run → EndsIn (Short n) run
Short-mono m n run le p = EndsIn-mono (Short m) (Short n) run p (λ x q. omega (arith, q, le))

redirs_from-ends :
    (fuel : ℕ) (cmd : Cmd) (s : Line)
    → length s < fuel
    → EndsIn (Short (length s)) (redirs_from fuel cmd s)
unfolding redirs_from
redirs_from-ends zero cmd s lt = absurd (omega arith)
redirs_from-ends (suc fuel) cmd s lt =
    let n = length s in
    let file = gettoken (past s) in
    elim (Bool-cases (peek s (b'<' ∷ b'>' ∷ []))) [
      | inl t ↦ elim (Bool-cases (is_word file.0)) [
        | inl w ↦
            let a = peek-past s (b'<' ∷ b'>' ∷ []) t in
            let b = length-past (past s) in
            rw (t, w)
              (Short-mono (length file.2) n _ (omega (arith, a, b)) (
                redirs_from-ends fuel (redirected (gettoken s).0 cmd file.1) file.2
                  (omega (arith, a, b))))
        | inr w ↦ rw (t, w) (EndsIn-panic (Short n))
      ]
      | inr f ↦ rw f (EndsIn-ok (Short n) (length-skip_white s))
    ]

parseredirs-ends : (cmd : Cmd) (s : Line) → EndsIn (Short (length s)) (parseredirs cmd s)
unfolding parseredirs
parseredirs-ends cmd s = redirs_from-ends (suc (length s)) cmd s (omega arith)

not_end : (s : Line) → is_end (gettoken s).0 ≡ false → length (past s) < length s
unfolding gettoken token_at
not_end s e = elim (past-cases s) [
  | inl none ↦ absurd (let h : true ≡ false = rw none at e in cc)
  | inr lt ↦ lt
]

next-arg :
    (fuel argc : ℕ) (cmd : Cmd) (s : Line) (n : ℕ)
    → length s < n
    → ((cmd' : Cmd) (s' : Line)
        → length s' < fuel
        → EndsIn (Short (length s')) (args_from fuel (suc argc) cmd' s'))
    → n < suc fuel
    → EndsIn (Short n) (parseredirs cmd s >>= λ r. args_from fuel (suc argc) r.0 r.1)
next-arg fuel argc cmd s n lt on few =
    EndsIn->>= (Short (length s)) (Short n) (parseredirs cmd s) _ (parseredirs-ends cmd s) (λ r p.
      Short-mono (length r.1) n _ (omega (arith, p, lt)) (on r.0 r.1 (omega (arith, p, lt, few))))

args_from-ends :
    (fuel argc : ℕ) (cmd : Cmd) (s : Line)
    → length s < fuel
    → EndsIn (Short (length s)) (args_from fuel argc cmd s)
unfolding args_from
args_from-ends zero argc cmd s lt = absurd (omega arith)
args_from-ends (suc fuel) argc cmd s lt =
    let n = length s in
    let t = gettoken s in
    elim (Bool-cases (peek s (b'|' ∷ b')' ∷ b'&' ∷ b';' ∷ []))) [
      | inl stop ↦ rw stop (EndsIn-ok (Short n) (length-skip_white s))
      | inr on ↦ elim (Bool-cases (is_end t.0)) [
        | inl e ↦ rw (on, e) (EndsIn-ok (Short n) (length-past s))
        | inr ne ↦ elim (Bool-cases (is_word t.0)) [
          | inr other ↦ rw (on, ne, other) (EndsIn-panic (Short n))
          | inl w ↦ elim (Bool-cases (leb max_args (suc argc))) [
            | inl many ↦ rw (on, ne, w, many) (EndsIn-panic (Short n))
            | inr few ↦
                rw (on, ne, w, few)
                  (next-arg fuel argc (add_arg cmd t.1) t.2 n (not_end s ne)
                    (args_from-ends fuel (suc argc)) lt)
          ]
        ]
      ]
    ]

-- A parser that ends on texts shorter than `m`.
abbrev pub EndsBelow : ℕ → (Line → Parsed) → Type 0
EndsBelow m line = (s : Line) → length s < m → EndsIn (Short (length s)) (line s)

parseblock-ends :
    (m : ℕ) (line : Line → Parsed)
    → EndsBelow m line
    → (s : Line) → length s ≤ m
    → EndsIn (Short (length s)) (parseblock line s)
unfolding parseblock
parseblock-ends m line ends s le =
    let n = length s in
    elim (Bool-cases (peek s (b'(' ∷ []))) [
      | inr f ↦ rw f (EndsIn-panic (Short n))
      | inl t ↦
          let a = peek-past s (b'(' ∷ []) t in
          rw t (
            EndsIn->>= (Short (length (past s))) (Short n) (line (past s)) _
              (ends (past s) (omega (arith, a)))
              (λ r p. elim (Bool-cases (peek r.1 (b')' ∷ []))) [
                | inr f ↦ rw f (EndsIn-panic (Short n))
                | inl u ↦ rw u (
                    Short-mono (length (past r.1)) n _ (omega (arith, p, a, length-past r.1))
                      (parseredirs-ends r.0 (past r.1)))
              ]))
    ]

parseexec-ends :
    (m : ℕ) (line : Line → Parsed)
    → EndsBelow m line
    → (s : Line) → length s ≤ m
    → EndsIn (Short (length s)) (parseexec line s)
unfolding parseexec
parseexec-ends m line ends s le = elim (Bool-cases (peek s (b'(' ∷ []))) [
  | inl t ↦ rw t (parseblock-ends m line ends s le)
  | inr f ↦ rw f (
      EndsIn->>= (Short (length s)) (Short (length s)) (parseredirs (exec []) s) _
        (parseredirs-ends (exec []) s)
        (λ r p.
          Short-mono (length r.1) (length s) _ p
            (args_from-ends (suc (length r.1)) 0 r.0 r.1 (omega arith))))
]

pipe_from-ends :
    (m : ℕ) (line : Line → Parsed)
    → EndsBelow m line
    → (fuel : ℕ) (s : Line) → length s ≤ m
    → length s < fuel
    → EndsIn (Short (length s)) (pipe_from line fuel s)
unfolding pipe_from
pipe_from-ends m line ends zero s le lt = absurd (omega arith)
pipe_from-ends m line ends (suc fuel) s le lt =
    let n = length s in
    EndsIn->>= (Short n) (Short n) (parseexec line s) _ (parseexec-ends m line ends s le) (λ r p.
      elim (Bool-cases (peek r.1 (b'|' ∷ []))) [
        | inr f ↦ rw f (EndsIn-ok (Short n) (omega (arith, p, length-skip_white r.1)))
        | inl t ↦
            let a = peek-past r.1 (b'|' ∷ []) t in
            rw t (
              EndsIn->>= (Short (length (past r.1))) (Short n) (pipe_from line fuel (past r.1)) _
                (pipe_from-ends m line ends fuel (past r.1) (omega (arith, a, p))
                  (omega (arith, a, p)))
                (λ q l. EndsIn-ok (Short n) (omega (arith, l, a, p))))
      ])

backs_from-ends :
    (fuel : ℕ) (cmd : Cmd) (s : Line)
    → length s < fuel
    → EndsIn (Short (length s)) (backs_from fuel cmd s)
unfolding backs_from
backs_from-ends zero cmd s lt = absurd (omega arith)
backs_from-ends (suc fuel) cmd s lt = elim (Bool-cases (peek s (b'&' ∷ []))) [
  | inr f ↦ rw f (EndsIn-ok (Short (length s)) (length-skip_white s))
  | inl t ↦
      let a = peek-past s (b'&' ∷ []) t in
      rw t (
        Short-mono (length (past s)) (length s) _ (omega (arith, a))
          (backs_from-ends fuel (back cmd) (past s) (omega (arith, a))))
]

parseline-ends :
    (fuel : ℕ) (s : Line) → length s < fuel → EndsIn (Short (length s)) (parseline fuel s)
unfolding parseline parsepipe
parseline-ends zero s lt = absurd (omega arith)
parseline-ends (suc fuel) s lt =
    let n = length s in
    EndsIn->>= (Short n) (Short n) (parsepipe (parseline fuel) s) _
      (pipe_from-ends fuel (parseline fuel) (parseline-ends fuel) (suc n) s (omega arith)
        (omega arith))
      (λ p l.
        EndsIn->>= (Short (length p.1)) (Short n) (backs_from (suc (length p.1)) p.0 p.1) _
          (backs_from-ends (suc (length p.1)) p.0 p.1 (omega arith))
          (λ r k. elim (Bool-cases (peek r.1 (b';' ∷ []))) [
            | inr f ↦ rw f (EndsIn-ok (Short n) (omega (arith, k, l, length-skip_white r.1)))
            | inl t ↦
                let a = peek-past r.1 (b';' ∷ []) t in
                rw t (
                  EndsIn->>= (Short (length (past r.1))) (Short n) (parseline fuel (past r.1)) _
                    (parseline-ends fuel (past r.1) (omega (arith, a, k, l)))
                    (λ q j. EndsIn-ok (Short n) (omega (arith, j, a, k, l))))
          ]))

-- The parser gives a command or panics, for any text: no loop and no nesting of it runs out of rounds.
pub parsecmd-ends : (s : Line) → parsecmd s ≢ fault
unfolding parsecmd
parsecmd-ends s =
    EndsIn-ne-fault (λ c. Unit {0}) _
      (EndsIn->>= (Short (length s)) (λ c. Unit {0}) (parseline (suc (length s)) s) _
        (parseline-ends (suc (length s)) s (omega arith))
        (λ r p. elim (Bool-cases (is_empty (skip_white r.1))) [
          | inl t ↦ rw t (EndsIn-ok (λ c. Unit {0}) tt)
          | inr f ↦ rw f (EndsIn-panic (λ c. Unit {0}))
        ]))
