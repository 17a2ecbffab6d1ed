-- ===== src/Shell/Total.antt =====
-- The parser ends on every line, and never writes behind the arguments of a command.
use sofinal_project.Prelude.{
  ℕ, zero, suc, ◌+◌, ◌*◌, ◌≤◌, ◌<◌, ◌≡◌, ◌⊎◌, refl, inl, inr, List, [], ◌∷◌, ◌++◌, arith, leb, ◌==◌,
  length, Bool-cases,
}
use sofinal_project.Shell.{
  Text, Cmd, exec, redir, pipe, list, back, skip_space, gettoken, peek, Parsed, ok, syntax,
  out_of_fuel, and_then, Redir, parse_redirs, wrap, parse_args, parse_backs, parse_words,
  parse_line, parse_pipe, parse_exec, parse_block, nothing_left, parsecmd,
}
use sofinal_project.Shell.Tokens.{gettoken-peek, gettoken-some, gettoken-le, peek-le}

-- Enough fuel was given; a result meets `P`, with at most `n` characters left.
abbrev pub Good {ℓ} : {A : Type ℓ} → (A → Type 0) → ℕ → Parsed A → Type 0
Good P n (ok a rest) = P a × (length rest ≤ n)
Good P n syntax = Unit
Good P n out_of_fuel = ⊥

and_then-Good {ℓ κ} :
    {A : Type ℓ} {B : Type κ} (P : A → Type 0) (Q : B → Type 0) (n m : ℕ) (r : Parsed A)
    (f : A → Text → Parsed B)
    → Good P n r
    → ((a : A) (rest : Text) → P a → length rest ≤ n → Good Q m (f a rest))
    → Good Q m (and_then r f)
and_then-Good P Q n m (ok a rest) f g next = next a rest g.0 g.1
and_then-Good P Q n m syntax f g next = tt
and_then-Good P Q n m out_of_fuel f g next = elim g [ ]

Good-le {ℓ} :
    {A : Type ℓ} (P : A → Type 0) (n m : ℕ) (r : Parsed A) → Good P n r → n ≤ m → Good P m r
Good-le P n m (ok a rest) g le = (g.0, omega (arith, g.1))
Good-le P n m syntax g le = tt
Good-le P n m out_of_fuel g le = g

-- A command's arguments leave room for the null pointer behind them.
pub HasRoom : Cmd → Type 0
HasRoom (exec args) = length args < 10
HasRoom (redir c file mode fd) = HasRoom c
HasRoom (pipe left right) = HasRoom left × HasRoom right
HasRoom (list left right) = HasRoom left × HasRoom right
HasRoom (back c) = HasRoom c

wrap-HasRoom : (rs : List Redir) (c : Cmd) → HasRoom c → HasRoom (wrap rs c)
unfolding HasRoom
wrap-HasRoom [] c h = h
wrap-HasRoom ((file, mode, fd) ∷ rs) c h = wrap-HasRoom rs (redir c file mode fd) h

Anything {ℓ} : {A : Type ℓ} → A → Type 0
Anything a = Unit

parse_redirs-Good : (f : ℕ) (s : Text) → length s < f → Good Anything (length s) (parse_redirs f s)
unfolding parse_redirs Anything
parse_redirs-Good zero s lt = absurd (omega arith)
parse_redirs-Good (suc f) s lt = elim (Bool-cases ((peek s (60 ∷ 62 ∷ [])).0)) [
  | inr none_there ↦ rw none_there (tt, peek-le s (60 ∷ 62 ∷ []))
  | inl hit ↦
      let s2 : Text = (gettoken (peek s (60 ∷ 62 ∷ [])).1).2 in
      let s3 : Text = (gettoken s2).2 in
      let shorter : length s3 < length s =
        omega (arith, gettoken-peek s (60 ∷ 62 ∷ []) hit, gettoken-le s2) in
      elim (Bool-cases ((gettoken s2).0 == 97)) [
        | inr no_file ↦ rw (hit, no_file) tt
        | inl file ↦
            rw (hit, file)
              (and_then-Good Anything Anything (length s3) (length s) (parse_redirs f s3) _
                (parse_redirs-Good f s3 (omega arith)) (λ rs rest p le. (tt, omega arith)))
      ]
]

-- Not more arguments than there is room for behind the first `argc`.
Fits : ℕ → List Text × List Redir → Type 0
Fits argc found = length found.0 + argc < 10

parse_args-Good :
    (f argc : ℕ) (s : Text)
    → length s < f
    → argc < 10
    → Good (Fits argc) (length s) (parse_args f argc s)
unfolding parse_args Fits
parse_args-Good zero argc s lt few = absurd (omega arith)
parse_args-Good (suc f) argc s lt few =
    let ends : Text = 124 ∷ 41 ∷ 38 ∷ 59 ∷ [] in
    let s1 : Text = (peek s (124 ∷ 41 ∷ 38 ∷ 59 ∷ [])).1 in
    let s2 : Text = (gettoken s1).2 in
    let le1 : length s1 ≤ length s = peek-le s (124 ∷ 41 ∷ 38 ∷ 59 ∷ []) in
    elim (Bool-cases ((peek s (124 ∷ 41 ∷ 38 ∷ 59 ∷ [])).0)) [
      | inl hit ↦ rw hit (omega arith, le1)
      | inr more ↦ elim (Bool-cases ((gettoken s1).0 == 0)) [
        | inl over ↦ rw (more, over) (omega arith, omega (arith, gettoken-le s1))
        | inr token ↦
            let shorter : length s2 < length s1 = gettoken-some s1 (ground arith) in
            elim (Bool-cases ((gettoken s1).0 == 97)) [
              | inr symbol ↦ rw (more, token, symbol) tt
              | inl word ↦ elim (Bool-cases (leb 10 (argc + 1))) [
                | inl full ↦ rw (more, token, word, full) tt
                | inr room ↦
                    let room' : argc + 1 < 10 = ground arith in
                    rw (more, token, word, room)
                      (and_then-Good Anything (Fits argc) (length s2) (length s)
                        (parse_redirs (suc (length s2)) s2) _
                        (parse_redirs-Good (suc (length s2)) s2 (omega arith))
                        (λ rs s3 p le.
                          and_then-Good (Fits (argc + 1)) (Fits argc) (length s3) (length s)
                            (parse_args f (argc + 1) s3) _
                            (parse_args-Good f (argc + 1) s3 (omega arith) room')
                            (λ found rest fits le'. (omega (arith, fits), omega arith))))
              ]
            ]
      ]
    ]

parse_backs-Good :
    (f : ℕ) (c : Cmd) (s : Text)
    → length s < f
    → HasRoom c
    → Good HasRoom (length s) (parse_backs f c s)
unfolding parse_backs HasRoom
parse_backs-Good zero c s lt h = absurd (omega arith)
parse_backs-Good (suc f) c s lt h = elim (Bool-cases ((peek s (38 ∷ [])).0)) [
  | inr none_there ↦ rw none_there (h, peek-le s (38 ∷ []))
  | inl hit ↦ rw hit (
      Good-le HasRoom (length (gettoken (peek s (38 ∷ [])).1).2) (length s) _
        (parse_backs-Good f (back c) (gettoken (peek s (38 ∷ [])).1).2
          (omega (arith, gettoken-peek s (38 ∷ []) hit)) h)
        (omega (arith, gettoken-peek s (38 ∷ []) hit)))
]

parse_words-Good : (s : Text) → Good HasRoom (length s) (parse_words s)
unfolding parse_words HasRoom Fits
parse_words-Good s =
    and_then-Good Anything HasRoom (length s) (length s) (parse_redirs (suc (length s)) s) _
      (parse_redirs-Good (suc (length s)) s (omega arith))
      (λ rs s1 p le.
        and_then-Good (Fits 0) HasRoom (length s1) (length s) (parse_args (suc (length s1)) 0 s1) _
          (parse_args-Good (suc (length s1)) 0 s1 (omega arith) (omega arith))
          (λ found rest fits le'.
            (wrap-HasRoom (rs ++ found.1) (exec found.0) (omega (arith, fits)), omega arith)))

mutual
  unfolding parse_line HasRoom

  parse_line-Good :
      (f : ℕ) (s : Text) → 4 * length s + 3 < f → Good HasRoom (length s) (parse_line f s)
  parse_line-Good zero s lt = absurd (omega arith)
  parse_line-Good (suc f) s lt =
      and_then-Good HasRoom HasRoom (length s) (length s) (parse_pipe f s) _
        (parse_pipe-Good f s (omega arith))
        (λ c s1 h le.
          and_then-Good HasRoom HasRoom (length s1) (length s) (parse_backs (suc (length s1)) c s1)
            _ (parse_backs-Good (suc (length s1)) c s1 (omega arith) h)
            (λ c' s2 h' le'. elim (Bool-cases ((peek s2 (59 ∷ [])).0)) [
              | inr last ↦ rw last (h', omega (arith, peek-le s2 (59 ∷ [])))
              | inl more ↦
                  let s3 : Text = (gettoken (peek s2 (59 ∷ [])).1).2 in
                  let shorter : length s3 < length s2 = gettoken-peek s2 (59 ∷ []) more in
                  rw more (
                    and_then-Good HasRoom HasRoom (length s3) (length s) (parse_line f s3) _
                      (parse_line-Good f s3 (omega arith))
                      (λ right rest h'' le''. ((h', h''), omega arith)))
            ]))

  parse_pipe-Good :
      (f : ℕ) (s : Text) → 4 * length s + 2 < f → Good HasRoom (length s) (parse_pipe f s)
  parse_pipe-Good zero s lt = absurd (omega arith)
  parse_pipe-Good (suc f) s lt =
      and_then-Good HasRoom HasRoom (length s) (length s) (parse_exec f s) _
        (parse_exec-Good f s (omega arith))
        (λ c s1 h le. elim (Bool-cases ((peek s1 (124 ∷ [])).0)) [
          | inr last ↦ rw last (h, omega (arith, peek-le s1 (124 ∷ [])))
          | inl more ↦
              let s2 : Text = (gettoken (peek s1 (124 ∷ [])).1).2 in
              let shorter : length s2 < length s1 = gettoken-peek s1 (124 ∷ []) more in
              rw more (
                and_then-Good HasRoom HasRoom (length s2) (length s) (parse_pipe f s2) _
                  (parse_pipe-Good f s2 (omega arith))
                  (λ right rest h' le'. ((h, h'), omega arith)))
        ])

  parse_exec-Good :
      (f : ℕ) (s : Text) → 4 * length s + 1 < f → Good HasRoom (length s) (parse_exec f s)
  parse_exec-Good zero s lt = absurd (omega arith)
  parse_exec-Good (suc f) s lt = elim (Bool-cases ((peek s (40 ∷ [])).0)) [
    | inl bracket ↦
        rw (bracket, parse_exec)
          (Good-le HasRoom (length (peek s (40 ∷ [])).1) (length s) _
            (parse_block-Good f (peek s (40 ∷ [])).1 (omega (arith, peek-le s (40 ∷ []))))
            (peek-le s (40 ∷ [])))
    | inr word ↦
        rw (word, parse_exec)
          (Good-le HasRoom (length (peek s (40 ∷ [])).1) (length s) _
            (parse_words-Good (peek s (40 ∷ [])).1) (peek-le s (40 ∷ [])))
  ]

  parse_block-Good :
      (f : ℕ) (s : Text) → 4 * length s < f → Good HasRoom (length s) (parse_block f s)
  parse_block-Good zero s lt = absurd (omega arith)
  parse_block-Good (suc f) s lt = elim (Bool-cases ((peek s (40 ∷ [])).0)) [
    | inr other ↦ rw (other, parse_block) tt
    | inl bracket ↦
        let s1 : Text = (gettoken (peek s (40 ∷ [])).1).2 in
        let shorter : length s1 < length s = gettoken-peek s (40 ∷ []) bracket in
        rw (bracket, parse_block)
          (and_then-Good HasRoom HasRoom (length s1) (length s) (parse_line f s1) _
            (parse_line-Good f s1 (omega arith))
            (λ c s2 h le. elim (Bool-cases ((peek s2 (41 ∷ [])).0)) [
              | inr open_block ↦ rw open_block tt
              | inl closed ↦
                  let s3 : Text = (gettoken (peek s2 (41 ∷ [])).1).2 in
                  let shorter' : length s3 < length s2 = gettoken-peek s2 (41 ∷ []) closed in
                  rw closed (
                    and_then-Good Anything HasRoom (length s3) (length s)
                      (parse_redirs (suc (length s3)) s3) _
                      (parse_redirs-Good (suc (length s3)) s3 (omega arith))
                      (λ rs rest p le'. (wrap-HasRoom rs c h, omega arith)))
            ]))
  ]

-- The parser ends on every line: it returns a command, with nothing of the line left, or reports a syntax error. In
-- a command that it returns, no list of arguments has more than MAXARGS - 1 words, so that
-- the null pointer behind them is inside the array too.
pub parsecmd-total :
    (s : Text) → (parsecmd s ≡ syntax) ⊎ ((c : Cmd) × (parsecmd s ≡ ok c []) × HasRoom c)
unfolding parsecmd
parsecmd-total s =
    go (parse_line (4 * length s + 4) s) (parse_line-Good (4 * length s + 4) s (omega arith))
  where
    last :
        (c : Cmd) (rest : Text)
        → HasRoom c
        → (nothing_left c rest ≡ syntax) ⊎ ((d : Cmd) × (nothing_left c rest ≡ ok d []) × HasRoom d)
    last c [] h = inr (c, refl, h)
    last c (d ∷ rest) h = inl refl

    go :
        (r : Parsed Cmd)
        → Good HasRoom (length s) r
        → (and_then r (λ c rest. nothing_left c (skip_space rest)) ≡ syntax)
          ⊎ ((c : Cmd) × (and_then r (λ c rest. nothing_left c (skip_space rest)) ≡ ok c [])
              × HasRoom c)
    go (ok c rest) g = last c (skip_space rest) g.0
    go syntax g = inl refl
    go out_of_fuel g = elim g [ ]
