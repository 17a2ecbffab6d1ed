-- ===== src/Shell.antt =====
-- The command parser of sh.c. The rest of the line, from `*ps` to `es`, is a list of characters, none of
-- them the null byte. A word is given by its characters, where the code keeps its first
-- place and the place behind it, and lets `nulterminate` end it there once all is parsed.
-- `syntax` is a call of `panic`. The functions call one another on fuel; `out_of_fuel` is not met.
pub mod Tokens
pub mod Total
mod Tests
use sofinal_project.Prelude.{
  ℕ, zero, suc, ◌+◌, ◌*◌, Bool, true, false, ◌&&◌, ◌||◌, not, List, [], ◌∷◌, ◌++◌, ltb, leb, ◌==◌,
  if◌then◌else◌, length,
}

abbrev pub max_args : ℕ
max_args = 10

abbrev pub Text : Type 0
Text = List ℕ

-- `struct cmd` and its kinds.
pub data Cmd : Type 0 where
  exec : List Text → Cmd
  redir : Cmd → Text → ℕ → ℕ → Cmd
  pipe : Cmd → Cmd → Cmd
  list : Cmd → Cmd → Cmd
  back : Cmd → Cmd

-- `strchr(s, c)` as a test.
abbrev pub one_of : Text → ℕ → Bool
one_of [] c = false
one_of (d ∷ s) c = d == c || one_of s c

abbrev pub whitespace : Text
whitespace = 32 ∷ 9 ∷ 13 ∷ 10 ∷ 11 ∷ []

-- <|>&;()
abbrev pub symbols : Text
symbols = 60 ∷ 124 ∷ 62 ∷ 38 ∷ 59 ∷ 40 ∷ 41 ∷ []

unfoldable pub skip_space : Text → Text
skip_space [] = []
skip_space (c ∷ s) = let rest = skip_space s in if one_of whitespace c then rest else c ∷ s

abbrev pub in_word : ℕ → Bool
in_word c = not (one_of whitespace c) && not (one_of symbols c)

-- The word at the start, and what follows it.
unfoldable pub split_word : Text → Text × Text
split_word [] = ([], [])
split_word (c ∷ s) =
    let (w, rest) = split_word s in if in_word c then (c ∷ w, rest) else ([], c ∷ s)

-- `case '>'`, on what follows the character.
abbrev pub after_arrow : Text → ℕ × Text × Text
after_arrow [] = (62, 62 ∷ [], [])
after_arrow (d ∷ s) = if d == 62 then (43, 62 ∷ 62 ∷ [], s) else (62, 62 ∷ [], d ∷ s)

-- The token, the text from `q` to `eq`, and the line behind it, before the spaces there are skipped.
unfoldable pub token_at : Text → ℕ × Text × Text
unfolding split_word
token_at [] = (0, [], [])
token_at (c ∷ s) =
    let (w, rest) = split_word (c ∷ s) in
    if c == 62 then after_arrow s else if one_of symbols c then (c, c ∷ [], s) else (97, w, rest)

-- 97 is 'a', a word, and 43 is '+', which stands for >>.
unfoldable pub gettoken : Text → ℕ × Text × Text
unfolding skip_space token_at
gettoken s = let (tok, w, rest) = token_at (skip_space s) in (tok, w, skip_space rest)

abbrev pub starts_with : Text → Text → Bool
starts_with [] toks = false
starts_with (c ∷ s) toks = one_of toks c

-- The answer, and the line with its leading spaces skipped.
unfoldable pub peek : Text → Text → Bool × Text
unfolding skip_space
peek s toks = (starts_with (skip_space s) toks, skip_space s)

-- A result with the line that is left.
pub data Parsed {ℓ} (A : Type ℓ) : Type ℓ where
  ok : A → Text → Parsed A
  syntax : Parsed A
  out_of_fuel : Parsed A

abbrev pub and_then {ℓ κ} : {A : Type ℓ} {B : Type κ} → Parsed A → (A → Text → Parsed B) → Parsed B
and_then (ok a rest) f = f a rest
and_then syntax f = syntax
and_then out_of_fuel f = out_of_fuel

-- File, mode and descriptor of `redircmd`: O_RDONLY on 0, or O_WRONLY|O_CREATE on 1.
abbrev pub Redir : Type 0
Redir = Text × ℕ × ℕ

abbrev pub redir_of : ℕ → Text → Redir
redir_of tok w = if tok == 60 then (w, 0, 0) else (w, 0x201, 1)

-- The loop of `parseredirs`: what it wraps the command in, the innermost first.
unfoldable pub parse_redirs : ℕ → Text → Parsed (List Redir)
unfolding peek gettoken
parse_redirs zero s = out_of_fuel
parse_redirs (suc f) s =
    let (hit, s1) = peek s (60 ∷ 62 ∷ []) in
    let (tok, op, s2) = gettoken s1 in
    let (tok', w, s3) = gettoken s2 in
    let more : Parsed (List Redir) =
      and_then (parse_redirs f s3) (λ rs rest. ok (redir_of tok w ∷ rs) rest) in
    if not hit then ok [] s1 else if not (tok' == 97) then syntax else more

abbrev pub wrap : List Redir → Cmd → Cmd
wrap [] c = c
wrap ((file, mode, fd) ∷ rs) c = wrap rs (redir c file mode fd)

-- The loop of `parseexec`: the arguments and the redirections, in the order of the line.
unfoldable pub parse_args : ℕ → ℕ → Text → Parsed (List Text × List Redir)
unfolding parse_redirs
parse_args zero argc s = out_of_fuel
parse_args (suc f) argc s =
    let (hit, s1) = peek s (124 ∷ 41 ∷ 38 ∷ 59 ∷ []) in
    let (tok, w, s2) = gettoken s1 in
    let more : Parsed (List Text × List Redir) =
      and_then (parse_redirs (suc (length s2)) s2) (λ rs s3.
        and_then (parse_args f (argc + 1) s3)
          (λ found rest. ok (w ∷ found.0, rs ++ found.1) rest)) in
    if hit
    then ok ([], []) s1
    else if tok == 0
    then ok ([], []) s2
    else if not (tok == 97)
    then syntax
    else if leb max_args (argc + 1)
    then syntax
    else more

-- The loop for `&` in `parseline`.
unfoldable pub parse_backs : ℕ → Cmd → Text → Parsed Cmd
unfolding peek gettoken
parse_backs zero c s = out_of_fuel
parse_backs (suc f) c s =
    let (hit, s1) = peek s (38 ∷ []) in
    let (tok, w, s2) = gettoken s1 in
    let more : Parsed Cmd = parse_backs f (back c) s2 in if hit then more else ok c s1

-- `parseexec` for a line that does not start with a bracket.
unfoldable pub parse_words : Text → Parsed Cmd
unfolding parse_args
parse_words s = and_then (parse_redirs (suc (length s)) s) (λ rs s1.
    and_then (parse_args (suc (length s1)) 0 s1)
      (λ found rest. ok (wrap (rs ++ found.1) (exec found.0)) rest))

unfoldable mutual
  unfolding parse_words parse_backs

  pub parse_line : ℕ → Text → Parsed Cmd
  parse_line zero s = out_of_fuel
  parse_line (suc f) s = and_then (parse_pipe f s) (λ c s1.
      and_then (parse_backs (suc (length s1)) c s1) (λ c' s2. elim ((peek s2 (59 ∷ [])).0) [
        | false ↦ ok c' (peek s2 (59 ∷ [])).1
        | true ↦
            and_then (parse_line f (gettoken (peek s2 (59 ∷ [])).1).2)
              (λ right rest. ok (list c' right) rest)
      ]))

  pub parse_pipe : ℕ → Text → Parsed Cmd
  parse_pipe zero s = out_of_fuel
  parse_pipe (suc f) s = and_then (parse_exec f s) (λ c s1. elim ((peek s1 (124 ∷ [])).0) [
    | false ↦ ok c (peek s1 (124 ∷ [])).1
    | true ↦
        and_then (parse_pipe f (gettoken (peek s1 (124 ∷ [])).1).2)
          (λ right rest. ok (pipe c right) rest)
  ])

  pub parse_exec : ℕ → Text → Parsed Cmd
  parse_exec zero s = out_of_fuel
  parse_exec (suc f) s = elim ((peek s (40 ∷ [])).0) [
    | true ↦ parse_block f (peek s (40 ∷ [])).1
    | false ↦ parse_words (peek s (40 ∷ [])).1
  ]

  pub parse_block : ℕ → Text → Parsed Cmd
  parse_block zero s = out_of_fuel
  parse_block (suc f) s = elim ((peek s (40 ∷ [])).0) [
    | false ↦ syntax
    | true ↦ and_then (parse_line f (gettoken (peek s (40 ∷ [])).1).2) (λ c s1.
        elim ((peek s1 (41 ∷ [])).0) [
          | false ↦ syntax
          | true ↦
              and_then
                (parse_redirs (suc (length (gettoken (peek s1 (41 ∷ [])).1).2))
                  (gettoken (peek s1 (41 ∷ [])).1).2)
                (λ rs rest. ok (wrap rs c) rest)
        ])
  ]

abbrev pub nothing_left : Cmd → Text → Parsed Cmd
nothing_left c [] = ok c []
nothing_left c (d ∷ s) = syntax

unfoldable pub parsecmd : Text → Parsed Cmd
unfolding parse_line
parsecmd s = and_then (parse_line (4 * length s + 4) s) (λ c rest. nothing_left c (skip_space rest))
