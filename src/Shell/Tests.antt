-- ===== src/Shell/Tests.antt =====
-- Lines of the shell, by their ASCII codes.
use sofinal_project.Prelude.{◌≡◌, ◌⊎◌, refl, [], ◌∷◌}
use sofinal_project.Shell.{Text, Cmd, exec, redir, pipe, list, back, ok, syntax, parsecmd}
use sofinal_project.Shell.Total.{HasRoom, parsecmd-total}

-- a b > f | ( c ; d ) &
abbrev line : Text
line =
    97 ∷ 32 ∷ 98 ∷ 32 ∷ 62 ∷ 32 ∷ 102 ∷ 32 ∷ 124 ∷ 32 ∷ 40 ∷ 32 ∷ 99 ∷ 32 ∷ 59 ∷ 32 ∷ 100 ∷ 32 ∷ 41
    ∷ 32 ∷ 38 ∷ 10 ∷ []

parsed_line :
    parsecmd line
    ≡ ok
        (back (
          pipe
            (redir (exec ((97 ∷ []) ∷ (98 ∷ []) ∷ [])) (102 ∷ []) 0x201 1)
            (list (exec ((99 ∷ []) ∷ [])) (exec ((100 ∷ []) ∷ [])))))
        []
unfolding parsecmd
parsed_line = refl

parsecmd-total_example :
    (parsecmd line ≡ syntax) ⊎ ((c : Cmd) × (parsecmd line ≡ ok c []) × HasRoom c)
parsecmd-total_example = parsecmd-total line

-- ( a
unclosed : parsecmd (40 ∷ 32 ∷ 97 ∷ []) ≡ syntax
unfolding parsecmd
unclosed = refl

-- Ten words are one too many.
too_many :
    parsecmd (
      97 ∷ 32 ∷ 97 ∷ 32 ∷ 97 ∷ 32 ∷ 97 ∷ 32 ∷ 97 ∷ 32 ∷ 97 ∷ 32 ∷ 97 ∷ 32 ∷ 97 ∷ 32 ∷ 97 ∷ 32 ∷ 97
      ∷ [])
    ≡ syntax
unfolding parsecmd
too_many = refl
