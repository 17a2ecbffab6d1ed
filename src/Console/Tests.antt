-- ===== src/Console/Tests.antt =====
-- Keys pressed on an empty buffer whose indices are about to wrap around.
use sofinal_project.Prelude.{ℕ, ◌≡◌, refl, false, List, [], ◌∷◌, arith}
use sofinal_project.Console.{Input, consoleintr, kill_line, enter, line, sleeps_after, consoleread}
use sofinal_project.Console.Editing.{IsInput, consoleintr-IsInput}

abbrev empty : Input
empty = record { buf = λ i. 0; start = 0xfffffffe; written = 0xfffffffe; edit = 0xfffffffe }

empty-IsInput : IsInput empty
empty-IsInput = record {
  start_fits = omega arith;
  written_fits = omega arith;
  edit_fits = omega arith;
  room = omega arith;
  ordered = omega arith;
}

-- `ab`, Ctrl-H, `c`, return
abbrev keys : List ℕ
keys = 97 ∷ 98 ∷ 8 ∷ 99 ∷ 13 ∷ []

consoleintr-IsInput_example : IsInput (consoleintr keys empty).1
consoleintr-IsInput_example = consoleintr-IsInput keys empty empty-IsInput

edited : (consoleread false false 10 (consoleintr keys empty).1).0 ≡ line (97 ∷ 99 ∷ 10 ∷ [])
unfolding consoleread consoleintr enter
edited = refl

killed_line :
    (consoleread false false 10 (consoleintr (97 ∷ 98 ∷ 21 ∷ 13 ∷ []) empty).1).0 ≡ line (10 ∷ [])
unfolding consoleread consoleintr enter kill_line
killed_line = refl

unfinished : (consoleread false false 10 (consoleintr (97 ∷ []) empty).1).0 ≡ sleeps_after []
unfolding consoleread consoleintr enter
unfinished = refl
