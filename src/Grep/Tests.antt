-- ===== src/Grep/Tests.antt =====
-- Patterns and texts of a few characters.
use sofinal_project.Prelude.{◌≡◌, ◌↔◌, refl, inl, inr, true, false, List, ℕ, [], ◌∷◌}
use sofinal_project.Grep.{matchstar, matchhere, match_loop, match_text, grep_lines, grep_loop}
use sofinal_project.Grep.Chunks.{ArePieces, grep_loop-joined}
use sofinal_project.Grep.Language.{IsIn, match_text_iff}

-- b.*d$
abbrev pattern_bd : List ℕ
pattern_bd = 98 ∷ 46 ∷ 42 ∷ 100 ∷ 36 ∷ []

abbrev abcd : List ℕ
abcd = 97 ∷ 98 ∷ 99 ∷ 100 ∷ []

matched : match_text pattern_bd abcd ≡ true
unfolding match_text match_loop matchhere matchstar
matched = refl

not_at_start : match_text (94 ∷ pattern_bd) abcd ≡ false
unfolding match_text match_loop matchhere matchstar
not_at_start = refl

match_text_iff_example : (match_text pattern_bd abcd ≡ true) ↔ IsIn pattern_bd abcd
match_text_iff_example = match_text_iff pattern_bd abcd

-- A line that comes in two pieces, with no line ending in the first one, is not found.
cut_line : grep_loop (97 ∷ []) [] ((97 ∷ 98 ∷ []) ∷ (99 ∷ 10 ∷ []) ∷ []) ≡ []
unfolding grep_loop grep_lines match_text match_loop matchhere
cut_line = refl

-- "d\nab" and "c\n"
abbrev pieces : List (List ℕ)
pieces = (100 ∷ 10 ∷ 97 ∷ 98 ∷ []) ∷ (99 ∷ 10 ∷ []) ∷ []

pieces-ArePieces : ArePieces pieces
pieces-ArePieces =
    ((refl, (refl, (refl, (refl, tt)))), inr (inl refl), ((refl, (refl, tt)), inr (inl refl), tt))

grep_loop-joined_example :
    grep_loop (98 ∷ []) [] pieces ≡ (grep_lines (98 ∷ []) [] (100 ∷ 10 ∷ 97 ∷ 98 ∷ 99 ∷ 10 ∷ [])).0
grep_loop-joined_example = grep_loop-joined (98 ∷ []) pieces pieces-ArePieces
