-- ===== src/Grep.antt =====
-- The matcher of grep.c. A pattern and a text are the lists of their characters, without the null
-- byte. What `grep` reads is the list of what its calls of `read` return, until 0 or less.
pub mod Language
pub mod Chunks
mod Tests
use sofinal_project.Prelude.{
  ℕ, Bool, true, false, ◌&&◌, ◌||◌, List, [], ◌∷◌, ◌++◌, ◌==◌, length, if◌then◌else◌,
}

abbrev pub dot : ℕ
dot = 46

abbrev pub star : ℕ
star = 42

abbrev pub dollar : ℕ
dollar = 36

abbrev pub caret : ℕ
caret = 94

abbrev pub is_end : List ℕ → Bool
is_end [] = true
is_end (t ∷ text) = false

-- `here` is `matchhere` of the pattern behind the star.
unfoldable pub matchstar : ℕ → (List ℕ → Bool) → List ℕ → Bool
matchstar c here [] = here []
matchstar c here (t ∷ text) =
    let more = matchstar c here text in
    if here (t ∷ text) then true else if t == c || c == dot then more else false

-- The last test of `matchhere`, with `here` for the pattern behind `c`.
abbrev pub match_one : ℕ → (List ℕ → Bool) → List ℕ → Bool
match_one c here [] = false
match_one c here (t ∷ text) = if c == dot || c == t then here text else false

unfoldable pub matchhere : List ℕ → List ℕ → Bool
unfolding matchstar
matchhere [] text = true
matchhere (c ∷ []) text = if c == dollar then is_end text else match_one c (λ t. true) text
matchhere (c ∷ d ∷ re) text =
    let starred = matchstar c (matchhere re) text in
    let single = match_one c (matchhere (d ∷ re)) text in if d == star then starred else single

-- The loop of `match`: some end of the text.
unfoldable pub match_loop : List ℕ → List ℕ → Bool
match_loop re [] = matchhere re []
match_loop re (t ∷ text) =
    let more = match_loop re text in if matchhere re (t ∷ text) then true else more

unfoldable pub match_text : List ℕ → List ℕ → Bool
unfolding match_loop matchhere
match_text [] text = match_loop [] text
match_text (c ∷ re) text = if c == caret then matchhere re text else match_loop (c ∷ re) text

-- The inner loop of `grep`: what it writes, and the bytes from `p` on that are left. `line` is what
-- `strchr` has passed since `p`; it stops at a null byte.
unfoldable pub grep_lines : List ℕ → List ℕ → List ℕ → List ℕ × List ℕ
grep_lines pattern line [] = ([], line)
grep_lines pattern line (c ∷ s) =
    let (out, left) = grep_lines pattern [] s in
    let more = grep_lines pattern (line ++ c ∷ []) s in
    if c == 0
    then ([], line ++ c ∷ s)
    else if c == 10
    then ((if match_text pattern line then line ++ 10 ∷ out else out), left)
    else more

-- The loop of `grep`. `buf` is what is kept in front of the next `read`: nothing if no line has ended.
unfoldable pub grep_loop : List ℕ → List ℕ → List (List ℕ) → List ℕ
unfolding grep_lines
grep_loop pattern buf [] = []
grep_loop pattern buf (chunk ∷ chunks) =
    let (out, left) = grep_lines pattern [] (buf ++ chunk) in
    out ++ grep_loop pattern (if length left == length (buf ++ chunk) then [] else left) chunks
