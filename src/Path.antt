-- ===== src/Path.antt =====
-- Path names in fs.c: `namecmp` and `skipelem`. A path is the list of its characters, without the
-- null byte; the name buffer holds DIRSIZ bytes.
pub mod Elements
mod Tests
use sofinal_project.Prelude.{
  ℕ, zero, suc, ◌+◌, Bool, true, false, Option, none, some, List, [], ◌∷◌, ◌++◌, leb, ◌==◌,
  if◌then◌else◌, length, take,
}
use sofinal_project.CString.{strncmp}

abbrev pub dirsiz : ℕ
dirsiz = 14

abbrev pub slash : ℕ
slash = 47

abbrev pub namecmp : List ℕ → List ℕ → ℕ
namecmp s t = strncmp s t dirsiz

unfoldable pub skip_slashes : List ℕ → List ℕ
skip_slashes [] = []
skip_slashes (c ∷ path) = let more = skip_slashes path in if c == slash then more else c ∷ path

-- The element up to the next slash, and the path from there on.
unfoldable pub split_elem : List ℕ → List ℕ × List ℕ
split_elem [] = ([], [])
split_elem (c ∷ path) =
    let (elem, after) = split_elem path in if c == slash then ([], c ∷ path) else (c ∷ elem, after)

-- `memmove(name, s, n)` of a list of `n` bytes
unfoldable pub move_into : List ℕ → List ℕ → List ℕ
move_into [] name = name
move_into (c ∷ cs) [] = []
move_into (c ∷ cs) (n ∷ ns) = c ∷ move_into cs ns

-- The element at the start of a path without slashes there, with the name buffer.
abbrev pub first_elem : List ℕ → List ℕ → Option (List ℕ × List ℕ)
first_elem [] name = none
first_elem (c ∷ start) name =
    let (s, after) = split_elem (c ∷ start) in
    let name' =
      if leb dirsiz (length s)
      then move_into (take dirsiz s) name
      else move_into (s ++ (0 ∷ [])) name in
    some (skip_slashes after, name')

-- `none` stands for 0. The second part is the name buffer.
unfoldable pub skipelem : List ℕ → List ℕ → Option (List ℕ × List ℕ)
unfolding skip_slashes split_elem move_into
skipelem path name = first_elem (skip_slashes path) name
