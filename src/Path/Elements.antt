-- ===== src/Path/Elements.antt =====
-- How `skipelem` takes a path apart.
use sofinal_project.Prelude.{
  ℕ, ◌≤◌, ◌<◌, ◌≡◌, refl, false, some, List, [], ◌∷◌, ◌++◌, arith, leb, ◌==◌, length,
}
use sofinal_project.Path.{slash, dirsiz, skip_slashes, split_elem, move_into, skipelem}

-- No character of an element is a slash.
pub IsElem : List ℕ → Type 0
IsElem [] = Unit
IsElem (c ∷ s) = (c == slash ≡ false) × IsElem s

split_elem-IsElem :
    (s rest : List ℕ) → IsElem s → split_elem (s ++ (slash ∷ rest)) ≡ (s, slash ∷ rest)
unfolding split_elem IsElem
split_elem-IsElem [] rest h = refl
split_elem-IsElem (c ∷ s) rest h = rw (h.0, split_elem-IsElem s rest h.1) refl

pub skip_slashes-shorter : (path : List ℕ) → length (skip_slashes path) ≤ length path
unfolding skip_slashes
skip_slashes-shorter [] = omega arith
skip_slashes-shorter (c ∷ path) = ground (arith, skip_slashes-shorter path)

-- A path that begins with an element of 1 to 13 characters and a slash: `skipelem` puts the element and a
-- null byte into the name buffer, and goes on after all the slashes.
pub skipelem-elem :
    (c : ℕ) (s rest name : List ℕ)
    → IsElem (c ∷ s)
    → length s < 13
    → skipelem ((c ∷ s) ++ (slash ∷ rest)) name
      ≡ some (skip_slashes rest, move_into ((c ∷ s) ++ (0 ∷ [])) name)
unfolding skipelem skip_slashes IsElem
skipelem-elem c s rest name h lt =
    let plain : c == slash ≡ false = h.0 in
    let parts : split_elem (c ∷ (s ++ (slash ∷ rest))) ≡ (c ∷ s, slash ∷ rest) =
      split_elem-IsElem (c ∷ s) rest h in
    let short : leb dirsiz (length (c ∷ s)) ≡ false = ground arith in
    rw (plain, skipelem, parts, short) refl
