-- ===== src/Fd/Tests.antt =====
-- A table of three descriptors.
use sofinal_project.Prelude.{◌≡◌, refl, none, some, [], ◌∷◌, find_first}
use sofinal_project.Fd.{fdalloc}

lowest_free : fdalloc 7 (some 1 ∷ none ∷ none ∷ []) ≡ some (1, some 1 ∷ some 7 ∷ none ∷ [])
unfolding fdalloc find_first
lowest_free = refl

all_open : fdalloc 7 (some 1 ∷ []) ≡ none
unfolding fdalloc find_first
all_open = refl
