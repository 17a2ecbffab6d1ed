-- ===== src/Path/Tests.antt =====
-- The examples in the comment of `skipelem`.
use sofinal_project.Prelude.{◌≡◌, refl, none, some, [], ◌∷◌}
use sofinal_project.Path.{skipelem}

-- a/bb/c
two_left :
    skipelem (97 ∷ 47 ∷ 98 ∷ 98 ∷ 47 ∷ 99 ∷ []) (9 ∷ 9 ∷ 9 ∷ [])
    ≡ some (98 ∷ 98 ∷ 47 ∷ 99 ∷ [], 97 ∷ 0 ∷ 9 ∷ [])
unfolding skipelem
two_left = refl

only_slashes : skipelem (47 ∷ 47 ∷ []) (9 ∷ []) ≡ none
unfolding skipelem
only_slashes = refl
