-- ===== src/Ulib/Tests.antt =====
-- The functions at short strings.
use sofinal_project.Prelude.{◌≡◌, refl, some, [], ◌∷◌}
use sofinal_project.Ulib.{strcpy, strcmp, strchr, atoi, atoi_loop, gets, gets_loop}

number_read : atoi (49 ∷ 50 ∷ 97 ∷ 51 ∷ []) ≡ 12
unfolding atoi atoi_loop
number_read = refl

line_read : gets 10 (104 ∷ 105 ∷ 10 ∷ 120 ∷ []) ≡ 104 ∷ 105 ∷ 10 ∷ []
unfolding gets gets_loop
line_read = refl

copied : strcpy (9 ∷ 9 ∷ 9 ∷ 9 ∷ []) (97 ∷ 98 ∷ []) ≡ 97 ∷ 98 ∷ 0 ∷ 9 ∷ []
unfolding strcpy
copied = refl

compared : strcmp (97 ∷ 98 ∷ []) (97 ∷ 98 ∷ 0 ∷ 5 ∷ []) ≡ 0
unfolding strcmp
compared = refl

found : strchr (97 ∷ 98 ∷ 99 ∷ []) 98 ≡ some (98 ∷ 99 ∷ [])
unfolding strchr
found = refl
