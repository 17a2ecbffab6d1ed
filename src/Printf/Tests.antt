-- ===== src/Printf/Tests.antt =====
-- Numbers and formats.
use sofinal_project.Prelude.{◌≡◌, refl, some, true, false, arith, [], ◌∷◌}
use sofinal_project.Ulib.{atoi}
use sofinal_project.Printf.{printint, put_digits, printf, printf_loop, print_arg, word}
use sofinal_project.Printf.Decimal.{atoi-printint}

-- -2147483648
smallest : printint 0x80000000 10 true ≡ 45 ∷ 50 ∷ 49 ∷ 52 ∷ 55 ∷ 52 ∷ 56 ∷ 51 ∷ 54 ∷ 52 ∷ 56 ∷ []
unfolding printint put_digits
smallest = refl

-- "%x %d%%" of 255 and 7
formatted :
    printf (37 ∷ 120 ∷ 32 ∷ 37 ∷ 100 ∷ 37 ∷ 37 ∷ []) (word 255 ∷ word 7 ∷ [])
    ≡ some (70 ∷ 70 ∷ 32 ∷ 55 ∷ 37 ∷ [])
unfolding printf printf_loop print_arg printint put_digits
formatted = refl

atoi-printint_example : atoi (printint 4294967295 10 false) ≡ 4294967295
atoi-printint_example = atoi-printint 4294967295 (omega arith)
