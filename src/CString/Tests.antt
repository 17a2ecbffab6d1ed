-- ===== src/CString/Tests.antt =====
-- The string functions at short buffers.
use sofinal_project.Prelude.{ℕ, zero, suc, ◌+◌, ◌≡◌, ◌<◌, ◌≤◌, ◌⊎◌, refl, List, [], ◌∷◌, arith}
use sofinal_project.CString.{memcmp, strncmp, strncpy, safestrcpy, memmove}
use sofinal_project.CString.Compare.{IsBytes}
use sofinal_project.CString.Move.{memmove_lem}

abbrev ab : List ℕ
ab = 97 ∷ 98 ∷ 0 ∷ 1 ∷ []

abbrev ab_long : List ℕ
ab_long = 97 ∷ 98 ∷ 0 ∷ 2 ∷ []

abbrev buffer : List ℕ
buffer = 9 ∷ 9 ∷ 9 ∷ 9 ∷ []

nil-IsBytes : IsBytes []
nil-IsBytes zero = omega arith
nil-IsBytes (suc k) = nil-IsBytes k

ab-IsBytes : IsBytes ab
ab-IsBytes zero = omega arith
ab-IsBytes (suc zero) = omega arith
ab-IsBytes (suc (suc zero)) = omega arith
ab-IsBytes (suc (suc (suc zero))) = omega arith
ab-IsBytes (suc (suc (suc (suc k)))) = nil-IsBytes k

ab_long-IsBytes : IsBytes ab_long
ab_long-IsBytes zero = omega arith
ab_long-IsBytes (suc zero) = omega arith
ab_long-IsBytes (suc (suc zero)) = omega arith
ab_long-IsBytes (suc (suc (suc zero))) = omega arith
ab_long-IsBytes (suc (suc (suc (suc k)))) = nil-IsBytes k

strings_equal : strncmp ab ab_long 4 ≡ 0
unfolding strncmp
strings_equal = refl

buffers_differ : memcmp ab ab_long 4 ≡ 0xffffffff
unfolding memcmp
buffers_differ = refl

padded : strncpy buffer ab 4 ≡ 97 ∷ 98 ∷ 0 ∷ 0 ∷ []
unfolding strncpy
padded = refl

cut_off : safestrcpy buffer ab 2 ≡ 97 ∷ 0 ∷ 9 ∷ 9 ∷ []
unfolding safestrcpy
cut_off = refl

-- Moving three bytes up by one inside a buffer.
overlap : memmove (λ a. a) 11 10 3 12 ≡ 11
unfolding memmove
overlap = refl

memmove_lem_example :
    ((k : ℕ) → k < 3 → memmove (λ a. a) 11 10 3 (11 + k) ≡ 10 + k)
    × ((x : ℕ) → (x < 11) ⊎ (11 + 3 ≤ x) → memmove (λ a. a) 11 10 3 x ≡ x)
memmove_lem_example = memmove_lem (λ a. a) 11 10 3
