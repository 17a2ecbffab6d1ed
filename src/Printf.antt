-- ===== src/Printf.antt =====
-- printf.c of the user programs: what `printint` and `printf` write, as the list of the bytes. The arguments
-- behind the format are a list.
pub mod Decimal
mod Tests
use sofinal_project.Prelude.{
  ℕ, zero, suc, ◌+◌, ◌-◌, ◌*◌, ◌/◌, ◌%◌, ◌^◌, Bool, true, false, ◌&&◌, ◌||◌, not, Option, none,
  some, List, [], ◌∷◌, ◌++◌, ltb, leb, ◌==◌, if◌then◌else◌,
}

-- `digits[d]`
abbrev pub digit : ℕ → ℕ
digit d = if ltb d 10 then 48 + d else 55 + d

-- The loops of `printint`, for at most `f` digits: `printed` is what the second one prints of `buf`.
unfoldable pub put_digits : ℕ → ℕ → ℕ → List ℕ → List ℕ
put_digits zero base x printed = printed
put_digits (suc f) base x printed =
    let more = put_digits f base (x / base) (digit (x % base) ∷ printed) in
    if x / base == 0 then digit (x % base) ∷ printed else more

-- `xx` is in its bit pattern. `buf` has 16 bytes.
unfoldable pub printint : ℕ → ℕ → Bool → List ℕ
unfolding put_digits
printint xx base sgn =
    if sgn && leb (2 ^ 31) xx
    then 45 ∷ put_digits 16 base (2 ^ 32 - xx) []
    else put_digits 16 base xx []

-- A word, or the string that one points to, if it is not null.
pub data Arg : Type 0 where
  word : ℕ → Arg
  string : Option (List ℕ) → Arg

-- The string that `%s` prints.
abbrev pub string_or_null : Option (List ℕ) → List ℕ
string_or_null none = 40 ∷ 110 ∷ 117 ∷ 108 ∷ 108 ∷ 41 ∷ []
string_or_null (some s) = s

-- What `%` with `c` prints, and the arguments that are left. Without an argument of the right kind
-- it is `none`.
unfoldable pub print_arg : ℕ → List Arg → Option (List ℕ × List Arg)
unfolding printint
print_arg c [] =
    if c == 100 || (c == 120 || c == 112) || (c == 115 || c == 99)
    then none
    else if c == 37
    then some (c ∷ [], [])
    else some (37 ∷ c ∷ [], [])
print_arg c (word w ∷ args) =
    if c == 100
    then some (printint w 10 true, args)
    else if c == 120 || c == 112
    then some (printint w 16 false, args)
    else if c == 115
    then none
    else if c == 99
    then some (w % 2 ^ 8 ∷ [], args)
    else if c == 37
    then some (c ∷ [], word w ∷ args)
    else some (37 ∷ c ∷ [], word w ∷ args)
print_arg c (string s ∷ args) =
    if c == 100 || (c == 120 || c == 112) || c == 99
    then none
    else if c == 115
    then some (string_or_null s, args)
    else if c == 37
    then some (c ∷ [], string s ∷ args)
    else some (37 ∷ c ∷ [], string s ∷ args)

-- The loop of `printf`: after a `%` in the state `true`.
unfoldable pub printf_loop : Bool → List ℕ → List Arg → Option (List ℕ)
unfolding print_arg
printf_loop after [] args = some []
printf_loop false (c ∷ fmt) args =
    let special = printf_loop true fmt args in
    let plain : Option (List ℕ) = elim (printf_loop false fmt args) [
      | none ↦ none
      | some out ↦ some (c ∷ out)
    ] in
    if c == 37 then special else plain
printf_loop true (c ∷ fmt) args = elim (print_arg c args) [
  | none ↦ none
  | some (out, args') ↦ elim (printf_loop false fmt args') [
    | none ↦ none
    | some out' ↦ some (out ++ out')
  ]
]

unfoldable pub printf : List ℕ → List Arg → Option (List ℕ)
unfolding printf_loop
printf fmt args = printf_loop false fmt args
