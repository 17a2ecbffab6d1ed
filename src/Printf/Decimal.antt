-- ===== src/Printf/Decimal.antt =====
-- The decimal digits that `printint` of printf.c writes, read by `atoi` of ulib.c.
use sofinal_project.Prelude.{
  ℕ, zero, suc, ◌+◌, ◌*◌, ◌/◌, ◌%◌, ◌^◌, ◌<◌, ◌≡◌, ap, ◌∙◌, inl, inr, true, false, ◌&&◌, List, [],
  ◌∷◌, arith, leb, ◌==◌, Bool-cases,
}
use sofinal_project.Ulib.{atoi, atoi_loop}
use sofinal_project.Printf.{digit, put_digits, printint}

-- 10 to the power of `f`.
abbrev power : ℕ → ℕ
power zero = 1
power (suc f) = 10 * power f

digit_small : (d : ℕ) → d < 10 → digit d ≡ 48 + d
digit_small d h = ground (arith, h)

is_digit : (d : ℕ) → d < 10 → (leb 48 (48 + d) && leb (48 + d) 57) ≡ true
is_digit d h = ground (arith, h)

-- A digit is read as what it stands for.
atoi_loop-digit :
    (n d : ℕ) (more : List ℕ)
    → d < 10
    → n * 10 + d < 2 ^ 32
    → atoi_loop n (digit d ∷ more) ≡ atoi_loop (n * 10 + d) more
unfolding atoi_loop
atoi_loop-digit n d more h u =
    rw (digit_small d h, is_digit d h) (ap (λ m. atoi_loop m more) (omega (arith, u)))

atoi_loop-put_digits :
    (f x : ℕ) (more : List ℕ)
    → x < power f
    → x < 2 ^ 32
    → atoi_loop 0 (put_digits f 10 x more) ≡ atoi_loop x more
unfolding put_digits
atoi_loop-put_digits zero x more h u = ap (λ n. atoi_loop n more) (omega (arith, h))
atoi_loop-put_digits (suc f) x more h u = elim (Bool-cases (x / 10 == 0)) [
  | inl small ↦ rw small (
      atoi_loop-digit 0 (x % 10) more (omega arith) (omega arith)
      ∙ ap (λ n. atoi_loop n more) (ground (arith, small)))
  | inr large ↦ rw large (
      atoi_loop-put_digits f (x / 10) (digit (x % 10) ∷ more) (omega (arith, h)) (omega (arith, u))
      ∙ atoi_loop-digit (x / 10) (x % 10) more (omega arith) (omega (arith, u))
      ∙ ap (λ n. atoi_loop n more) (omega arith))
]

-- `atoi` reads back the digits that `printint` writes for any unsigned number in base 10.
pub atoi-printint : (x : ℕ) → x < 2 ^ 32 → atoi (printint x 10 false) ≡ x
unfolding atoi printint atoi_loop
atoi-printint x h = atoi_loop-put_digits 16 x [] (omega (arith, h)) h
