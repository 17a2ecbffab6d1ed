-- ===== src/Prelude/Search.antt =====
-- The first position of a table at which a test holds: the scan that the kernel's tables share.
use Prim.Native.Nat.{ℕ, zero, suc, ◌<◌}
use mathlib.Core.Path.{◌≡◌, refl}
use mathlib.Core.Bool.{Bool, true, false}
use mathlib.Core.List.{List, [], ◌∷◌}
use mathlib.Core.Option
use mathlib.Core.Option.{Option, none, some}
use mathlib.Core.Logic.{inl, inr}
use native.Mathlib.Omega.{arith}
use sofinal_project.Prelude.Tests.{if◌then◌else◌, ltb, ltb→lt, Bool-cases, Option-cases}
use sofinal_project.Prelude.Lists.{get_elem?}

module _ {ℓ} {A : Type ℓ} where
  unfoldable pub find_first : (A → Bool) → List A → Option ℕ
  find_first test [] = none
  find_first test (x ∷ xs) =
      let rest = find_first test xs in if test x then some 0 else Option.map suc rest

  -- `x` stands at `i` and is the first element that passes.
  pub record IsFirst (test : A → Bool) (xs : List A) (i : ℕ) (x : A) : Type ℓ where
    pub at : get_elem? xs i ≡ some x
    pub passes : test x ≡ true
    pub earlier : (j : ℕ) (y : A) → j < i → get_elem? xs j ≡ some y → test y ≡ false

  pub find_first-some :
      (test : A → Bool) (xs : List A) (i : ℕ)
      → find_first test xs ≡ some i
      → (x : A) × IsFirst test xs i x
  unfolding find_first
  find_first-some test [] i h = cc
  find_first-some test (x ∷ xs) i h = elim (Bool-cases (test x)) [
    | inl hit ↦
        let e : i ≡ 0 = ground arith in
        (x, record { at = rw e refl; passes = hit; earlier = λ j y lt g. absurd (omega arith) })
    | inr miss ↦ elim (Option-cases (find_first test xs)) [
      | inl nothing ↦ absurd (ground arith)
      | inr (k, found) ↦
          let (y, first) = find_first-some test xs k found in
          let e : i ≡ suc k = ground arith in
          (y, record { at = rw e first.at; passes = first.passes; earlier = later miss e first })
    ]
  ]
    where
      later :
          {k : ℕ} {y : A}
          → test x ≡ false
          → i ≡ suc k
          → IsFirst test xs k y
          → (j : ℕ) (z : A) → j < i
          → get_elem? (x ∷ xs) j ≡ some z
          → test z ≡ false
      later miss e first zero z lt g = ground arith
      later miss e first (suc j) z lt g = first.earlier j z (omega arith) g

  pub find_first-none :
      (test : A → Bool) (xs : List A)
      → find_first test xs ≡ none
      → (j : ℕ) (y : A) → get_elem? xs j ≡ some y
      → test y ≡ false
  unfolding find_first
  find_first-none test [] h j y g = cc
  find_first-none test (x ∷ xs) h zero y g = ground arith
  find_first-none test (x ∷ xs) h (suc j) y g = find_first-none test xs (ground arith) j y g

  -- A scan that has an element to find finds one.
  pub find_first-exists :
      (test : A → Bool) (xs : List A) (j : ℕ) (y : A)
      → get_elem? xs j ≡ some y
      → test y ≡ true
      → (i : ℕ) × (find_first test xs ≡ some i)
  unfolding find_first
  find_first-exists test [] j y g t = absurd (ground arith)
  find_first-exists test (x ∷ xs) zero y g t = (0, ground arith)
  find_first-exists test (x ∷ xs) (suc j) y g t =
      let (i, found) = find_first-exists test xs j y g t in
      elim (Bool-cases (test x)) [
        | inl hit ↦ (0, rw hit refl)
        | inr miss ↦ (suc i, rw (miss, found) refl)
      ]

  -- The scan finds the first element that passes.
  pub find_first-IsFirst :
      (test : A → Bool) (xs : List A) (i : ℕ) (x : A)
      → IsFirst test xs i x
      → find_first test xs ≡ some i
  find_first-IsFirst test xs i x first =
      let (k, found) = find_first-exists test xs i x first.at first.passes in
      let (y, other) = find_first-some test xs k found in
      elim (Bool-cases (ltb k i)) [
        | inl before ↦
            let miss : test y ≡ false = first.earlier k y (ltb→lt k i before) other.at in
            absurd (ground (arith, other.passes))
        | inr not_before ↦ elim (Bool-cases (ltb i k)) [
          | inl after ↦
              let miss : test x ≡ false = other.earlier i x (ltb→lt i k after) first.at in
              absurd (ground (arith, first.passes))
          | inr not_after ↦ let same : k ≡ i = ground arith in rw (← same) found
        ]
      ]
