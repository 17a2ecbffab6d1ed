-- ===== src/Shell/Tokens.antt =====
-- How much of the line the tokenizer takes.
use mathlib.Core.Path.{subst}
use sofinal_project.Prelude.{
  ℕ, suc, ◌≤◌, ◌<◌, ◌≡◌, ◌≢◌, refl, ap, ◌∙◌, inl, inr, true, false, [], ◌∷◌, arith, ◌==◌, length,
  Bool-cases,
}
use sofinal_project.Shell.{
  Text, one_of, whitespace, symbols, skip_space, in_word, split_word, after_arrow, token_at,
  gettoken, starts_with, peek,
}

pub length-skip_space : (s : Text) → length (skip_space s) ≤ length s
unfolding skip_space
length-skip_space [] = omega arith
length-skip_space (c ∷ s) = elim (Bool-cases (one_of whitespace c)) [
  | inl space ↦ rw space (omega (arith, length-skip_space s))
  | inr other ↦ rw other (omega arith)
]

skip_space-skip_space : (s : Text) → skip_space (skip_space s) ≡ skip_space s
unfolding skip_space
skip_space-skip_space [] = refl
skip_space-skip_space (c ∷ s) = elim (Bool-cases (one_of whitespace c)) [
  | inl space ↦ rw space (skip_space-skip_space s)
  | inr other ↦ rw (other, skip_space, other) refl
]

length-split_word : (s : Text) → length (split_word s).1 ≤ length s
unfolding split_word
length-split_word [] = omega arith
length-split_word (c ∷ s) = elim (Bool-cases (in_word c)) [
  | inl inside ↦ rw inside (omega (arith, length-split_word s))
  | inr outside ↦ rw outside (omega arith)
]

-- What does not start with a space.
abbrev pub IsTrimmed : Text → Type 0
IsTrimmed [] = Unit
IsTrimmed (c ∷ s) = one_of whitespace c ≡ false

skip_space-IsTrimmed : (s : Text) → IsTrimmed (skip_space s)
unfolding skip_space
skip_space-IsTrimmed [] = tt
skip_space-IsTrimmed (c ∷ s) = elim (Bool-cases (one_of whitespace c)) [
  | inl space ↦ rw space (skip_space-IsTrimmed s)
  | inr other ↦ rw other other
]

length-after_arrow : (s : Text) → length (after_arrow s).2 ≤ length s
length-after_arrow [] = omega arith
length-after_arrow (d ∷ t) = ground arith

token_at-shorter :
    (c : ℕ) (s : Text) → one_of whitespace c ≡ false → length (token_at (c ∷ s)).2 ≤ length s
unfolding token_at split_word
token_at-shorter c s head = elim (Bool-cases (c == 62)) [
  | inl arrow ↦ rw arrow (length-after_arrow s)
  | inr plain ↦ elim (Bool-cases (one_of symbols c)) [
    | inl symbol ↦ rw (plain, symbol) (omega arith)
    | inr letter ↦ rw (plain, letter, head) (length-split_word s)
  ]
]

-- A token is never empty.
pub gettoken-shorter :
    (s : Text) (c : ℕ) (t : Text) → skip_space s ≡ c ∷ t → length (gettoken s).2 < length s
unfolding gettoken
gettoken-shorter s c t e =
    let head : one_of whitespace c ≡ false = subst IsTrimmed e (skip_space-IsTrimmed s) in
    let some_text : suc (length t) ≤ length s = omega (arith, length-skip_space s, ap length e) in
    let shorter : length (token_at (skip_space s)).2 ≤ length t =
      rw e (token_at-shorter c t head) in
    omega (arith, length-skip_space (token_at (skip_space s)).2)

-- Where `peek` sees one of its tokens, `gettoken` takes it.
pub gettoken-peek :
    (s toks : Text) → (peek s toks).0 ≡ true → length (gettoken (peek s toks).1).2 < length s
unfolding peek
gettoken-peek s toks hit = go (skip_space s) refl hit
  where
    go :
        (u : Text)
        → skip_space s ≡ u
        → starts_with u toks ≡ true
        → length (gettoken (skip_space s)).2 < length s
    go [] e h = cc
    go (c ∷ t) e h = omega (
      arith,
      gettoken-shorter (skip_space s) c t (skip_space-skip_space s ∙ e),
      length-skip_space s,
    )

-- So it does with any token but the end of the line.
pub gettoken-some : (s : Text) → (gettoken s).0 ≢ 0 → length (gettoken s).2 < length s
unfolding gettoken
gettoken-some s ne = go (skip_space s) refl
  where
    go : (u : Text) → skip_space s ≡ u → length (gettoken s).2 < length s
    go [] e = absurd (ne (rw e refl))
    go (c ∷ t) e = gettoken-shorter s c t e

pub gettoken-le : (s : Text) → length (gettoken s).2 ≤ length s
unfolding gettoken
gettoken-le s = go (skip_space s) refl
  where
    go : (u : Text) → skip_space s ≡ u → length (gettoken s).2 ≤ length s
    go [] e = rw e (omega arith)
    go (c ∷ t) e = omega (arith, gettoken-shorter s c t e)

pub peek-le : (s toks : Text) → length (peek s toks).1 ≤ length s
unfolding peek
peek-le s toks = length-skip_space s
