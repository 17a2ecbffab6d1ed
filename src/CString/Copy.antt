-- ===== src/CString/Copy.antt =====
-- What `strncpy` and `safestrcpy` leave in the destination.
use sofinal_project.Prelude.{
  ℕ, zero, suc, ◌≤◌, ◌<◌, ◌≡◌, refl, ap, inl, inr, List, [], ◌∷◌, arith, ◌==◌, Bool-cases, length,
}
use sofinal_project.CString.{
  first, rest, put, string_of, pad_zero, strncpy, safe_loop, safestrcpy, strlen,
}

length-pad_zero : (n : ℕ) (s : List ℕ) → length (pad_zero n s) ≡ length s
unfolding pad_zero
length-pad_zero zero s = refl
length-pad_zero (suc n) [] = refl
length-pad_zero (suc n) (c ∷ s) = ap suc (length-pad_zero n s)

-- `strncpy` into a buffer of at least `n` bytes leaves there the source string, cut off after `n`
-- bytes, and does not change the buffer's size.
pub strncpy_lem :
    (n : ℕ) (s t : List ℕ)
    → n ≤ length s
    → (string_of n (strncpy s t n) ≡ string_of n t) × (length (strncpy s t n) ≡ length s)
unfolding strncpy
strncpy_lem zero s t room = (refl, refl)
strncpy_lem (suc n) [] t room = absurd (omega arith)
strncpy_lem (suc n) (c ∷ s) t room =
    let (same, size) = strncpy_lem n s (rest t) (omega arith) in
    elim (Bool-cases (first t == 0)) [
      | inl end ↦ rw end (refl, ap suc (length-pad_zero n s))
      | inr go ↦ rw go (rw go (ap (λ l. first t ∷ l) same), ap suc size)
    ]

safe_loop_lem :
    (n : ℕ) (s t : List ℕ)
    → n < length s
    → (string_of (suc n) (safe_loop s t n) ≡ string_of n t) × (length (safe_loop s t n) ≡ length s)
unfolding safe_loop
safe_loop_lem zero [] t room = absurd (omega arith)
safe_loop_lem zero (c ∷ s) t room = (refl, refl)
safe_loop_lem (suc n) [] t room = absurd (omega arith)
safe_loop_lem (suc n) (c ∷ s) t room =
    let (same, size) = safe_loop_lem n s (rest t) (omega arith) in
    elim (Bool-cases (first t == 0)) [
      | inl end ↦ rw end (refl, ap suc (length-put s))
      | inr go ↦ rw go (rw go (ap (λ l. first t ∷ l) same), ap suc size)
    ]
  where
    length-put : (s : List ℕ) → length (put 0 s) ≡ length s
    length-put [] = refl
    length-put (x ∷ s) = refl

-- `safestrcpy` into a buffer of at least `n` bytes, `n` positive, leaves there the source string cut
-- off after `n - 1` bytes, ended by a 0 within the `n` bytes, so that `strlen` gives
-- its length. The buffer keeps its size. (`n` is written as a successor.)
pub safestrcpy_lem :
    (n : ℕ) (s t : List ℕ)
    → n < length s
    → (string_of (suc n) (safestrcpy s t (suc n)) ≡ string_of n t)
      × (strlen (safestrcpy s t (suc n)) ≡ length (string_of n t))
      × (length (safestrcpy s t (suc n)) ≡ length s)
unfolding safestrcpy strlen
safestrcpy_lem n s t room =
    let (same, size) = safe_loop_lem n s t room in (same, len n s t room, size)
  where
    len : (n : ℕ) (s t : List ℕ) → n < length s → strlen (safe_loop s t n) ≡ length (string_of n t)
    len zero [] t room = absurd (omega arith)
    len zero (c ∷ s) t room = refl
    len (suc n) [] t room = absurd (omega arith)
    len (suc n) (c ∷ s) t room = elim (Bool-cases (first t == 0)) [
      | inl end ↦ rw end refl
      | inr go ↦ rw go (ground (arith, len n s (rest t)))
    ]
