-- ===== src/CString/Compare.antt =====
-- `memcmp` and `strncmp` decide equality of what they compare.
use sofinal_project.Prelude.{
  ℕ, zero, suc, ◌<◌, ◌≡◌, ◌↔◌, refl, ap, inl, inr, true, false, List, ◌∷◌, arith, ◌==◌, Bool-cases,
}
use sofinal_project.CString.{first, rest, byte_at, string_of, byte_diff, memcmp, strncmp}

abbrev pub IsBytes : List ℕ → Type 0
IsBytes s = (k : ℕ) → byte_at s k < 256

byte_diff-ne-zero : (a b : ℕ) → a < 256 → b < 256 → byte_diff a b ≡ 0 → a ≡ b
byte_diff-ne-zero a b ha hb h = omega arith

-- `memcmp` returns 0 exactly when the first `n` bytes of the two buffers are equal.
pub memcmp_iff :
    (n : ℕ) (s t : List ℕ)
    → IsBytes s
    → IsBytes t
    → (memcmp s t n ≡ 0) ↔ ((k : ℕ) → k < n → byte_at s k ≡ byte_at t k)
unfolding memcmp
memcmp_iff zero s t hs ht = (λ e k lt. absurd (omega arith), λ same. refl)
memcmp_iff (suc n) s t hs ht =
    let tail = memcmp_iff n (rest s) (rest t) (λ k. hs (suc k)) (λ k. ht (suc k)) in
    elim (Bool-cases (first s == first t)) [
      | inl e ↦ rw e (
        λ h k lt. all (ground arith) (tail.0 h) k lt,
        λ same. tail.1 (λ k lt. same (suc k) (omega arith)),
      )
      | inr ne ↦ rw ne (
        λ h. absurd (ground (arith, byte_diff-ne-zero (first s) (first t) (hs 0) (ht 0) h)),
        λ same. absurd (ground (arith, same 0 (omega arith))),
      )
    ]
  where
    all :
        first s ≡ first t
        → ((k : ℕ) → k < n → byte_at (rest s) k ≡ byte_at (rest t) k)
        → (k : ℕ) → k < suc n
        → byte_at s k ≡ byte_at t k
    all e more zero lt = e
    all e more (suc k) lt = more k (omega arith)

-- `strncmp` returns 0 exactly when the two strings, each cut off after `n` bytes, are equal.
pub strncmp_iff :
    (n : ℕ) (p q : List ℕ)
    → IsBytes p
    → IsBytes q
    → (strncmp p q n ≡ 0) ↔ (string_of n p ≡ string_of n q)
unfolding strncmp
strncmp_iff zero p q hp hq = (λ e. refl, λ same. refl)
strncmp_iff (suc n) p q hp hq =
    let (to, from) = strncmp_iff n (rest p) (rest q) (λ k. hp (suc k)) (λ k. hq (suc k)) in
    elim (Bool-cases (first p == first q)) [
      | inl e ↦ elim (Bool-cases (first p == 0)) [
        | inl end ↦
            let end' : (first q == 0) ≡ true = ground arith in
            rw (end, end') (λ _. refl, λ _. ground arith)
        | inr go ↦
            let go' : (first q == 0) ≡ false = ground arith in
            let same : first p ≡ first q = ground arith in
            rw (go, go', e) (λ h. rw same (ap (λ l. first q ∷ l) (to h)), λ h. from (ground arith))
      ]
      | inr ne ↦ (
        λ h. absurd (ground (arith, byte_diff-ne-zero (first p) (first q) (hp 0) (hq 0))),
        λ h. absurd (ground arith),
      )
    ]
