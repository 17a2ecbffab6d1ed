-- ===== src/CString/Move.antt =====
-- `memmove` copies right whether or not its buffers overlap.
use sofinal_project.Prelude.{
  ℕ, zero, suc, ◌+◌, ◌≤◌, ◌<◌, ◌≡◌, ◌⊎◌, refl, ◌∙◌, inl, inr, false, ◌&&◌, arith, ltb, ◌==◌, update,
  update_self, update_ne, Bool-cases, ap,
}
use sofinal_project.CString.{copy_up, copy_down, memmove}

copy_up-outside : (m : ℕ → ℕ) (d s n x : ℕ) → (x < d) ⊎ (d + n ≤ x) → copy_up m d s n x ≡ m x
unfolding copy_up
copy_up-outside m d s zero x h = refl
copy_up-outside m d s (suc n) x h =
    copy_up-outside (update m d (m s)) (d + 1) (s + 1) n x (omega arith) ∙ ground arith

copy_down-outside : (m : ℕ → ℕ) (d s n x : ℕ) → (x < d) ⊎ (d + n ≤ x) → copy_down m d s n x ≡ m x
unfolding copy_down
copy_down-outside m d s zero x h = refl
copy_down-outside m d s (suc n) x h =
    copy_down-outside (update m (d + n) (m (s + n))) d s n x (omega arith) ∙ ground arith

-- Upwards is right unless the destination starts inside the source, behind its start.
copy_up-inside :
    (m : ℕ → ℕ) (d s n k : ℕ) → k < n → (d ≤ s) ⊎ (s + n ≤ d) → copy_up m d s n (d + k) ≡ m (s + k)
unfolding copy_up
copy_up-inside m d s zero k lt apart = absurd (omega arith)
copy_up-inside m d s (suc n) zero lt apart =
    copy_up-outside (update m d (m s)) (d + 1) (s + 1) n (d + 0) (omega arith)
    ∙ ap (update m d (m s)) (omega arith)
    ∙ update_self m d (m s)
    ∙ ap m (omega arith)
copy_up-inside m d s (suc n) (suc k) lt apart =
    ap (copy_up (update m d (m s)) (d + 1) (s + 1) n) (omega arith)
    ∙ copy_up-inside (update m d (m s)) (d + 1) (s + 1) n k (omega arith) (omega arith)
    ∙ update_ne m d (s + 1 + k) (m s) (omega arith)
    ∙ ap m (omega arith)

-- Downwards is right unless the source starts inside the destination, behind its start.
copy_down-inside :
    (m : ℕ → ℕ) (d s n k : ℕ)
    → k < n
    → (s ≤ d) ⊎ (d + n ≤ s)
    → copy_down m d s n (d + k) ≡ m (s + k)
unfolding copy_down
copy_down-inside m d s zero k lt apart = absurd (omega arith)
copy_down-inside m d s (suc n) k lt apart = elim (Bool-cases (k == n)) [
  | inl last ↦
      let e : k ≡ n = ground arith in
      copy_down-outside (update m (d + n) (m (s + n))) d s n (d + k) (omega arith)
      ∙ ap (update m (d + n) (m (s + n))) (omega arith)
      ∙ update_self m (d + n) (m (s + n))
      ∙ ap m (omega arith)
  | inr below ↦
      copy_down-inside (update m (d + n) (m (s + n))) d s n k (ground arith) (omega arith)
      ∙ update_ne m (d + n) (s + k) (m (s + n)) (ground arith)
]

-- After `memmove` the destination holds what the source held before, byte for byte, and every byte
-- outside the destination is as before, however the two buffers overlap.
pub memmove_lem :
    (m : ℕ → ℕ) (dst src n : ℕ)
    → ((k : ℕ) → k < n → memmove m dst src n (dst + k) ≡ m (src + k))
      × ((x : ℕ) → (x < dst) ⊎ (dst + n ≤ x) → memmove m dst src n x ≡ m x)
unfolding memmove
memmove_lem m dst src n = elim (Bool-cases (ltb src dst && ltb dst (src + n))) [
  | inl down ↦ rw down (
    λ k lt. copy_down-inside m dst src n k lt (inl (ground arith)),
    λ x out. copy_down-outside m dst src n x out,
  )
  | inr up ↦ rw up (
    λ k lt. copy_up-inside m dst src n k lt (apart up),
    λ x out. copy_up-outside m dst src n x out,
  )
]
  where
    apart : (ltb src dst && ltb dst (src + n)) ≡ false → (dst ≤ src) ⊎ (src + n ≤ dst)
    apart h = elim (Bool-cases (ltb src dst)) [
      | inl before ↦ inr (ground arith)
      | inr behind ↦ inl (ground arith)
    ]
