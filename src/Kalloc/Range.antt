-- ===== src/Kalloc/Range.antt =====
-- `freerange` and the two phases of initialisation.
use sofinal_project.Prelude.{
  ℕ, zero, suc, ◌+◌, ◌*◌, ◌/◌, ◌%◌, ◌≤◌, ◌<◌, ◌≡◌, ◌⊎◌, ◌↔◌, refl, inl, inr, true, false, Option,
  some, List, ◌∷◌, arith, leb, Bool-cases,
}
use sofinal_project.Kalloc.{Kmem, free_loop, freerange, pg_round_up}
use sofinal_project.Kalloc.FreeList.{IsPage, has, IsFree}
use sofinal_project.Kalloc.Laws.{kfree-push}

-- A whole page of the range from `p` to `vend`.
abbrev pub InRange : ℕ → ℕ → ℕ → Type 0
InRange p vend x = (x % 4096 ≡ 0) × (p ≤ x) × (x + 4096 ≤ vend)

-- The free pages after a call: the old ones and those of the range.
abbrev pub Added : ℕ → ℕ → ℕ → List ℕ → Option Kmem → Type 0
Added end p vend ps r =
    (k' : Kmem) × (qs : List ℕ) × (r ≡ some k')
    × IsFree end k' qs
    × ((x : ℕ) → (has x qs ≡ true) ↔ ((has x ps ≡ true) ⊎ InRange p vend x))

-- The range lies in the direct map of physical memory.
abbrev pub IsMapped : ℕ → ℕ → ℕ → Type 0
IsMapped end p vend = (end ≤ p) × (0x80000000 ≤ p) × (vend ≤ 0x80000000 + 0xE000000)

free_loop-Added :
    (n end p vend : ℕ) (k : Kmem) (ps : List ℕ)
    → p % 4096 ≡ 0
    → IsMapped end p vend
    → vend < p + 4096 * n + 4096
    → ((x : ℕ) → has x ps ≡ true → x < p)
    → IsFree end k ps
    → Added end p vend ps (free_loop n end p vend k)
unfolding free_loop
free_loop-Added zero end p vend k ps al ok fuel below c =
    (k, ps, refl, c, λ x. (inl, elim [ inl h ↦ h | inr r ↦ absurd (omega arith) ]))
free_loop-Added (suc n) end p vend k ps al ok fuel below c =
    elim (Bool-cases (leb (p + 4096) vend)) [
      | inl more ↦
          let fits : p + 4096 ≤ vend = ground arith in
          let out : has p ps ≡ false = elim (Bool-cases (has p ps)) [
            | inl h ↦ absurd (omega (arith, below p h))
            | inr h ↦ h
          ] in
          let page : IsPage end p = omega arith in
          let (k', e, c', same) = kfree-push end p k ps page out c in
          let (k2, qs, e2, c2, iff) =
            free_loop-Added n end (p + 4096) vend k' (p ∷ ps) (omega arith) (omega arith)
              (omega arith) (λ x h. ground (arith, below x)) c' in
          (
            k2,
            qs,
            rw (more, e) e2,
            c2,
            λ x. (λ h. ground (arith, (iff x).0 h), λ h. (iff x).1 (ground arith)),
          )
      | inr stop ↦
          (k, ps, rw stop refl, c, λ x. (inl, elim [ inl h ↦ h | inr r ↦ absurd (ground arith) ]))
    ]

-- `freerange` frees exactly the whole pages between its bounds, and does not panic, where the range
-- lies in the direct map above the kernel's end and above the pages that are free already.
pub freerange-Added :
    (end vstart vend : ℕ) (k : Kmem) (ps : List ℕ)
    → IsMapped end vstart vend
    → vstart ≤ vend
    → ((x : ℕ) → has x ps ≡ true → x < vstart)
    → IsFree end k ps
    → Added end (pg_round_up vstart) vend ps (freerange end vstart vend k)
unfolding freerange
freerange-Added end vstart vend k ps ok le below c =
    free_loop-Added (vend / 4096 + 1) end (pg_round_up vstart) vend k ps (omega arith) (omega arith)
      (omega arith) (λ x h. omega (arith, below x h)) c
