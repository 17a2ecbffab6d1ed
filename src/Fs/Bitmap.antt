-- ===== src/Fs/Bitmap.antt =====
-- The free map of fs.c: `balloc` and `bfree`.
use mathlib.Core.Path.{subst}
use sofinal_project.Prelude.{
  ℕ, zero, suc, ◌+◌, ◌*◌, ◌/◌, ◌%◌, ◌≤◌, ◌<◌, ◌≡◌, ◌≢◌, ◌⊎◌, inl, inr, refl, sym, ap, ◌∙◌, true,
  false, Option, none, some, arith, ltb, ◌==◌, ==→eq, Bool-cases, Option-cases, min,
}
use sofinal_project.Fs.{Fs, bpb, bblock, bit, bzero, mark_used, balloc_bits, balloc_blocks, balloc}

-- The bit of a block in the free map.
abbrev pub flag : Fs → ℕ → ℕ
flag fs b = bit (b % bpb % 8) (fs.blocks (bblock fs b) (b % bpb / 8))

-- The block is marked, and then cleared.
abbrev pub taken : ℕ → Fs → Fs
taken b fs = bzero b (mark_used (bblock fs b) (b % bpb) fs)

-- A search for the first free block from `lo` to below `hi`.
pub data Search (fs : Fs) (lo hi : ℕ) : Option (ℕ × Fs) → Type 0 where
  found :
      (b : ℕ)
      → lo ≤ b
      → b < hi
      → flag fs b ≡ 0
      → ((x : ℕ) → lo ≤ x → x < b → flag fs x ≢ 0)
      → Search fs lo hi (some (b, taken b fs))
  full : ((x : ℕ) → lo ≤ x → x < hi → flag fs x ≢ 0) → Search fs lo hi none

from_next :
    (fs : Fs) (lo hi : ℕ)
    → flag fs lo ≢ 0
    → ((x : ℕ) → lo + 1 ≤ x → x < hi → flag fs x ≢ 0)
    → (x : ℕ) → lo ≤ x
    → x < hi
    → flag fs x ≢ 0
from_next fs lo hi h all x l u =
    let split : lo ≡ x ⊎ lo + 1 ≤ x = omega (arith, l) in
    elim split [ inl e ↦ subst (λ y. flag fs y ≢ 0) e h | inr k ↦ all x k u ]

-- One block that is not free in front of a search.
used-Search :
    (fs : Fs) (lo hi : ℕ) (r : Option (ℕ × Fs))
    → flag fs lo ≢ 0
    → Search fs (lo + 1) hi r
    → Search fs lo hi r
used-Search fs lo hi (some found_at) h (found b l u e before) =
    found b (omega (arith, l)) u e (from_next fs lo b h before)
used-Search fs lo hi none h (full all) = full (from_next fs lo hi h all)

from-Search :
    {lo lo' : ℕ} (fs : Fs) (hi : ℕ) (r : Option (ℕ × Fs))
    → lo ≡ lo'
    → Search fs lo hi r
    → Search fs lo' hi r
from-Search fs hi r e s = subst (λ l. Search fs l hi r) e s

nothing-Search : (fs : Fs) (lo hi : ℕ) → hi ≤ lo → Search fs lo hi none
nothing-Search fs lo hi h = full (λ x l u. omega (arith, h, l, u))

index_of : (b bi : ℕ) → b % bpb ≡ 0 → bi < bpb → (b + bi) % bpb ≡ bi
index_of b bi h u = omega (arith, h, u)

block_of : (fs : Fs) (b bi : ℕ) → b % bpb ≡ 0 → bi < bpb → bblock fs (b + bi) ≡ bblock fs b
block_of fs b bi h u = omega (arith, h, u)

flag_of :
    (fs : Fs) (b bi : ℕ)
    → b % bpb ≡ 0
    → bi < bpb
    → flag fs (b + bi) ≡ bit (bi % 8) (fs.blocks (bblock fs b) (bi / 8))
flag_of fs b bi h u =
    ap (λ i. bit (i % 8) (fs.blocks (bblock fs (b + bi)) (i / 8))) (index_of b bi h u)
    ∙ ap (λ j. bit (bi % 8) (fs.blocks j (bi / 8))) (block_of fs b bi h u)

taken_of :
    (fs : Fs) (b bi : ℕ)
    → b % bpb ≡ 0
    → bi < bpb
    → taken (b + bi) fs ≡ bzero (b + bi) (mark_used (bblock fs b) bi fs)
taken_of fs b bi h u =
    ap (λ i. bzero (b + bi) (mark_used (bblock fs (b + bi)) i fs)) (index_of b bi h u)
    ∙ ap (λ j. bzero (b + bi) (mark_used j bi fs)) (block_of fs b bi h u)

==→ne : (x : ℕ) → (x == 0) ≡ false → x ≢ 0
==→ne x h = ground arith

balloc_bits-Search :
    (n b bi : ℕ) (fs : Fs)
    → b % bpb ≡ 0
    → bi + n ≡ bpb
    → Search fs (b + bi) (min (b + bpb) fs.size) (balloc_bits n b bi fs)
unfolding balloc_bits
balloc_bits-Search zero b bi fs h e =
    nothing-Search fs (b + bi) (min (b + bpb) fs.size) (omega (arith, e))
balloc_bits-Search (suc n) b bi fs h e =
    let inside : ltb bi bpb ≡ true = ground (arith, e) in
    let below : bi < bpb = omega (arith, e) in
    let hi = min (b + bpb) fs.size in
    elim (Bool-cases (ltb (b + bi) fs.size)) [
      | inr over ↦ rw (inside, over) (nothing-Search fs (b + bi) hi (ground (arith, over)))
      | inl under ↦ elim (Bool-cases (bit (bi % 8) (fs.blocks (bblock fs b) (bi / 8)) == 0)) [
        | inl free ↦
            rw (inside, under, free)
              (subst (λ r. Search fs (b + bi) hi (some (b + bi, r))) (taken_of fs b bi h below)
                (found (b + bi) (omega arith) (ground (arith, under, e))
                  (flag_of fs b bi h below ∙ ==→eq _ 0 free) (λ x l u. omega (arith, l, u))))
        | inr used ↦
            rw (inside, under, used)
              (used-Search fs (b + bi) hi (balloc_bits n b (bi + 1) fs)
                (subst (λ y. y ≢ 0) (sym (flag_of fs b bi h below)) (==→ne _ used))
                (from-Search fs hi (balloc_bits n b (bi + 1) fs) (omega arith)
                  (balloc_bits-Search n b (bi + 1) fs h (omega (arith, e)))))
      ]
    ]

all_used : (fs : Fs) (lo hi : ℕ) → Search fs lo hi none → (x : ℕ) → lo ≤ x → x < hi → flag fs x ≢ 0
all_used fs lo hi (full all) = all

two_parts :
    (fs : Fs) (lo mid hi top : ℕ)
    → top ≤ hi
    → Search fs lo (min mid hi) none
    → ((x : ℕ) → mid ≤ x → x < top → flag fs x ≢ 0)
    → (x : ℕ) → lo ≤ x
    → x < top
    → flag fs x ≢ 0
two_parts fs lo mid hi top h s later x l u =
    let split : x < min mid hi ⊎ mid ≤ x = omega (arith, h, u) in
    elim split [ inl k ↦ all_used fs lo (min mid hi) s x l k | inr k ↦ later x k u ]

-- One search after another that has found nothing.
joined-Search :
    (fs : Fs) (lo mid hi : ℕ) (r : Option (ℕ × Fs))
    → lo ≤ mid
    → Search fs lo (min mid hi) none
    → Search fs mid hi r
    → Search fs lo hi r
joined-Search fs lo mid hi (some it) h s (found b l u e before) =
    found b (omega (arith, l, h)) u e (two_parts fs lo mid hi b (omega (arith, u)) s before)
joined-Search fs lo mid hi none h s (full all) =
    full (two_parts fs lo mid hi hi (omega arith) s all)

wider-Search :
    (fs : Fs) (lo mid hi : ℕ) (it : ℕ × Fs)
    → Search fs lo (min mid hi) (some it)
    → Search fs lo hi (some it)
wider-Search fs lo mid hi it (found b l u e before) = found b l (omega (arith, u)) e before

balloc_blocks-Search :
    (n b : ℕ) (fs : Fs)
    → b % bpb ≡ 0
    → fs.size ≤ b + n * bpb
    → Search fs b fs.size (balloc_blocks n b fs)
unfolding balloc_blocks
balloc_blocks-Search zero b fs h e = nothing-Search fs b fs.size (omega (arith, e))
balloc_blocks-Search (suc n) b fs h e =
    let bits : Search fs b (min (b + bpb) fs.size) (balloc_bits bpb b 0 fs) =
      from-Search fs (min (b + bpb) fs.size) (balloc_bits bpb b 0 fs) (omega arith)
        (balloc_bits-Search bpb b 0 fs h refl) in
    elim (Bool-cases (ltb b fs.size)) [
      | inr over ↦ rw over (nothing-Search fs b fs.size (ground (arith, over)))
      | inl under ↦ elim (Option-cases (balloc_bits bpb b 0 fs)) [
        | inl nothing ↦
            rw (under, nothing)
              (joined-Search fs b (b + bpb) fs.size (balloc_blocks n (b + bpb) fs) (omega arith)
                (subst (λ r. Search fs b (min (b + bpb) fs.size) r) nothing bits)
                (balloc_blocks-Search n (b + bpb) fs (omega (arith, h)) (omega (arith, e))))
        | inr (it, something) ↦
            rw (under, something)
              (wider-Search fs b (b + bpb) fs.size it
                (subst (λ r. Search fs b (min (b + bpb) fs.size) r) something bits))
      ]
    ]

-- `balloc` takes the first block below the size whose bit in the free map is 0: it sets the bit and clears
-- the block. It panics only when no bit is 0.
pub balloc-Search : (fs : Fs) → Search fs 0 fs.size (balloc fs)
unfolding balloc
balloc-Search fs = balloc_blocks-Search (fs.size / bpb + 1) 0 fs refl (omega arith)
