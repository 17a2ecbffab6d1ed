-- ===== src/Mkfs/Bitmap.antt =====
-- The free map that mkfs.c writes, as the kernel reads it.
use mathlib.Core.Path.{subst}
use sofinal_project.Prelude.{
  ℕ, zero, suc, ◌+◌, ◌-◌, ◌*◌, ◌/◌, ◌%◌, ◌^◌, ◌≤◌, ◌<◌, ◌≡◌, ◌≢◌, inl, inr, refl, sym, ap, ◌∙◌,
  true, false, Option, none, some, arith, ltb, ◌==◌, if◌then◌else◌, update, update_self, update_ne,
  Bool-cases, ==→eq, ltb→lt, lt→ltb, min, each_below, each_below-at,
}
use sofinal_project.Fs
use sofinal_project.Fs.{Block, Fs, bpb, bsize, bit}
use sofinal_project.Fs.Bitmap.{flag, taken, Search, found, full, balloc-Search}
use sofinal_project.Mkfs.{Image, wsect, with_bit, mark_bits, balloc}

not_lt : (a b : ℕ) → ltb a b ≡ false → b ≤ a
not_lt a b h = ground (arith, h)

not_ltb : (a b : ℕ) → b ≤ a → ltb a b ≡ false
not_ltb a b h = ground (arith, h)

-- The byte whose `m` lowest bits are set.
abbrev ones : ℕ → ℕ
ones m = 2 ^ m - 1

-- Byte `a` of the map when `i` bits are set.
abbrev byte_of : ℕ → ℕ → ℕ
byte_of i a = ones (min 8 (i - 8 * a))

next_ones : each_below 8 (λ k. with_bit k (ones k) == ones (k + 1)) ≡ true
next_ones = refl

bits_of_ones :
    each_below 9 (λ m. each_below 8 (λ k. bit k (ones m) == (if ltb k m then 1 else 0))) ≡ true
bits_of_ones = refl

with_bit-ones : (k : ℕ) → k < 8 → with_bit k (ones k) ≡ ones (k + 1)
with_bit-ones k h =
    ==→eq _ _ (each_below-at 8 (λ k. with_bit k (ones k) == ones (k + 1)) k next_ones h)

bit-ones : (k m : ℕ) → k < 8 → m ≤ 8 → bit k (ones m) ≡ (if ltb k m then 1 else 0)
bit-ones k m h l = ==→eq _ _ (
    each_below-at 8 (λ k. bit k (ones m) == (if ltb k m then 1 else 0)) k
      (each_below-at 9 (λ m. each_below 8 (λ k. bit k (ones m) == (if ltb k m then 1 else 0))) m
        bits_of_ones (omega (arith, l)))
      h)

-- One more bit.
set_next :
    (i : ℕ) (buf : Block)
    → ((a : ℕ) → buf a ≡ byte_of i a)
    → (a : ℕ) → update buf (i / 8) (with_bit (i % 8) (buf (i / 8))) a ≡ byte_of (i + 1) a
set_next i buf h a = elim (Bool-cases (a == i / 8)) [
  | inl same ↦
      let e : a ≡ i / 8 = ==→eq _ _ same in
      let before : buf (i / 8) ≡ ones (i % 8) = h (i / 8) ∙ ap ones (omega arith) in
      ap (update buf (i / 8) (with_bit (i % 8) (buf (i / 8)))) e
      ∙ update_self buf (i / 8) (with_bit (i % 8) (buf (i / 8)))
      ∙ ap (with_bit (i % 8)) before
      ∙ with_bit-ones (i % 8) (omega arith)
      ∙ ap ones (omega (arith, e))
  | inr other ↦
      let ne : a ≢ i / 8 = λ e. ground (arith, other, e) in
      update_ne buf (i / 8) a (with_bit (i % 8) (buf (i / 8))) ne
      ∙ h a
      ∙ ap ones (omega (arith, ne))
]

mark_bits_lem :
    (n i : ℕ) (buf : Block)
    → ((a : ℕ) → buf a ≡ byte_of i a)
    → (a : ℕ) → mark_bits n i buf a ≡ byte_of (i + n) a
unfolding mark_bits
mark_bits_lem zero i buf h a = h a ∙ ap (λ k. byte_of k a) (omega arith)
mark_bits_lem (suc n) i buf h a =
    mark_bits_lem n (i + 1) (update buf (i / 8) (with_bit (i % 8) (buf (i / 8)))) (set_next i buf h)
      a
    ∙ ap (λ k. byte_of k a) (omega arith)

same_test : (used b : ℕ) → ltb (b % 8) (min 8 (used - 8 * (b / 8))) ≡ ltb b used
same_test used b = elim (Bool-cases (ltb b used)) [
  | inl below ↦ lt→ltb _ _ (omega (arith, ltb→lt b used below)) ∙ sym below
  | inr above ↦
      not_ltb (b % 8) (min 8 (used - 8 * (b / 8))) (omega (arith, not_lt b used above)) ∙ sym above
]

byte_of-0 : (a : ℕ) → 0 ≡ byte_of 0 a
byte_of-0 a = let none_set : 0 ≡ min 8 (0 - 8 * a) = omega arith in ap ones none_set

flag-mark_bits :
    (used b : ℕ) (fs : Fs)
    → b < bpb
    → fs.blocks fs.bmapstart ≡ mark_bits used 0 (λ i. 0)
    → flag fs b ≡ (if ltb b used then 1 else 0)
flag-mark_bits used b fs h e =
    let block : b / bpb + fs.bmapstart ≡ fs.bmapstart = omega (arith, h) in
    let index : b % bpb ≡ b = omega (arith, h) in
    let start : 0 + used ≡ used = omega arith in
    let byte : fs.blocks fs.bmapstart (b / 8) ≡ byte_of used (b / 8) =
      ap (λ d. d (b / 8)) e
      ∙ mark_bits_lem used 0 (λ i. 0) byte_of-0 (b / 8)
      ∙ ap (λ k. byte_of k (b / 8)) start in
    ap (λ i. bit (i % 8) (fs.blocks (b / bpb + fs.bmapstart) (i / 8))) index
    ∙ ap (λ j. bit (b % 8) (fs.blocks j (b / 8))) block
    ∙ ap (bit (b % 8)) byte
    ∙ bit-ones (b % 8) (min 8 (used - 8 * (b / 8))) (omega arith) (omega arith)
    ∙ ap (λ t. if t then 1 else 0) (same_test used b)

-- What the kernel allocates first.
first-Search :
    (used : ℕ) (fs : Fs) (r : Option (ℕ × Fs))
    → used < fs.size
    → ((b : ℕ) → b < fs.size → flag fs b ≡ (if ltb b used then 1 else 0))
    → Search fs 0 fs.size r
    → r ≡ some (used, taken used fs)
first-Search used fs (some found_at) h flags (found b l u e before) =
    let not_below : used ≤ b = ground (arith, e, flags b u) in
    let not_above : b ≤ used = elim (Bool-cases (ltb used b)) [
      | inl above ↦ absurd (
          before used (omega arith) (ltb→lt used b above)
            (flags used h ∙ rw (not_ltb used used (omega arith)) refl))
      | inr other ↦ ground (arith, other)
    ] in
    ap (λ x. some (x, taken x fs)) (omega (arith, not_below, not_above))
first-Search used fs none h flags (full all) =
    absurd (all used (omega arith) h (flags used h ∙ rw (not_ltb used used (omega arith)) refl))

written_map :
    (used : ℕ) (img img' : Image)
    → balloc used img ≡ some img'
    → (img'.fs.size ≡ img.fs.size) × (img'.fs.blocks img'.fs.bmapstart ≡ mark_bits used 0 (λ i. 0))
unfolding balloc
written_map used img img' e = elim (Bool-cases (ltb used (bsize * 8))) [
  | inl fits ↦
      let made : some (wsect img.fs.bmapstart (mark_bits used 0 (λ i. 0)) img) ≡ some img' =
        rw (← e, fits) refl in
      let same : wsect img.fs.bmapstart (mark_bits used 0 (λ i. 0)) img ≡ img' =
        ap (λ o. elim o [ none ↦ img | some i ↦ i ]) made in
      subst
        (λ i. (i.fs.size ≡ img.fs.size) × (i.fs.blocks i.fs.bmapstart ≡ mark_bits used 0 (λ i. 0)))
        same (refl, update_self img.fs.blocks img.fs.bmapstart (mark_bits used 0 (λ i. 0)))
  | inr over ↦ ground (arith, e, over)
]

-- In an image whose free map mkfs has written for the first `used` blocks, the first block that the kernel
-- allocates is block `used`: it follows those that mkfs has used, and is inside the file system of at most
-- as many blocks as one block of the map counts.
pub balloc-balloc :
    (used : ℕ) (img img' : Image)
    → balloc used img ≡ some img'
    → used < img.fs.size
    → img.fs.size ≤ bpb
    → Fs.balloc img'.fs ≡ some (used, taken used img'.fs)
balloc-balloc used img img' e h l =
    let (same_size, map) = written_map used img img' e in
    first-Search used img'.fs (Fs.balloc img'.fs) (omega (arith, h, same_size))
      (λ b u. flag-mark_bits used b img'.fs (omega (arith, u, same_size, l)) map)
      (balloc-Search img'.fs)
