-- ===== src/Fs/Release.antt =====
-- `bfree` of a block that `balloc` has returned.
use sofinal_project.Prelude.{
  ℕ, zero, suc, ◌+◌, ◌-◌, ◌/◌, ◌%◌, ◌^◌, ◌<◌, ◌≡◌, ◌≢◌, refl, sym, ap, ◌∙◌, fun_ext, false, Option,
  none, some, arith, ◌==◌, update, update_self, update_ne,
}
use mathlib.Core.Path.{subst}
use sofinal_project.Fs.{Block, Fs, bpb, put_block, bblock, bit, bzero, mark_used, balloc, bfree}
use sofinal_project.Fs.Bitmap.{flag, taken, Search, found, balloc-Search}

pub bit_set : (k x : ℕ) → k < 8 → bit k x ≡ 0 → (bit k (x + 2 ^ k) == 0) ≡ false
bit_set zero x l h = ground (arith, h)
bit_set (suc zero) x l h = ground (arith, h)
bit_set (suc (suc zero)) x l h = ground (arith, h)
bit_set (suc (suc (suc zero))) x l h = ground (arith, h)
bit_set (suc (suc (suc (suc zero)))) x l h = ground (arith, h)
bit_set (suc (suc (suc (suc (suc zero))))) x l h = ground (arith, h)
bit_set (suc (suc (suc (suc (suc (suc zero)))))) x l h = ground (arith, h)
bit_set (suc (suc (suc (suc (suc (suc (suc zero))))))) x l h = ground (arith, h)
bit_set (suc (suc (suc (suc (suc (suc (suc (suc k)))))))) x l h = absurd (omega (arith, l))

-- The map's block `j`, with byte `i` changed and changed back, and another block set in between.
changed_back :
    (m : ℕ → Block) (j i c v w : ℕ) (z : Block)
    → j ≢ c
    → w ≡ m j i
    → update (update (update m j (update (m j) i v)) c z) j (update (update (m j) i v) i w)
      ≡ update m c z
changed_back m j i c v w z ne e = fun_ext (λ b. fun_ext (λ a. ground arith))

bfree-used :
    (fs : Fs) (c : ℕ) (d : Block)
    → fs.blocks (bblock fs c) ≡ d
    → (bit (c % bpb % 8) (d (c % bpb / 8)) == 0) ≡ false
    → bfree c fs
      ≡ some (
          put_block (bblock fs c) (update d (c % bpb / 8) (d (c % bpb / 8) - 2 ^ (c % bpb % 8))) fs)
unfolding bfree
bfree-used fs c d e h = rw (e, h) refl

bfree-taken :
    (fs : Fs) (c : ℕ) → flag fs c ≡ 0 → bblock fs c ≢ c → bfree c (taken c fs) ≡ some (bzero c fs)
unfolding bzero mark_used
bfree-taken fs c h ne =
    let j = bblock fs c in
    let i = c % bpb / 8 in
    let v = fs.blocks j i + 2 ^ (c % bpb % 8) in
    let d = update (fs.blocks j) i v in
    let is_d : (taken c fs).blocks j ≡ d =
      update_ne (update fs.blocks j d) c j (λ x. 0) ne ∙ update_self fs.blocks j d in
    let at_i : d i ≡ v = update_self (fs.blocks j) i v in
    let on : (bit (c % bpb % 8) (d i) == 0) ≡ false =
      subst (λ y. (bit (c % bpb % 8) y == 0) ≡ false) (sym at_i)
        (bit_set (c % bpb % 8) (fs.blocks j i) (omega arith) h) in
    bfree-used (taken c fs) c d is_d on
    ∙ ap (λ m. some (record fs { blocks = m }))
        (changed_back fs.blocks j i c v (d i - 2 ^ (c % bpb % 8)) (λ x. 0) ne
          (ap (λ y. y - 2 ^ (c % bpb % 8)) at_i ∙ omega arith))

allocated :
    (fs : Fs) (r : Option (ℕ × Fs)) (c : ℕ) (fs' : Fs)
    → Search fs 0 fs.size r
    → r ≡ some (c, fs')
    → c < fs.size × (flag fs c ≡ 0) × (taken c fs ≡ fs')
allocated fs (some it) c fs' (found b l u e before) h =
    let same : b ≡ c = ap (λ o. elim o [ none ↦ b | some p ↦ p.0 ]) h in
    let after : taken b fs ≡ fs' = ap (λ o. elim o [ none ↦ taken b fs | some p ↦ p.1 ]) h in
    (
      subst (λ y. y < fs.size) same u,
      subst (λ y. flag fs y ≡ 0) same e,
      subst (λ y. taken y fs ≡ fs') same after,
    )
allocated fs none c fs' s h = absurd (ground (arith, h))

-- Freeing the block that `balloc` has returned gives back the free map as it was, if the blocks of the map
-- are marked in it. The block is left cleared.
pub bfree-balloc :
    (fs : Fs) (c : ℕ) (fs' : Fs)
    → ((x : ℕ) → x < fs.size → flag fs (bblock fs x) ≢ 0)
    → balloc fs ≡ some (c, fs')
    → bfree c fs' ≡ some (bzero c fs)
bfree-balloc fs c fs' owned e =
    let (below, free, is) = allocated fs (balloc fs) c fs' (balloc-Search fs) e in
    rw (sym is)
      (bfree-taken fs c free (λ same. owned c below (subst (λ y. flag fs y ≡ 0) (sym same) free)))
