-- ===== src/Fs/Allocation.antt =====
-- What `balloc` of fs.c does to the disk.
use sofinal_project.Prelude.{
  ℕ, ◌+◌, ◌/◌, ◌%◌, ◌^◌, ◌<◌, ◌≡◌, ◌≢◌, ◌⊎◌, inl, inr, refl, ap, ◌∙◌, false, Option, none, some,
  arith, ◌==◌, update, update_self, update_ne,
}
use sofinal_project.Fs.{Fs, bpb, bblock, bit, bzero, mark_used, balloc}
use sofinal_project.Fs.Bitmap.{flag, taken, Search, found, full, balloc-Search}
use sofinal_project.Fs.Release.{bit_set}

-- Block `b` is cleared, and in the block of the map that counts it only its byte changes, by the bit of `b`, which
-- is set afterwards. That block of the map is not `b` itself.
pub record IsAllocated (b : ℕ) (fs fs' : Fs) : Type 0 where
  pub cleared : (i : ℕ) → fs'.blocks b i ≡ 0
  pub marked : flag fs' b ≡ 1
  pub byte :
      fs'.blocks (bblock fs b) (b % bpb / 8) ≡ fs.blocks (bblock fs b) (b % bpb / 8) + 2 ^ (b % 8)
  pub other_bytes :
      (i : ℕ) → i ≢ b % bpb / 8 → fs'.blocks (bblock fs b) i ≡ fs.blocks (bblock fs b) i
  pub other_blocks : (c i : ℕ) → c ≢ b → c ≢ bblock fs b → fs'.blocks c i ≡ fs.blocks c i
  pub layout :
      (fs'.size ≡ fs.size)
      × (fs'.ninodes ≡ fs.ninodes)
      × (fs'.inodestart ≡ fs.inodestart)
      × (fs'.bmapstart ≡ fs.bmapstart)

bit_of : (k x : ℕ) → (bit k x == 0) ≡ false → bit k x ≡ 1
bit_of k x h = ground (arith, h)

taken-IsAllocated :
    (b : ℕ) (fs : Fs) → bblock fs b ≢ b → flag fs b ≡ 0 → IsAllocated b fs (taken b fs)
unfolding bzero mark_used
taken-IsAllocated b fs apart free =
    let j = bblock fs b in
    let i = b % bpb / 8 in
    let d = update (fs.blocks j) i (fs.blocks j i + 2 ^ (b % bpb % 8)) in
    let map : (taken b fs).blocks j ≡ d =
      update_ne (update fs.blocks j d) b j (λ x. 0) apart ∙ update_self fs.blocks j d in
    let set : (taken b fs).blocks j i ≡ fs.blocks j i + 2 ^ (b % bpb % 8) =
      ap (λ m. m i) map ∙ update_self (fs.blocks j) i (fs.blocks j i + 2 ^ (b % bpb % 8)) in
    let same : b % bpb % 8 ≡ b % 8 = omega arith in
    record {
      cleared = λ x. ap (λ m. m x) (update_self (update fs.blocks j d) b (λ x. 0));
      marked = bit_of (b % bpb % 8) ((taken b fs).blocks j i) (
          ap (λ y. bit (b % bpb % 8) y == 0) set
          ∙ bit_set (b % bpb % 8) (fs.blocks j i) (omega arith) free);
      byte = set ∙ ap (λ k. fs.blocks j i + 2 ^ k) same;
      other_bytes = λ x ne.
          ap (λ m. m x) map ∙ update_ne (fs.blocks j) i x (fs.blocks j i + 2 ^ (b % bpb % 8)) ne;
      other_blocks = λ c x ne ne'.
          ap (λ m. m x)
            (update_ne (update fs.blocks j d) b c (λ x. 0) ne ∙ update_ne fs.blocks j c d ne');
      layout = (refl, refl, refl, refl);
    }

-- The first block whose bit is 0 is allocated, or every bit is set and the call panics.
abbrev pub Allocates : Fs → Option (ℕ × Fs) → Type 0
Allocates fs r =
    ((b : ℕ) × (fs' : Fs) × (r ≡ some (b, fs'))
      × (b < fs.size)
      × (flag fs b ≡ 0)
      × ((x : ℕ) → x < b → flag fs x ≢ 0)
      × IsAllocated b fs fs')
    ⊎ ((r ≡ none) × ((x : ℕ) → x < fs.size → flag fs x ≢ 0))

Search-Allocates :
    (fs : Fs) (r : Option (ℕ × Fs))
    → ((b : ℕ) → b < fs.size → flag fs (bblock fs b) ≢ 0)
    → Search fs 0 fs.size r
    → Allocates fs r
Search-Allocates fs (some it) owned (found b l u free before) = inl (
  b,
  taken b fs,
  refl,
  u,
  free,
  λ x lt. before x (omega arith) lt,
  taken-IsAllocated b fs (λ e. owned b u (ap (flag fs) e ∙ free)) free,
)
Search-Allocates fs none owned (full all) = inr (refl, λ x lt. all x (omega arith) lt)

-- Where the blocks of the free map are marked in it themselves, `balloc` allocates the first block below the size
-- whose bit is 0: it sets that bit, clears the block, and changes nothing else on the disk. It panics
-- only when no block has the bit 0.
pub balloc-Allocates :
    (fs : Fs) → ((b : ℕ) → b < fs.size → flag fs (bblock fs b) ≢ 0) → Allocates fs (balloc fs)
balloc-Allocates fs owned = Search-Allocates fs (balloc fs) owned (balloc-Search fs)
