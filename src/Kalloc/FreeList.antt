-- ===== src/Kalloc/FreeList.antt =====
-- The free list as a family: the pages that the links lead through, and its stability.
use sofinal_project.Prelude.{
  ℕ, zero, suc, ◌+◌, ◌-◌, ◌*◌, ◌%◌, ◌^◌, ◌≤◌, ◌<◌, ◌≡◌, ◌≢◌, ◌⊎◌, refl, Bool, true, false, ◌||◌,
  List, [], ◌∷◌, arith, ◌==◌, update, ◌∙◌,
}
use sofinal_project.Kalloc.{Memory, Kmem, stosl, fill_junk}

-- An address that `kfree` accepts.
abbrev pub IsPage : ℕ → ℕ → Type 0
IsPage end v =
    (v % 4096 ≡ 0) × (end ≤ v) × (v < 2 ^ 32) × ((v + 2 ^ 32 - 0x80000000) % 2 ^ 32 < 0xE000000)

abbrev pub has : ℕ → List ℕ → Bool
has a [] = false
has a (p ∷ ps) = a == p || has a ps

-- From `p` the links lead through the distinct pages `ps` to the null pointer.
pub data Chain (end : ℕ) (m : Memory) : ℕ → List ℕ → Type 0 where
  nil : {p : ℕ} → p ≡ 0 → Chain end m p []
  cons :
      {p : ℕ} {ps : List ℕ}
      → IsPage end p
      → p ≢ 0
      → has p ps ≡ false
      → Chain end m (m p) ps
      → Chain end m p (p ∷ ps)

abbrev pub IsFree : ℕ → Kmem → List ℕ → Type 0
IsFree end k ps = Chain end k.mem k.freelist ps

-- A word outside the filled range keeps its value.
pub stosl_outside :
    (m : Memory) (a w cnt x : ℕ) → (x < a) ⊎ (a + 4 * cnt ≤ x) → stosl m a w cnt x ≡ m x
unfolding stosl
stosl_outside m a w zero x h = refl
stosl_outside m a w (suc cnt) x h =
    stosl_outside (update m a w) (a + 4) w cnt x (omega arith) ∙ ground arith

pub fill_junk_outside : (m : Memory) (v x : ℕ) → (x < v) ⊎ (v + 4096 ≤ x) → fill_junk m v x ≡ m x
unfolding fill_junk
fill_junk_outside m v x h = stosl_outside m v 0x01010101 1024 x h

-- A chain survives any change that spares its own pages' first words.
pub Chain-frame :
    (end : ℕ) (m m' : Memory) {p : ℕ} (ps : List ℕ)
    → ((x : ℕ) → has x ps ≡ true → m' x ≡ m x)
    → Chain end m p ps
    → Chain end m' p ps
Chain-frame end m m' [] same (nil e) = nil e
Chain-frame end m m' (p ∷ ps) same (cons ok ne out c) =
    cons ok ne out
      (rw (same p (ground arith)) (Chain-frame end m m' ps (λ x h. same x (ground arith)) c))

-- Every page of a chain is one that `kfree` accepts.
pub Chain-IsPage :
    (end : ℕ) {m : Memory} {p : ℕ} (ps : List ℕ) (x : ℕ)
    → Chain end m p ps
    → has x ps ≡ true
    → IsPage end x
Chain-IsPage end [] x (nil e) h = cc
Chain-IsPage end (p ∷ ps) x (cons ok ne out c) h = ground (arith, Chain-IsPage end ps x c)
