-- ===== src/Bcache/Lookup.antt =====
-- What `bget` finds.
use sofinal_project.Prelude.{
  ℕ, suc, ◌+◌, ◌≤◌, ◌≡◌, refl, ◌∙◌, inl, inr, ◌&&◌, none, some, List, [], ◌∷◌, arith, ◌==◌,
  if◌then◌else◌, Bool-cases, Option-cases,
}
use sofinal_project.Bcache.{Buf, caches, bget_cached, bget_recycle, bget}

-- The number of buffers that cache a block.
unfoldable pub copies : ℕ → ℕ → List Buf → ℕ
copies dev blockno [] = 0
copies dev blockno (b ∷ bs) =
    let others = copies dev blockno bs in if caches dev blockno b then suc others else others

-- All references together.
pub total_refs : List Buf → ℕ
total_refs [] = 0
total_refs (b ∷ bs) = b.refcnt + total_refs bs

cached-some :
    (dev blockno d n : ℕ) (bs : List Buf) (b : Buf) (cs : List Buf)
    → bget_cached dev blockno bs ≡ some (b, cs)
    → (b.dev ≡ dev)
      × (b.blockno ≡ blockno)
      × (copies d n cs ≡ copies d n bs)
      × (total_refs cs ≡ total_refs bs + 1)
unfolding bget_cached copies total_refs
cached-some dev blockno d n [] b cs e = absurd (ground arith)
cached-some dev blockno d n (c ∷ bs) b cs e = elim (Bool-cases (caches dev blockno c)) [
  | inl here ↦ ground arith
  | inr elsewhere ↦ elim (Option-cases (bget_cached dev blockno bs)) [
    | inl nowhere ↦ absurd (ground (arith, nowhere))
    | inr ((b', cs'), found) ↦
        let ih : (b'.dev ≡ dev)
            × (b'.blockno ≡ blockno)
            × (copies d n cs' ≡ copies d n bs)
            × (total_refs cs' ≡ total_refs bs + 1) =
          cached-some dev blockno d n bs b' cs' found in
        ground (arith, found, ih)
  ]
]

cached-none :
    (dev blockno : ℕ) (bs : List Buf)
    → bget_cached dev blockno bs ≡ none
    → copies dev blockno bs ≡ 0
unfolding bget_cached copies
cached-none dev blockno [] e = refl
cached-none dev blockno (c ∷ bs) e = elim (Option-cases (bget_cached dev blockno bs)) [
  | inl nowhere ↦ ground (arith, cached-none dev blockno bs nowhere)
  | inr (x, found) ↦ absurd (ground (arith, found))
]

recycle-some :
    (dev blockno d n : ℕ) (bs : List Buf) (b : Buf) (cs : List Buf)
    → bget_recycle dev blockno bs ≡ some (b, cs)
    → (b.dev ≡ dev)
      × (b.blockno ≡ blockno)
      × (copies d n cs ≤ copies d n bs + (if dev == d && blockno == n then 1 else 0))
      × (total_refs cs ≡ total_refs bs + 1)
unfolding bget_recycle copies total_refs
recycle-some dev blockno d n [] b cs e = absurd (ground arith)
recycle-some dev blockno d n (c ∷ bs) b cs e = elim (Option-cases (bget_recycle dev blockno bs)) [
  | inl nowhere ↦ ground (arith, nowhere)
  | inr ((b', cs'), found) ↦
      let ih : (b'.dev ≡ dev)
          × (b'.blockno ≡ blockno)
          × (copies d n cs' ≤ copies d n bs + (if dev == d && blockno == n then 1 else 0))
          × (total_refs cs' ≡ total_refs bs + 1) =
        recycle-some dev blockno d n bs b' cs' found in
      ground (arith, found, ih)
]

-- If `bget` returns a buffer, it is for the block asked for, all references together are one more than
-- before, and a block that had at most one buffer still has at most one.
pub bget_unique :
    (dev blockno d n : ℕ) (bs : List Buf) (b : Buf) (cs : List Buf)
    → bget dev blockno bs ≡ some (b, cs)
    → copies d n bs ≤ 1
    → (b.dev ≡ dev)
      × (b.blockno ≡ blockno)
      × (copies d n cs ≤ 1)
      × (total_refs cs ≡ total_refs bs + 1)
unfolding bget
bget_unique dev blockno d n bs b cs e one = elim (Option-cases (bget_cached dev blockno bs)) [
  | inl nowhere ↦
      let fresh : copies dev blockno bs ≡ 0 = cached-none dev blockno bs nowhere in
      let r : bget_recycle dev blockno bs ≡ some (b, cs) = ground (arith, nowhere) in
      let (x, y, z, w) = recycle-some dev blockno d n bs b cs r in
      elim (Bool-cases (dev == d && blockno == n)) [
        | inl same ↦
            let d_same : dev ≡ d = ground arith in
            let n_same : blockno ≡ n = ground arith in
            let still : copies d n bs ≡ 0 = rw (← d_same, ← n_same) fresh in (x, y, ground arith, w)
        | inr other ↦ (x, y, ground arith, w)
      ]
  | inr ((b', cs'), found) ↦
      let r : bget_cached dev blockno bs ≡ some (b, cs) = found ∙ ground (arith, found) in
      let (x, y, z, w) = cached-some dev blockno d n bs b cs r in (x, y, omega arith, w)
]
