-- ===== src/Kalloc/Laws.antt =====
-- `kfree` and `kalloc` against the list of free pages.
use sofinal_project.Prelude.{
  ℕ, ◌^◌, ◌<◌, ◌≡◌, ◌≢◌, refl, inl, inr, Bool, true, false, none, some, List, [], ◌∷◌, arith, ◌==◌,
  update, ap, Bool-cases, ◌↔◌, ==_refl, eq→==,
}
use sofinal_project.Kalloc.{Memory, Kmem, fill_junk, bad_page, kfree, kalloc}
use sofinal_project.Kalloc.FreeList.{
  IsPage, has, Chain, nil, cons, IsFree, fill_junk_outside, Chain-frame, Chain-IsPage,
}

pub bad_page_iff : (end v : ℕ) → v < 2 ^ 32 → (bad_page end v ≡ false) ↔ IsPage end v
unfolding bad_page
bad_page_iff end v h = (λ e. ground arith, λ e. ground arith)

-- `kfree` panics exactly on an address that is misaligned, below the kernel's end or not backed by
-- physical memory.
pub kfree-none_iff :
    (end v : ℕ) (k : Kmem) → v < 2 ^ 32 → (kfree end v k ≡ none) ↔ (¬ (IsPage end v))
unfolding kfree
kfree-none_iff end v k h = (
  λ e p. ground (arith, (bad_page_iff end v h).1 p),
  λ np. elim (Bool-cases (bad_page end v)) [
    | inl b ↦ rw b refl
    | inr g ↦ absurd (np ((bad_page_iff end v h).0 g))
  ],
)

-- The link that `kfree` writes does not disturb the pages that were free before.
link-Chain :
    (end v : ℕ) (m : Memory) {p : ℕ} (ps : List ℕ)
    → IsPage end v
    → has v ps ≡ false
    → Chain end m p ps
    → Chain end (update (fill_junk m v) v p) p ps
link-Chain end v m {p} ps ok out c =
    Chain-frame end m (update (fill_junk m v) v p) ps (λ x h. same x h) c
  where
    same : (x : ℕ) → has x ps ≡ true → update (fill_junk m v) v p x ≡ m x
    same x h =
        let px : IsPage end x = Chain-IsPage end ps x c h in
        let ne : (x == v) ≡ false = elim (Bool-cases (x == v)) [
          | inl e ↦ ground arith
          | inr e ↦ e
        ] in
        rw ne (fill_junk_outside m v x (ground arith))

IsPage-ne-zero : (end v : ℕ) → IsPage end v → v ≢ 0
IsPage-ne-zero end v ok = omega arith

-- Freeing a page that is not free yet puts it in front of the free pages, and kmem's lock flag
-- stays as it was.
pub kfree-push :
    (end v : ℕ) (k : Kmem) (ps : List ℕ)
    → IsPage end v
    → has v ps ≡ false
    → IsFree end k ps
    → (k' : Kmem) × (kfree end v k ≡ some k') × IsFree end k' (v ∷ ps) × (k'.use_lock ≡ k.use_lock)
unfolding kfree
kfree-push end v k ps ok out c =
    let small : v < 2 ^ 32 = omega arith in
    let m' : Memory = update (fill_junk k.mem v) v k.freelist in
    (
      record k { mem = m'; freelist = v },
      rw ((bad_page_iff end v small).1 ok) refl,
      cons ok (IsPage-ne-zero end v ok) out (rw (==_refl v) (link-Chain end v k.mem ps ok out c)),
      refl,
    )

-- On an empty list `kalloc` returns 0 and changes nothing.
pub kalloc-none : (end : ℕ) (k : Kmem) → IsFree end k [] → kalloc k ≡ (0, k)
unfolding kalloc
kalloc-none end k (nil e) = rw (eq→== _ _ e) refl

kalloc-Chain :
    (end : ℕ) (u : Bool) (f p : ℕ) (m : Memory) (ps : List ℕ)
    → Chain end m f (p ∷ ps)
    → ((kalloc (record { use_lock = u; freelist = f; mem = m })).0 ≡ p)
      × IsFree end (kalloc (record { use_lock = u; freelist = f; mem = m })).1 ps
unfolding kalloc
kalloc-Chain end u f p m ps (cons ok ne out c) =
    let e : (p == 0) ≡ false = ground arith in rw e (refl, c)

-- Otherwise it returns the page that was freed last, and the others stay free.
pub kalloc-pop :
    (end : ℕ) (k : Kmem) (p : ℕ) (ps : List ℕ)
    → IsFree end k (p ∷ ps)
    → ((kalloc k).0 ≡ p) × IsFree end (kalloc k).1 ps
kalloc-pop end k p ps c = kalloc-Chain end k.use_lock k.freelist p k.mem ps c

-- A page that `kalloc` hands out is a valid page, is not null and is no longer free: until it is
-- freed, no other call returns it.
pub kalloc-fresh :
    (end : ℕ) (k : Kmem) (ps : List ℕ)
    → IsFree end k ps
    → (kalloc k).0 ≢ 0
    → (qs : List ℕ) × IsFree end (kalloc k).1 qs
      × (ps ≡ (kalloc k).0 ∷ qs)
      × IsPage end (kalloc k).0
      × (has (kalloc k).0 qs ≡ false)
kalloc-fresh end k [] c ne = absurd (ne (ap (λ r. r.0) (kalloc-none end k c)))
kalloc-fresh end k (p ∷ ps) c ne =
    let (e, rest) = kalloc-pop end k p ps c in
    (ps, rest, rw e refl, rw e (head_page c), rw e (head_out c))
  where
    head_page : {f : ℕ} → Chain end k.mem f (p ∷ ps) → IsPage end p
    head_page (cons ok ne' out c') = ok

    head_out : {f : ℕ} → Chain end k.mem f (p ∷ ps) → has p ps ≡ false
    head_out (cons ok ne' out c') = out
