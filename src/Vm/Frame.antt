-- ===== src/Vm/Frame.antt =====
-- A change of memory outside the directory and its tables changes no mapping.
use sofinal_project.Prelude.{
  ℕ, ◌+◌, ◌*◌, ◌%◌, ◌<◌, ◌≡◌, ◌≢◌, refl, sym, ap, ◌∙◌, inl, inr, Bool, true, false, Option, none,
  some, List, ◌∷◌, arith, if◌then◌else◌, update, update_ne, Bool-cases, eq→==,
}
use sofinal_project.Kalloc.{Memory, Kmem, kalloc, kfree, fill_junk, bad_page}
use sofinal_project.Kalloc.FreeList.{
  IsPage, has, Chain, Chain-frame, Chain-IsPage, fill_junk_outside,
}
use sofinal_project.Kalloc.Laws.{kalloc-pop}
use sofinal_project.Vm.{pdx, ptx, is_present, pte_addr, p2v, clear_page}
use sofinal_project.Vm.Space.{pde, table, entry_at, IsSpace}
use sofinal_project.Vm.Walk.{kalloc-mem, clear_page_other, Chain-head_out}

-- Only the page `p` may differ.
abbrev pub SameExcept : ℕ → Memory → Memory → Type 0
SameExcept p m m' = (q j : ℕ) → q % 4096 ≡ 0 → q ≢ p → j < 1024 → m' (q + 4 * j) ≡ m (q + 4 * j)

-- The page `p` is neither the directory nor a table.
pub record IsOutside (pgdir : ℕ) (m : Memory) (p : ℕ) : Type 0 where
  pub not_root : pgdir ≢ p
  pub not_table : (i : ℕ) → i < 1024 → is_present (pde m pgdir i) ≡ true → table m pgdir i ≢ p

module _ (end pgdir : ℕ) (k : Kmem) (ps : List ℕ) (s : IsSpace end pgdir k ps) (p : ℕ) (m' : Memory)
    (same : SameExcept p k.mem m') (out : IsOutside pgdir k.mem p) where
  pde-SameExcept : (i : ℕ) → i < 1024 → pde m' pgdir i ≡ pde k.mem pgdir i
  pde-SameExcept i lt = same pgdir i (s.root.0) out.not_root lt

  pub entry_at-SameExcept : (va : ℕ) → entry_at m' pgdir va ≡ entry_at k.mem pgdir va
  unfolding entry_at
  entry_at-SameExcept va =
      let lt : pdx va < 1024 = omega arith in
      let e : pde m' pgdir (pdx va) ≡ pde k.mem pgdir (pdx va) = pde-SameExcept (pdx va) lt in
      elim (Bool-cases (is_present (pde k.mem pgdir (pdx va)))) [
        | inr nowhere ↦ rw (e, nowhere) refl
        | inl there ↦
            let (page, used, nr) = s.tables (pdx va) lt there in
            rw (e, there)
              (same (table k.mem pgdir (pdx va)) (ptx va) (page.0) (out.not_table (pdx va) lt there)
                (omega arith))
      ]

  pub IsSpace-SameExcept :
      (u : Bool) (f : ℕ) (qs : List ℕ)
      → Chain end m' f qs
      → has pgdir qs ≡ false
      → ((i : ℕ)
          → i < 1024
          → is_present (pde k.mem pgdir i) ≡ true
          → has (table k.mem pgdir i) qs ≡ false)
      → IsSpace end pgdir (record { use_lock = u; freelist = f; mem = m' }) qs
  IsSpace-SameExcept u f qs c root_used used = record {
    free = c;
    root = s.root;
    root_used = root_used;
    tables = λ j lj here.
        let e : pde m' pgdir j ≡ pde k.mem pgdir j = pde-SameExcept j lj in
        let old : is_present (pde k.mem pgdir j) ≡ true = ap is_present (sym e) ∙ here in
        rw e ((s.tables j lj old).0, used j lj old, (s.tables j lj old).2);
    distinct = λ a b la lb ha hb e.
        let ea : pde m' pgdir a ≡ pde k.mem pgdir a = pde-SameExcept a la in
        let eb : pde m' pgdir b ≡ pde k.mem pgdir b = pde-SameExcept b lb in
        s.distinct a b la lb (ap is_present (sym ea) ∙ ha) (ap is_present (sym eb) ∙ hb)
          (ap (λ w. p2v (pte_addr w)) (sym ea) ∙ e ∙ ap (λ w. p2v (pte_addr w)) eb);
  }

-- A free page is outside.
pub IsOutside-free :
    (end pgdir : ℕ) (k : Kmem) (p : ℕ) (qs : List ℕ)
    → IsSpace end pgdir k (p ∷ qs)
    → IsOutside pgdir k.mem p
IsOutside-free end pgdir k p qs s = record {
  not_root = λ e. ground (arith, s.root_used, eq→== _ _ e);
  not_table =
      λ i lt here e. let (page, used, nr) = s.tables i lt here in ground (arith, used, eq→== _ _ e);
}

-- `kalloc` and a `memset` of its page.
unfoldable pub cleared : Kmem → ℕ → Kmem
cleared k p = record (kalloc k).1 { mem = clear_page (kalloc k).1.mem p }

module _ (end pgdir : ℕ) (k : Kmem) (p : ℕ) (qs : List ℕ) (s : IsSpace end pgdir k (p ∷ qs)) where
  pub fresh : IsPage end p
  fresh = Chain-IsPage end (p ∷ qs) p s.free (ground arith)

  pub cleared-SameExcept : SameExcept p k.mem (cleared k p).mem
  unfolding cleared
  cleared-SameExcept q j hq ne lt =
      clear_page_other (kalloc k).1.mem p q j (fresh.0) hq ne lt
      ∙ ap (λ m. m (q + 4 * j)) (kalloc-mem k)

  pub entry_at-cleared : (va : ℕ) → entry_at (cleared k p).mem pgdir va ≡ entry_at k.mem pgdir va
  entry_at-cleared va =
      entry_at-SameExcept end pgdir k (p ∷ qs) s p (cleared k p).mem cleared-SameExcept
        (IsOutside-free end pgdir k p qs s) va

  pub cleared-IsSpace : IsSpace end pgdir (cleared k p) qs
  unfolding cleared
  cleared-IsSpace =
      IsSpace-SameExcept end pgdir k (p ∷ qs) s p (cleared k p).mem cleared-SameExcept
        (IsOutside-free end pgdir k p qs s) (kalloc k).1.use_lock (kalloc k).1.freelist qs
        (Chain-frame end (kalloc k).1.mem (cleared k p).mem qs heads
          (kalloc-pop end k p qs s.free).1)
        (ground (arith, s.root_used)) (λ i lt here. ground (arith, (s.tables i lt here).1))
    where
      heads : (x : ℕ) → has x qs ≡ true → (cleared k p).mem x ≡ (kalloc k).1.mem x
      heads x h =
          let page : IsPage end x = Chain-IsPage end qs x (kalloc-pop end k p qs s.free).1 h in
          let start : x + 4 * 0 ≡ x = omega arith in
          ap (clear_page (kalloc k).1.mem p) (sym start)
          ∙ clear_page_other (kalloc k).1.mem p x 0 (fresh.0) (page.0)
              (λ e. ground (arith, Chain-head_out p qs s.free, eq→== _ _ e)) (omega arith)
          ∙ ap (kalloc k).1.mem start

pub kfree-SameExcept :
    (end p : ℕ) (k k' : Kmem) → p % 4096 ≡ 0 → kfree end p k ≡ some k' → SameExcept p k.mem k'.mem
unfolding kfree
kfree-SameExcept end p k k' hp e q j hq ne lt = elim (Bool-cases (bad_page end p)) [
  | inl bad ↦ absurd (ground (arith, bad))
  | inr good ↦
      let written : update (fill_junk k.mem p) p k.freelist ≡ k'.mem =
        ap memory_of (ap (λ b. if b then none else some freed) (sym good) ∙ e) in
      ap (λ m. m (q + 4 * j)) (sym written)
      ∙ update_ne (fill_junk k.mem p) p (q + 4 * j) k.freelist (omega arith)
      ∙ fill_junk_outside k.mem p (q + 4 * j) (omega arith)
]
  where
    freed : Kmem
    freed = record k { mem = update (fill_junk k.mem p) p k.freelist; freelist = p }

    memory_of : Option Kmem → Memory
    memory_of none = k.mem
    memory_of (some x) = x.mem
