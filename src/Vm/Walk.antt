-- ===== src/Vm/Walk.antt =====
-- A new page table changes no mapping.
use sofinal_project.Prelude.{
  ℕ, zero, suc, ◌+◌, ◌-◌, ◌*◌, ◌%◌, ◌<◌, ◌≡◌, ◌≢◌, refl, sym, ap, ◌∙◌, inl, inr, true, false, List,
  ◌∷◌, arith, ◌==◌, update, update_self, update_ne, Bool-cases, eq→==,
}
use sofinal_project.Kalloc.{Memory, Kmem, stosl, kalloc}
use sofinal_project.Kalloc.FreeList.{
  IsPage, has, Chain, cons, IsFree, stosl_outside, Chain-frame, Chain-IsPage,
}
use sofinal_project.Kalloc.Laws.{kalloc-pop}
use sofinal_project.Vm.{pdx, ptx, is_present, pte_addr, p2v, v2p, clear_page}
use sofinal_project.Vm.Space.{pde, table, entry_at, IsSpace, pages_apart}

stosl_inside : (m : Memory) (a w cnt j : ℕ) → j < cnt → stosl m a w cnt (a + 4 * j) ≡ w
unfolding stosl
stosl_inside m a w zero j lt = absurd (omega arith)
stosl_inside m a w (suc cnt) j lt = elim (Bool-cases (j == 0)) [
  | inl start ↦
      let here : a + 4 * j ≡ a = ground arith in
      ap (stosl (update m a w) (a + 4) w cnt) here
      ∙ stosl_outside (update m a w) (a + 4) w cnt a (omega arith)
      ∙ update_self m a w
  | inr later ↦
      let there : a + 4 * j ≡ a + 4 + 4 * (j - 1) = ground arith in
      ap (stosl (update m a w) (a + 4) w cnt) there
      ∙ stosl_inside (update m a w) (a + 4) w cnt (j - 1) (ground arith)
]

pub clear_page_inside : (m : Memory) (p j : ℕ) → j < 1024 → clear_page m p (p + 4 * j) ≡ 0
unfolding clear_page
clear_page_inside m p j lt = stosl_inside m p 0 1024 j lt

pub clear_page_other :
    (m : Memory) (p q j : ℕ)
    → p % 4096 ≡ 0
    → q % 4096 ≡ 0
    → q ≢ p
    → j < 1024
    → clear_page m p (q + 4 * j) ≡ m (q + 4 * j)
unfolding clear_page
clear_page_other m p q j hp hq ne lt = stosl_outside m p 0 1024 (q + 4 * j) (omega arith)

-- The address of a page, read back from a directory entry.
pub table-v2p : (end p : ℕ) → IsPage end p → p2v (pte_addr (v2p p + 7)) ≡ p
table-v2p end p ok = omega arith

pub kalloc-mem : (k : Kmem) → (kalloc k).1.mem ≡ k.mem
unfolding kalloc
kalloc-mem k = ground arith

pub Chain-head_out :
    {end : ℕ} {m : Memory} {f : ℕ} (p : ℕ) (qs : List ℕ) → Chain end m f (p ∷ qs) → has p qs ≡ false
Chain-head_out p qs (cons ok ne out c) = out

module _ (end pgdir : ℕ) (k : Kmem) (p : ℕ) (qs : List ℕ) (s : IsSpace end pgdir k (p ∷ qs)) (i : ℕ)
    (lt : i < 1024) (absent : is_present (pde k.mem pgdir i) ≡ false) where
  -- The memory after `walkpgdir` has made the page `p` the table `i`.
  abbrev pub with_table : Memory
  with_table = update (clear_page k.mem p) (pgdir + 4 * i) (v2p p + 7)

  fresh : IsPage end p
  fresh = Chain-IsPage end (p ∷ qs) p s.free (ground arith)

  not_root : pgdir ≢ p
  not_root e = ground (arith, s.root_used)

  with_table_other :
      (q j : ℕ)
      → q % 4096 ≡ 0
      → q ≢ p
      → q ≢ pgdir
      → j < 1024
      → with_table (q + 4 * j) ≡ k.mem (q + 4 * j)
  with_table_other q j hq np nr lj =
      update_ne (clear_page k.mem p) (pgdir + 4 * i) (q + 4 * j) (v2p p + 7)
        (pages_apart q pgdir j i hq (s.root.0) nr lj lt)
      ∙ clear_page_other k.mem p q j (fresh.0) hq np lj

  with_table_new : (j : ℕ) → j < 1024 → with_table (p + 4 * j) ≡ 0
  with_table_new j lj =
      update_ne (clear_page k.mem p) (pgdir + 4 * i) (p + 4 * j) (v2p p + 7)
        (pages_apart p pgdir j i (fresh.0) (s.root.0) (λ e. not_root (sym e)) lj lt)
      ∙ clear_page_inside k.mem p j lj

  with_table_root : (j : ℕ) → j < 1024 → j ≢ i → pde with_table pgdir j ≡ pde k.mem pgdir j
  with_table_root j lj ne =
      update_ne (clear_page k.mem p) (pgdir + 4 * i) (pgdir + 4 * j) (v2p p + 7) (omega arith)
      ∙ clear_page_other k.mem p pgdir j (fresh.0) (s.root.0) not_root lj

  pub with_table_self : pde with_table pgdir i ≡ v2p p + 7
  with_table_self = update_self (clear_page k.mem p) (pgdir + 4 * i) (v2p p + 7)

  pub is_present_self : is_present (pde with_table pgdir i) ≡ true
  is_present_self = ground (arith, with_table_self, fresh)

  pub table_self : table with_table pgdir i ≡ p
  table_self = ap (λ e. p2v (pte_addr e)) with_table_self ∙ table-v2p end p fresh

  -- A table that was there is another page.
  not_fresh : (j : ℕ) → j < 1024 → is_present (pde k.mem pgdir j) ≡ true → table k.mem pgdir j ≢ p
  not_fresh j lj here e = let (page, used, nr) = s.tables j lj here in ground (arith, ==_of e)
    where
      ==_of : table k.mem pgdir j ≡ p → (table k.mem pgdir j == p) ≡ true
      ==_of e = eq→== _ _ e

  present_other :
      (j : ℕ)
      → j < 1024
      → j ≢ i
      → is_present (pde with_table pgdir j) ≡ true
      → (is_present (pde k.mem pgdir j) ≡ true) × (table with_table pgdir j ≡ table k.mem pgdir j)
  present_other j lj ne here =
      let same : pde with_table pgdir j ≡ pde k.mem pgdir j = with_table_root j lj ne in
      (ap is_present (sym same) ∙ here, ap (λ e. p2v (pte_addr e)) same)

  pub entry_at-with_table : (va : ℕ) → entry_at with_table pgdir va ≡ entry_at k.mem pgdir va
  unfolding entry_at
  entry_at-with_table va = elim (Bool-cases (pdx va == i)) [
    | inl here ↦
        let e : pdx va ≡ i = ground arith in
        rw (e, is_present_self, table_self, absent) (with_table_new (ptx va) (omega arith))
    | inr elsewhere ↦
        let ne : pdx va ≢ i = ground arith in
        let lj : pdx va < 1024 = omega arith in
        let same : pde with_table pgdir (pdx va) ≡ pde k.mem pgdir (pdx va) =
          with_table_root (pdx va) lj ne in
        elim (Bool-cases (is_present (pde k.mem pgdir (pdx va)))) [
          | inr nowhere ↦ rw (same, nowhere) refl
          | inl there ↦
              let (page, used, nr) = s.tables (pdx va) lj there in
              rw (same, there)
                (with_table_other (table k.mem pgdir (pdx va)) (ptx va) (page.0)
                  (not_fresh (pdx va) lj there) nr (omega arith))
        ]
  ]

  pub with_table-IsSpace : IsSpace end pgdir (record (kalloc k).1 { mem = with_table }) qs
  with_table-IsSpace = record {
    free = Chain-frame end (kalloc k).1.mem with_table qs same (kalloc-pop end k p qs s.free).1;
    root = s.root;
    root_used = ground (arith, s.root_used);
    tables = λ j lj here. elim (Bool-cases (j == i)) [
      | inl e ↦ let e' : j ≡ i = ground arith in self e'
      | inr ne ↦ other j lj (ground arith) here
    ];
    distinct = λ a b la lb ha hb e. elim (Bool-cases (a == i)) [
      | inl ea ↦ elim (Bool-cases (b == i)) [
        | inl eb ↦ ground arith
        | inr nb ↦
            let ea' : a ≡ i = ground arith in
            let (old, same) = present_other b lb (ground arith) hb in
            absurd (
              not_fresh b lb old
                (sym same ∙ sym e ∙ ap (λ x. table with_table pgdir x) ea' ∙ table_self))
      ]
      | inr na ↦
          let (old_a, same_a) = present_other a la (ground arith) ha in
          elim (Bool-cases (b == i)) [
            | inl eb ↦
                let eb' : b ≡ i = ground arith in
                absurd (
                  not_fresh a la old_a
                    (sym same_a ∙ e ∙ ap (λ x. table with_table pgdir x) eb' ∙ table_self))
            | inr nb ↦
                let (old_b, same_b) = present_other b lb (ground arith) hb in
                s.distinct a b la lb old_a old_b (sym same_a ∙ e ∙ same_b)
          ]
    ];
  }
    where
      out : has p qs ≡ false
      out = Chain-head_out p qs s.free

      rest : IsFree end (kalloc k).1 qs
      rest = (kalloc-pop end k p qs s.free).1

      same : (x : ℕ) → has x qs ≡ true → with_table x ≡ (kalloc k).1.mem x
      same x h =
          let page : IsPage end x = Chain-IsPage end qs x rest h in
          let start : x + 4 * 0 ≡ x = omega arith in
          ap with_table (sym start)
          ∙ with_table_other x 0 (page.0) (λ e. ground (arith, out, eq→== _ _ e))
              (λ e. ground (arith, s.root_used)) (omega arith)
          ∙ ap k.mem start
          ∙ ap (λ m. m x) (sym (kalloc-mem k))

      self :
          {j : ℕ}
          → j ≡ i
          → IsPage end (table with_table pgdir j)
            × (has (table with_table pgdir j) qs ≡ false)
            × (table with_table pgdir j ≢ pgdir)
      self e = rw (e, table_self) (fresh, out, λ eq. not_root (sym eq))

      other :
          (j : ℕ)
          → j < 1024
          → j ≢ i
          → is_present (pde with_table pgdir j) ≡ true
          → IsPage end (table with_table pgdir j)
            × (has (table with_table pgdir j) qs ≡ false)
            × (table with_table pgdir j ≢ pgdir)
      other j lj ne here =
          let (old, same) = present_other j lj ne here in
          let (page, used, nr) = s.tables j lj old in rw same (page, ground arith, nr)
