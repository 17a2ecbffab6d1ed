-- ===== src/Vm/Map.antt =====
-- What `walkpgdir` finds, and what `mappages` does to the mapping of a page.
use sofinal_project.Prelude.{
  ℕ, ◌+◌, ◌*◌, ◌/◌, ◌%◌, ◌^◌, ◌<◌, ◌≡◌, ◌≢◌, ◌⊎◌, refl, sym, ap, ◌∙◌, inl, inr, true, false, none,
  some, List, [], ◌∷◌, arith, ◌==◌, update, update_self, update_ne, Bool-cases,
}
use sofinal_project.Kalloc.{Memory, Kmem, kalloc}
use sofinal_project.Kalloc.FreeList.{IsPage, has, Chain-frame, Chain-IsPage}
use sofinal_project.Kalloc.Laws.{kalloc-pop, kalloc-none}
use sofinal_project.Vm.{
  pdx, ptx, is_present, pte_addr, p2v, v2p, clear_page, walkpgdir, map_one, with_present,
}
use sofinal_project.Vm.Space.{pde, table, entry_at, IsSpace, pages_apart}
use sofinal_project.Vm.Walk.{
  entry_at-with_table, with_table-IsSpace, is_present_self, table_self, kalloc-mem,
}

-- The address of the entry for `va` once there is a table for it.
abbrev pub entry_address : Memory → ℕ → ℕ → ℕ
entry_address m pgdir va = table m pgdir (pdx va) + 4 * ptx va

module _ (end pgdir : ℕ) (k : Kmem) (ps : List ℕ) (s : IsSpace end pgdir k ps) (va v : ℕ)
    (there : is_present (pde k.mem pgdir (pdx va)) ≡ true) where
  -- The memory after the entry for `va` has been set to `v`.
  abbrev pub with_entry : Memory
  with_entry = update k.mem (entry_address k.mem pgdir va) v

  with_entry_root : (j : ℕ) → j < 1024 → pde with_entry pgdir j ≡ pde k.mem pgdir j
  with_entry_root j lj =
      let (page, used, nr) = s.tables (pdx va) (omega arith) there in
      update_ne k.mem (entry_address k.mem pgdir va) (pgdir + 4 * j) v (
        pages_apart pgdir (table k.mem pgdir (pdx va)) j (ptx va) (s.root.0) (page.0)
          (λ e. nr (sym e)) lj (omega arith))

  pub entry_at-with_entry_self : entry_at with_entry pgdir va ≡ v
  unfolding entry_at
  entry_at-with_entry_self =
      let same : pde with_entry pgdir (pdx va) ≡ pde k.mem pgdir (pdx va) =
        with_entry_root (pdx va) (omega arith) in
      rw (same, there) (update_self k.mem (entry_address k.mem pgdir va) v)

  pub entry_at-with_entry_ne :
      (vb : ℕ)
      → va < 2 ^ 32
      → vb < 2 ^ 32
      → vb / 4096 ≢ va / 4096
      → entry_at with_entry pgdir vb ≡ entry_at k.mem pgdir vb
  unfolding entry_at
  entry_at-with_entry_ne vb la lb ne =
      let lj : pdx vb < 1024 = omega arith in
      let li : pdx va < 1024 = omega arith in
      let same : pde with_entry pgdir (pdx vb) ≡ pde k.mem pgdir (pdx vb) =
        with_entry_root (pdx vb) lj in
      elim (Bool-cases (is_present (pde k.mem pgdir (pdx vb)))) [
        | inr nowhere ↦ rw (same, nowhere) refl
        | inl found ↦
            let (page, used, nr) = s.tables (pdx va) li there in
            let (page', used', nr') = s.tables (pdx vb) lj found in
            rw (same, found)
              (update_ne k.mem (entry_address k.mem pgdir va) (entry_address k.mem pgdir vb) v
                (elim (Bool-cases (pdx vb == pdx va)) [
                  | inl e ↦
                      let e' : pdx vb ≡ pdx va = ground arith in
                      let e'' : table k.mem pgdir (pdx vb) ≡ table k.mem pgdir (pdx va) =
                        ap (λ j. table k.mem pgdir j) e' in
                      λ eq. omega arith
                  | inr n ↦
                      pages_apart (table k.mem pgdir (pdx vb)) (table k.mem pgdir (pdx va)) (ptx vb)
                        (ptx va) (page'.0) (page.0)
                        (λ e. ground (arith, s.distinct (pdx vb) (pdx va) lj li found there e))
                        (omega arith) (omega arith)
                ]))
      ]

  pub with_entry-IsSpace : IsSpace end pgdir (record k { mem = with_entry }) ps
  with_entry-IsSpace = record {
    free = Chain-frame end k.mem with_entry ps same s.free;
    root = s.root;
    root_used = s.root_used;
    tables = λ j lj here.
        let e : pde with_entry pgdir j ≡ pde k.mem pgdir j = with_entry_root j lj in
        rw e (s.tables j lj (ap is_present (sym e) ∙ here));
    distinct = λ a b la lb ha hb e.
        let ea : pde with_entry pgdir a ≡ pde k.mem pgdir a = with_entry_root a la in
        let eb : pde with_entry pgdir b ≡ pde k.mem pgdir b = with_entry_root b lb in
        s.distinct a b la lb (ap is_present (sym ea) ∙ ha) (ap is_present (sym eb) ∙ hb)
          (ap (λ w. p2v (pte_addr w)) (sym ea) ∙ e ∙ ap (λ w. p2v (pte_addr w)) eb);
  }
    where
      apart :
          (x : ℕ)
          → x % 4096 ≡ 0
          → table k.mem pgdir (pdx va) % 4096 ≡ 0
          → x ≢ table k.mem pgdir (pdx va)
          → x ≢ entry_address k.mem pgdir va
      apart x hx ht ne e =
          pages_apart x (table k.mem pgdir (pdx va)) 0 (ptx va) hx ht ne (omega arith) (omega arith)
            (omega arith)

      same : (x : ℕ) → has x ps ≡ true → with_entry x ≡ k.mem x
      same x h =
          let page : IsPage end x = Chain-IsPage end ps x s.free h in
          let (page', used, nr) = s.tables (pdx va) (omega arith) there in
          update_ne k.mem (entry_address k.mem pgdir va) x v
            (λ e. apart x (page.0) (page'.0) (λ eq. ground (arith, used, eq)) e)

-- The memory that `walkpgdir` leaves when it makes the page `p` a table.
abbrev extended : ℕ → ℕ → Kmem → ℕ → Memory → Kmem
extended pgdir va k p m = record (kalloc k).1 {
  mem = update (clear_page m p) (pgdir + 4 * pdx va) (v2p p + 7);
}

walkpgdir-new :
    (pgdir : ℕ) (k : Kmem) (va p : ℕ)
    → is_present (pde k.mem pgdir (pdx va)) ≡ false
    → (kalloc k).0 ≡ p
    → p ≢ 0
    → walkpgdir pgdir va true k ≡ (p + 4 * ptx va, extended pgdir va k p k.mem)
unfolding walkpgdir
walkpgdir-new pgdir k va p absent e ne =
    let some_page : ((kalloc k).0 == 0) ≡ false = ground arith in
    rw (absent, walkpgdir, some_page)
      (ap (λ q. (q + 4 * ptx va, extended pgdir va k q (kalloc k).1.mem)) e
        ∙ ap (λ m. (p + 4 * ptx va, extended pgdir va k p m)) (kalloc-mem k))

-- No free page is added.
abbrev pub NoneAdded : List ℕ → List ℕ → Type 0
NoneAdded ps qs = (x : ℕ) → has x ps ≡ false → has x qs ≡ false

-- `walkpgdir` with `alloc` set: it runs out of memory, or there is a table for `va` afterwards, and no mapping has
-- changed.
pub walkpgdir-alloc :
    (end pgdir : ℕ) (k : Kmem) (ps : List ℕ) (va : ℕ)
    → IsSpace end pgdir k ps
    → ((walkpgdir pgdir va true k ≡ (0, k))
        × (ps ≡ [])
        × (is_present (pde k.mem pgdir (pdx va)) ≡ false))
      ⊎ ((k' : Kmem) × (qs : List ℕ) × (walkpgdir pgdir va true k
            ≡ (entry_address k'.mem pgdir va, k'))
          × (is_present (pde k'.mem pgdir (pdx va)) ≡ true)
          × ((vb : ℕ) → entry_at k'.mem pgdir vb ≡ entry_at k.mem pgdir vb)
          × IsSpace end pgdir k' qs
          × NoneAdded ps qs)
unfolding walkpgdir
walkpgdir-alloc end pgdir k ps va s = elim (Bool-cases (is_present (pde k.mem pgdir (pdx va)))) [
  | inl there ↦ inr (k, ps, rw (there, walkpgdir) refl, there, λ vb. refl, s, λ x h. h)
  | inr absent ↦ no_table ps s absent
]
  where
    no_table :
        (ps : List ℕ)
        → IsSpace end pgdir k ps
        → is_present (pde k.mem pgdir (pdx va)) ≡ false
        → ((walkpgdir pgdir va true k ≡ (0, k))
            × (ps ≡ [])
            × (is_present (pde k.mem pgdir (pdx va)) ≡ false))
          ⊎ ((k' : Kmem) × (qs : List ℕ) × (walkpgdir pgdir va true k
                ≡ (entry_address k'.mem pgdir va, k'))
              × (is_present (pde k'.mem pgdir (pdx va)) ≡ true)
              × ((vb : ℕ) → entry_at k'.mem pgdir vb ≡ entry_at k.mem pgdir vb)
              × IsSpace end pgdir k' qs
              × NoneAdded ps qs)
    no_table [] s absent = inl (rw (absent, walkpgdir, kalloc-none end k s.free) refl, refl, absent)
    no_table (p ∷ qs) s absent =
        let lt : pdx va < 1024 = omega arith in
        let page : IsPage end p = Chain-IsPage end (p ∷ qs) p s.free (ground arith) in
        inr (
          extended pgdir va k p k.mem,
          qs,
          walkpgdir-new pgdir k va p absent (kalloc-pop end k p qs s.free).0 (omega arith)
              ∙ ap (λ t. (t + 4 * ptx va, extended pgdir va k p k.mem))
                  (sym (table_self end pgdir k p qs s (pdx va) lt absent)),
          is_present_self end pgdir k p qs s (pdx va) lt absent,
          entry_at-with_table end pgdir k p qs s (pdx va) lt absent,
          with_table-IsSpace end pgdir k p qs s (pdx va) lt absent,
          λ x h. ground arith,
        )

entry_at-there :
    (m : Memory) (pgdir va : ℕ)
    → is_present (pde m pgdir (pdx va)) ≡ true
    → m (entry_address m pgdir va) ≡ entry_at m pgdir va
unfolding entry_at
entry_at-there m pgdir va there = rw there refl

entry_at-absent :
    (m : Memory) (pgdir va : ℕ)
    → is_present (pde m pgdir (pdx va)) ≡ false
    → entry_at m pgdir va ≡ 0
unfolding entry_at
entry_at-absent m pgdir va absent = rw absent refl

-- A page that is mapped already makes a round of `mappages` panic.
pub map_one-remap :
    (end pgdir : ℕ) (k : Kmem) (ps : List ℕ) (a pa perm : ℕ)
    → IsSpace end pgdir k ps
    → is_present (entry_at k.mem pgdir a) ≡ true
    → map_one pgdir a pa perm k ≡ none
unfolding map_one
map_one-remap end pgdir k ps a pa perm s mapped = elim (walkpgdir-alloc end pgdir k ps a s) [
  | inl (fails, none_left, absent) ↦
      let nothing : entry_at k.mem pgdir a ≡ 0 = entry_at-absent k.mem pgdir a absent in
      absurd (ground arith)
  | inr (k1, qs, walks, there, same, s1, fewer) ↦
      let (page, used, nr) = s1.tables (pdx a) (omega arith) there in
      let pos : (entry_address k1.mem pgdir a == 0) ≡ false = ground (arith, page) in
      let set : is_present (k1.mem (entry_address k1.mem pgdir a)) ≡ true =
        ap is_present (entry_at-there k1.mem pgdir a there ∙ same a) ∙ mapped in
      rw (walks, map_one, pos, set) refl
]

-- Where the page is not mapped, a round of `mappages` fails for want of memory and changes no mapping, or
-- maps the page as asked and changes no other mapping.
pub map_one-maps :
    (end pgdir : ℕ) (k : Kmem) (ps : List ℕ) (a pa perm : ℕ)
    → IsSpace end pgdir k ps
    → a < 2 ^ 32
    → is_present (entry_at k.mem pgdir a) ≡ false
    → ((map_one pgdir a pa perm k ≡ some (false, k)) × (ps ≡ []))
      ⊎ ((k' : Kmem) × (qs : List ℕ) × (map_one pgdir a pa perm k ≡ some (true, k'))
          × (entry_at k'.mem pgdir a ≡ pa + with_present perm)
          × ((b : ℕ)
              → b < 2 ^ 32
              → b / 4096 ≢ a / 4096
              → entry_at k'.mem pgdir b ≡ entry_at k.mem pgdir b)
          × IsSpace end pgdir k' qs
          × NoneAdded ps qs)
unfolding map_one
map_one-maps end pgdir k ps a pa perm s small free = elim (walkpgdir-alloc end pgdir k ps a s) [
  | inl (fails, none_left, absent) ↦ inl (rw (fails, map_one) refl, none_left)
  | inr (k1, qs, walks, there, same, s1, fewer) ↦
      let (page, used, nr) = s1.tables (pdx a) (omega arith) there in
      let pos : (entry_address k1.mem pgdir a == 0) ≡ false = ground (arith, page) in
      let here : k1.mem (entry_address k1.mem pgdir a) ≡ entry_at k1.mem pgdir a = found k1 there in
      let clear : is_present (k1.mem (entry_address k1.mem pgdir a)) ≡ false =
        ap is_present (here ∙ same a) ∙ free in
      inr (
        record k1 { mem = with_entry end pgdir k1 qs s1 a (pa + with_present perm) there },
        qs,
        rw (walks, map_one, pos, clear) refl,
        entry_at-with_entry_self end pgdir k1 qs s1 a (pa + with_present perm) there,
        λ b lt ne.
            entry_at-with_entry_ne end pgdir k1 qs s1 a (pa + with_present perm) there b small lt ne
            ∙ same b,
        with_entry-IsSpace end pgdir k1 qs s1 a (pa + with_present perm) there,
        fewer,
      )
]
  where
    found :
        (j : Kmem)
        → is_present (pde j.mem pgdir (pdx a)) ≡ true
        → j.mem (entry_address j.mem pgdir a) ≡ entry_at j.mem pgdir a
    found j there = entry_at-there j.mem pgdir a there
