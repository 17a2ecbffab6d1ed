-- ===== src/Vm/Space.antt =====
-- What a page directory means, and when its tables are apart from one another and from the free pages.
use sofinal_project.Prelude.{
  ℕ, ◌+◌, ◌*◌, ◌%◌, ◌<◌, ◌≡◌, ◌≢◌, true, false, List, arith, if◌then◌else◌,
}
use sofinal_project.Kalloc.{Memory, Kmem}
use sofinal_project.Kalloc.FreeList.{IsPage, has, IsFree}
use sofinal_project.Vm.{pdx, ptx, is_present, pte_addr, p2v}

-- The directory's entry `i`, and the table that it points to.
abbrev pub pde : Memory → ℕ → ℕ → ℕ
pde m pgdir i = m (pgdir + 4 * i)

abbrev pub table : Memory → ℕ → ℕ → ℕ
table m pgdir i = p2v (pte_addr (pde m pgdir i))

-- The entry for a virtual address, 0 where there is no table.
unfoldable pub entry_at : Memory → ℕ → ℕ → ℕ
entry_at m pgdir va =
    if is_present (pde m pgdir (pdx va)) then m (table m pgdir (pdx va) + 4 * ptx va) else 0

-- The free pages are `ps`; the directory and its tables are distinct pages that are not free.
pub record IsSpace (end pgdir : ℕ) (k : Kmem) (ps : List ℕ) : Type 0 where
  pub free : IsFree end k ps
  pub root : IsPage end pgdir
  pub root_used : has pgdir ps ≡ false
  pub tables :
      (i : ℕ)
      → i < 1024
      → is_present (pde k.mem pgdir i) ≡ true
      → IsPage end (table k.mem pgdir i)
        × (has (table k.mem pgdir i) ps ≡ false)
        × (table k.mem pgdir i ≢ pgdir)
  pub distinct :
      (i j : ℕ)
      → i < 1024
      → j < 1024
      → is_present (pde k.mem pgdir i) ≡ true
      → is_present (pde k.mem pgdir j) ≡ true
      → table k.mem pgdir i ≡ table k.mem pgdir j
      → i ≡ j

-- Words of different pages.
pub pages_apart :
    (p q i j : ℕ)
    → p % 4096 ≡ 0
    → q % 4096 ≡ 0
    → p ≢ q
    → i < 1024
    → j < 1024
    → p + 4 * i ≢ q + 4 * j
pages_apart p q i j hp hq ne li lj e = ne (omega arith)
