-- ===== src/Exec/LargeProgram.antt =====
-- The stack of a program of ten pages or more.
use sofinal_project.Prelude.{
  ℕ, Option, if◌then◌else◌, ◌≢◌, ◌+◌, ◌*◌, ◌%◌, ◌<◌, ◌≤◌, ◌≡◌, false, none, List, ◌∷◌, ◌==◌, length,
}
use sofinal_project.Kalloc.{Memory, Kmem, pg_round_up}
use sofinal_project.Vm.{walkpgdir}
use sofinal_project.Exec.Program.{Program}

-- The address of the entry for `va`, or 0 where there is no table.
abbrev pub entry_of : ℕ → ℕ → Kmem → ℕ
entry_of pgdir va k = (walkpgdir pgdir va false k).0

-- The page of `va` has no table, or its entry is 0.
pub record IsUnmapped (pgdir va : ℕ) (k : Kmem) : Type 0 where
  pub empty : entry_of pgdir va k ≢ 0 → k.mem (entry_of pgdir va k) ≡ 0

-- Without a table for `va` the kernel panics, or reads through a null pointer.
abbrev pub unless_missing : {A : Type 0} → ℕ → ℕ → Kmem → Option A → Option A
unless_missing pgdir va k r = if entry_of pgdir va k == 0 then none else r

module _ (pgdir sz : ℕ) (k : Kmem) (aligned : sz % 4096 ≡ 0) (hi : sz + 8192 < 0x80000000)
    (top : IsUnmapped pgdir (sz + 4096) k) where
  -- Behind `clearpteu`.
  abbrev fails : {A : Type 0} → Option A → Option A
  fails r = unless_missing pgdir sz k (unless_missing pgdir (sz + 4096) k r)

module _ (end pgdir loaded : ℕ) (argv : List (List ℕ)) (k : Kmem) (lo : 10 * 4096 ≤ loaded)
    (hi : loaded + 3 * 4096 ≤ 0x80000000) (guard : IsUnmapped pgdir (pg_round_up loaded) k)
    (top : IsUnmapped pgdir (pg_round_up loaded + 4096) k)
    (short : (s : List ℕ) (rest : List (List ℕ)) → argv ≡ s ∷ rest → length s + 4 < 4096) where
  -- What stands behind the tables for the two pages of the stack.
  abbrev behind_tables : {A : Type 0} → Option A → Option A
  behind_tables r =
      unless_missing pgdir (pg_round_up loaded) k
        (unless_missing pgdir (pg_round_up loaded + 4096) k r)
