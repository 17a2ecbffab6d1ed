-- ===== src/Vm/Fault.antt =====
-- Lazy allocation: `handle_lazy_allocation` of trap.c, and `growproc` of proc.c with `sys_sbrk`.
-- The messages that they print are left out.
use sofinal_project.Prelude.{
  ℕ, ◌+◌, ◌%◌, ◌^◌, Bool, true, false, ◌&&◌, Option, none, some, ltb, leb, ◌==◌, if◌then◌else◌,
}
use sofinal_project.Kalloc.{Kmem, kalloc, kfree, page_size}
use sofinal_project.Vm.{
  pg_round_down, v2p, user_writable, clear_page, mappages, allocuvm, deallocuvm,
}

-- What follows `mappages`: where it has failed, the page is freed.
abbrev pub free_unless_mapped : ℕ → ℕ → Option (Bool × Kmem) → Option (Bool × Kmem)
free_unless_mapped end mem none = none
free_unless_mapped end mem (some (true, k')) = some (true, k')
free_unless_mapped end mem (some (false, k')) = elim (kfree end mem k') [
  | none ↦ none
  | some k'' ↦ some (false, k'')
]

-- `sz` and `pgdir` are those of the process. `true` stands for 0, `false` for -1.
unfoldable pub handle_lazy_allocation : ℕ → ℕ → ℕ → ℕ → Kmem → Option (Bool × Kmem)
handle_lazy_allocation end sz pgdir faultaddr k =
    let a = pg_round_down faultaddr in
    let (mem, k1) = kalloc k in
    if leb sz faultaddr
    then some (false, k)
    else if ltb faultaddr page_size
    then some (false, k)
    else if mem == 0
    then some (false, k1)
    else free_unless_mapped end mem (
        mappages pgdir a page_size (v2p mem) user_writable
          (record k1 { mem = clear_page k1.mem mem }))

-- The new size of the process, or `none` inside for -1. `n` is an `int`, in its bit pattern.
-- `switchuvm` reloads the same page table.
unfoldable pub growproc : ℕ → ℕ → ℕ → ℕ → Kmem → Option (Option ℕ × Kmem)
unfolding allocuvm deallocuvm
growproc end pgdir sz n k =
    let new = (sz + n) % 2 ^ 32 in
    let grown : Option (Option ℕ × Kmem) = elim (allocuvm end pgdir sz new k) [
      | none ↦ none
      | some (sz', k') ↦ some (if sz' == 0 then none else some sz', k')
    ] in
    let shrunk : Option (Option ℕ × Kmem) = elim (deallocuvm end pgdir sz new k) [
      | none ↦ none
      | some (sz', k') ↦ some (if sz' == 0 then none else some sz', k')
    ] in
    if ltb 0 n && ltb n (2 ^ 31) then grown else if n == 0 then some (some sz, k) else shrunk

-- The old size, or -1, and the size of the process afterwards.
unfoldable pub sys_sbrk : ℕ → ℕ → ℕ → Option ℕ → Kmem → Option (Option ℕ × ℕ × Kmem)
unfolding growproc
sys_sbrk end pgdir sz none k = some (none, sz, k)
sys_sbrk end pgdir sz (some n) k = elim (growproc end pgdir sz n k) [
  | none ↦ none
  | some (none, k') ↦ some (none, sz, k')
  | some (some sz', k') ↦ some (some sz, sz', k')
]
