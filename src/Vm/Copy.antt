-- ===== src/Vm/Copy.antt =====
-- vm.c: `copyuvm` for `fork`, and the lookups that `exec` and `copyout` use.
use sofinal_project.Prelude.{
  ℕ, zero, suc, ◌+◌, ◌-◌, ◌/◌, Bool, true, false, not, Option, none, some, ltb, ◌==◌, if◌then◌else◌,
  update,
}
use sofinal_project.Kalloc.{Memory, Kmem, kalloc, kfree}
use sofinal_project.Life.Fork.{copy_words}
use sofinal_project.Vm.{
  is_present, is_user, pte_addr, pte_flags, p2v, v2p, walkpgdir, mappages, freevm, setupkvm,
}

-- `memmove(mem, P2V(pa), PGSIZE)` between two pages.
unfoldable pub copy_page : Memory → ℕ → ℕ → Memory
unfolding copy_words
copy_page m dst src = copy_words m dst src 1024

-- `bad:`
unfoldable pub give_up : ℕ → ℕ → Kmem → Option (ℕ × Kmem)
unfolding freevm
give_up end d k = elim (freevm end d k) [ none ↦ none | some k' ↦ some (0, k') ]

-- A page that is present is copied, and mapped in `d` with the same flags.
unfoldable pub copy_one : ℕ → ℕ → ℕ → ℕ → Kmem → Option (Bool × Kmem)
unfolding mappages copy_page
copy_one end d i pte k =
    let (mem, k1) = kalloc k in
    if mem == 0
    then some (false, k1)
    else elim (mappages d i 4096 (v2p mem) (pte_flags (k1.mem pte))
        (record k1 { mem = copy_page k1.mem mem (p2v (pte_addr (k1.mem pte))) })) [
          | none ↦ none
          | some (true, k') ↦ some (true, k')
          | some (false, k') ↦ elim (kfree end mem k') [
            | none ↦ none
            | some k'' ↦ some (false, k'')
          ]
        ]

-- The loop for at most `n` rounds. A page without a table, or not present, is left out.
unfoldable pub copy_loop : ℕ → ℕ → ℕ → ℕ → ℕ → ℕ → Kmem → Option (ℕ × Kmem)
unfolding copy_one give_up
copy_loop zero end pgdir d i sz k = some (d, k)
copy_loop (suc n) end pgdir d i sz k =
    let (pte, k0) = walkpgdir pgdir i false k in
    let skip = copy_loop n end pgdir d (i + 4096) sz k in
    let step : Option (ℕ × Kmem) = elim (copy_one end d i pte k) [
      | none ↦ none
      | some (true, k') ↦ copy_loop n end pgdir d (i + 4096) sz k'
      | some (false, k') ↦ give_up end d k'
    ] in
    if ltb i sz
    then if pte == 0 then skip else if not (is_present (k.mem pte)) then skip else step
    else some (d, k)

-- The child's directory, or 0.
unfoldable pub copyuvm : ℕ → ℕ → ℕ → ℕ → Kmem → Option (ℕ × Kmem)
unfolding copy_loop setupkvm
copyuvm end kdata pgdir sz k = elim (setupkvm end kdata k) [
  | none ↦ none
  | some (d, k') ↦ if d == 0 then some (0, k') else copy_loop (sz / 4096 + 1) end pgdir d 0 sz k'
]

unfoldable pub clearpteu : ℕ → ℕ → Kmem → Option Kmem
clearpteu pgdir uva k =
    let (pte, k0) = walkpgdir pgdir uva false k in
    if pte == 0
    then none
    else some (record k {
      mem = update k.mem pte (if is_user (k.mem pte) then k.mem pte - 4 else k.mem pte);
    })

-- The kernel's address of a user page, or 0. Where there is no page table the code reads through a
-- null pointer: that is `none`.
unfoldable pub uva2ka : ℕ → ℕ → Kmem → Option ℕ
uva2ka pgdir uva k =
    let (pte, k0) = walkpgdir pgdir uva false k in
    if pte == 0
    then none
    else if not (is_present (k.mem pte))
    then some 0
    else if not (is_user (k.mem pte))
    then some 0
    else some (p2v (pte_addr (k.mem pte)))
