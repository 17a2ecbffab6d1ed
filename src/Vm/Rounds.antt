-- ===== src/Vm/Rounds.antt =====
-- The loops of vm.c end.
use sofinal_project.Prelude.{
  ℕ, zero, suc, ◌+◌, ◌*◌, ◌%◌, ◌≤◌, ◌≡◌, refl, inl, inr, false, arith, ltb, ◌==◌, Bool-cases,
  Option-cases,
}
use sofinal_project.Kalloc.{Kmem}
use sofinal_project.Vm.{pdx, walkpgdir, free_entry, dealloc_loop}

-- Two bounds on the rounds of `deallocuvm`'s loop that both reach the end of a range below KERNBASE,
-- from the start of a page on, give the same result.
pub dealloc_loop-enough :
    (n m end pgdir a oldsz : ℕ) (k : Kmem)
    → oldsz ≤ 0x80000000
    → a % 4096 ≡ 0
    → oldsz ≤ a + 4096 * n
    → oldsz ≤ a + 4096 * m
    → dealloc_loop n end pgdir a oldsz k ≡ dealloc_loop m end pgdir a oldsz k
unfolding dealloc_loop
dealloc_loop-enough zero zero end pgdir a oldsz k low aligned hn hm = refl
dealloc_loop-enough zero (suc m) end pgdir a oldsz k low aligned hn hm =
    let over : ltb a oldsz ≡ false = ground arith in rw over refl
dealloc_loop-enough (suc n) zero end pgdir a oldsz k low aligned hn hm =
    let over : ltb a oldsz ≡ false = ground arith in rw over refl
dealloc_loop-enough (suc n) (suc m) end pgdir a oldsz k low aligned hn hm =
    elim (Bool-cases (ltb a oldsz)) [
      | inr over ↦ rw over refl
      | inl inside ↦ elim (Bool-cases ((walkpgdir pgdir a false k).0 == 0)) [
        | inl no_table ↦
            rw (inside, no_table)
              (dealloc_loop-enough n m end pgdir ((pdx a + 1) * 0x400000) oldsz k low (omega arith)
                (ground arith) (ground arith))
        | inr some_table ↦ elim (Option-cases (free_entry end (walkpgdir pgdir a false k).0 k)) [
          | inl panics ↦ rw (inside, some_table, panics) refl
          | inr (k', frees) ↦
              rw (inside, some_table, frees)
                (dealloc_loop-enough n m end pgdir (a + 4096) oldsz k' low (omega arith)
                  (omega arith) (omega arith))
        ]
      ]
    ]
