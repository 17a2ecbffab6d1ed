-- ===== src/Exec/Memory.antt =====
-- `memmove` into pages, and `copyout` of vm.c.
use sofinal_project.Prelude.{
  ℕ, zero, suc, ◌+◌, ◌-◌, ◌*◌, ◌/◌, ◌%◌, ◌^◌, Bool, true, false, Option, none, some, List, [], ◌∷◌,
  ◌==◌, if◌then◌else◌, update, length, take, drop, min,
}
use sofinal_project.Kalloc.{Memory, Kmem}
use sofinal_project.Vm.{pg_round_down}
use sofinal_project.Vm.Copy.{uva2ka}

-- A byte of the word around it.
unfoldable pub store_byte : Memory → ℕ → ℕ → Memory
store_byte m a c =
    let u = 256 ^ (a % 4) in
    let w = m (a / 4 * 4) in update m (a / 4 * 4) (w - w / u % 256 * u + c * u)

unfoldable pub store_bytes : Memory → ℕ → List ℕ → Memory
unfolding store_byte
store_bytes m a [] = m
store_bytes m a (c ∷ cs) = store_bytes (store_byte m a c) (a + 1) cs

-- The loop of `copyout` with the bytes that are left, for at most `f` rounds. `false` is -1.
unfoldable pub copyout_loop : ℕ → ℕ → ℕ → List ℕ → Kmem → Option (Bool × Kmem)
unfolding store_bytes
copyout_loop zero pgdir va buf k = if length buf == 0 then some (true, k) else none
copyout_loop (suc f) pgdir va buf k =
    let va0 = pg_round_down va in
    let n = min (4096 - (va - va0)) (length buf) in
    let go : ℕ → Option (Bool × Kmem) = λ pa0.
      copyout_loop f pgdir ((va0 + 4096) % 2 ^ 32) (drop n buf)
        (record k { mem = store_bytes k.mem (pa0 + (va - va0)) (take n buf) }) in
    let copy : Option (Bool × Kmem) = elim (uva2ka pgdir va0 k) [
      | none ↦ none
      | some pa0 ↦ if pa0 == 0 then some (false, k) else go pa0
    ] in
    if length buf == 0 then some (true, k) else copy

unfoldable pub copyout : ℕ → ℕ → List ℕ → Kmem → Option (Bool × Kmem)
unfolding copyout_loop
copyout pgdir va buf k = copyout_loop (length buf / 4096 + 2) pgdir va buf k
