-- ===== src/Vm.antt =====
-- vm.c: page directories, page tables and the pages of a process, in the memory that kalloc.c hands
-- out, and the handler of page faults in trap.c. Memory is read in words, as in Kalloc. An address,
-- a size and an entry are numbers below 2 ^ 32; flags are bits of a number. Physical
-- addresses are multiples of the page size where they meet flags, so `|` is a sum there.
-- `none` is a panic. A function that returns -1 or 0 for failure returns `false` or 0 with the
-- memory that it leaves.
pub mod Copy
pub mod Fault
pub mod Space
pub mod Walk
pub mod Frame
pub mod Map
pub mod Lazy
pub mod Rounds
mod Tests
use sofinal_project.Prelude.{
  ℕ, zero, suc, ◌+◌, ◌-◌, ◌*◌, ◌/◌, ◌%◌, ◌^◌, Bool, true, false, ◌&&◌, ◌||◌, not, Option, none,
  some, ltb, leb, ◌==◌, if◌then◌else◌, update, List, [], ◌∷◌,
}
use sofinal_project.Kalloc.{
  Memory, Kmem, stosl, kalloc, kfree, page_size, kernbase, phystop, pg_round_up,
}

-- `PDX` and `PTX`: the index in the directory, and in the table.
abbrev pub pdx : ℕ → ℕ
pdx va = va / 0x400000 % 1024

abbrev pub ptx : ℕ → ℕ
ptx va = va / 4096 % 1024

abbrev pub pg_round_down : ℕ → ℕ
pg_round_down a = a / 4096 * 4096

-- `PTE_W | PTE_U`
abbrev pub user_writable : ℕ
user_writable = 6

abbrev pub pte_addr : ℕ → ℕ
pte_addr e = e / 4096 * 4096

abbrev pub pte_flags : ℕ → ℕ
pte_flags e = e % 4096

-- `e & PTE_P` and `e & PTE_U`
abbrev pub is_present : ℕ → Bool
is_present e = e % 2 == 1

abbrev pub is_user : ℕ → Bool
is_user e = e / 4 % 2 == 1

-- `perm | PTE_P`
abbrev pub with_present : ℕ → ℕ
with_present perm = if perm % 2 == 1 then perm else perm + 1

abbrev pub p2v : ℕ → ℕ
p2v a = (a + kernbase) % 2 ^ 32

abbrev pub v2p : ℕ → ℕ
v2p a = (a + 2 ^ 32 - kernbase) % 2 ^ 32

-- `memset(v, 0, PGSIZE)` for an aligned `v`.
unfoldable pub clear_page : Memory → ℕ → Memory
unfolding stosl
clear_page m v = stosl m v 0 1024

-- The address of the entry for `va`, or 0.
unfoldable pub walkpgdir : ℕ → ℕ → Bool → Kmem → ℕ × Kmem
unfolding clear_page
walkpgdir pgdir va alloc k =
    if is_present (k.mem (pgdir + 4 * pdx va))
    then (p2v (pte_addr (k.mem (pgdir + 4 * pdx va))) + 4 * ptx va, k)
    else if not alloc
    then (0, k)
    else let (pgtab, k') = kalloc k in
      if pgtab == 0 then (0, k') else (
        pgtab + 4 * ptx va,
        record k' { mem = update (clear_page k'.mem pgtab) (pgdir + 4 * pdx va) (v2p pgtab + 7) },
      )

-- A round of the loop of `mappages`.
unfoldable pub map_one : ℕ → ℕ → ℕ → ℕ → Kmem → Option (Bool × Kmem)
map_one pgdir a pa perm k =
    let (pte, k') = walkpgdir pgdir a true k in
    if pte == 0
    then some (false, k')
    else if is_present (k'.mem pte)
    then none
    else some (true, record k' { mem = update k'.mem pte (pa + with_present perm) })

-- The loop, with so many rounds after this one.
unfoldable pub map_loop : ℕ → ℕ → ℕ → ℕ → ℕ → Kmem → Option (Bool × Kmem)
unfolding map_one
map_loop zero pgdir a pa perm k = map_one pgdir a pa perm k
map_loop (suc n) pgdir a pa perm k = elim (map_one pgdir a pa perm k) [
  | none ↦ none
  | some (false, k') ↦ some (false, k')
  | some (true, k') ↦ map_loop n pgdir ((a + 4096) % 2 ^ 32) ((pa + 4096) % 2 ^ 32) perm k'
]

-- `a` reaches `last` after `(last - a) / PGSIZE` steps, in 32 bits.
unfoldable pub mappages : ℕ → ℕ → ℕ → ℕ → ℕ → Kmem → Option (Bool × Kmem)
unfolding map_loop
mappages pgdir va size pa perm k =
    let a = pg_round_down va in
    let last = pg_round_down ((va + size + 2 ^ 32 - 1) % 2 ^ 32) in
    map_loop ((last + 2 ^ 32 - a) % 2 ^ 32 / 4096) pgdir a pa perm k

-- A page of the process is freed, and its entry cleared.
unfoldable pub free_entry : ℕ → ℕ → Kmem → Option Kmem
free_entry end pte k =
    if is_present (k.mem pte)
    then if pte_addr (k.mem pte) == 0
      then none
      else elim (kfree end (p2v (pte_addr (k.mem pte))) k) [
        | none ↦ none
        | some k' ↦ some (record k' { mem = update k'.mem pte 0 })
      ]
    else some k

-- The loop of `deallocuvm` for at most `n` rounds. Where there is no table it goes on with the next
-- one.
unfoldable pub dealloc_loop : ℕ → ℕ → ℕ → ℕ → ℕ → Kmem → Option Kmem
unfolding free_entry
dealloc_loop zero end pgdir a oldsz k = some k
dealloc_loop (suc n) end pgdir a oldsz k =
    let (pte, k0) = walkpgdir pgdir a false k in
    let skip = dealloc_loop n end pgdir ((pdx a + 1) * 0x400000) oldsz k in
    let step : Option Kmem = elim (free_entry end pte k) [
      | none ↦ none
      | some k' ↦ dealloc_loop n end pgdir (a + 4096) oldsz k'
    ] in
    if ltb a oldsz then (if pte == 0 then skip else step) else some k

-- `oldsz` is at most KERNBASE, so `a` does not wrap around.
unfoldable pub deallocuvm : ℕ → ℕ → ℕ → ℕ → Kmem → Option (ℕ × Kmem)
unfolding dealloc_loop
deallocuvm end pgdir oldsz newsz k =
    if leb oldsz newsz
    then some (oldsz, k)
    else elim (dealloc_loop (oldsz / 4096 + 1) end pgdir (pg_round_up newsz) oldsz k) [
      | none ↦ none
      | some k' ↦ some (newsz, k')
    ]

-- The loop of `freevm` over the directory, from entry `i` on.
unfoldable pub free_tables : ℕ → ℕ → ℕ → ℕ → Kmem → Option Kmem
free_tables zero end pgdir i k = some k
free_tables (suc n) end pgdir i k =
    let rest = free_tables n end pgdir (i + 1) in
    if is_present (k.mem (pgdir + 4 * i))
    then elim (kfree end (p2v (pte_addr (k.mem (pgdir + 4 * i)))) k) [
      | none ↦ none
      | some k' ↦ rest k'
    ]
    else rest k

unfoldable pub freevm : ℕ → ℕ → Kmem → Option Kmem
unfolding deallocuvm free_tables
freevm end pgdir k = if pgdir == 0 then none else elim (deallocuvm end pgdir kernbase 0 k) [
  | none ↦ none
  | some (sz, k') ↦ elim (free_tables 1024 end pgdir 0 k') [
    | none ↦ none
    | some k'' ↦ kfree end pgdir k''
  ]
]

-- The loop of `allocuvm` for the initial stack, for at most `n` rounds. The new size, or 0.
unfoldable pub alloc_loop : ℕ → ℕ → ℕ → ℕ → ℕ → ℕ → Kmem → Option (ℕ × Kmem)
unfolding deallocuvm mappages clear_page
alloc_loop zero end pgdir a oldsz newsz k = some (newsz, k)
alloc_loop (suc n) end pgdir a oldsz newsz k =
    let (mem, k1) = kalloc k in
    let k2 = record k1 { mem = clear_page k1.mem mem } in
    let undo : Kmem → Option Kmem =
      λ j. elim (deallocuvm end pgdir newsz oldsz j) [ none ↦ none | some (sz, k') ↦ some k' ] in
    let next : Option (ℕ × Kmem) = elim (mappages pgdir a 4096 (v2p mem) user_writable k2) [
      | none ↦ none
      | some (true, k') ↦ alloc_loop n end pgdir (a + 4096) oldsz newsz k'
      | some (false, k') ↦ elim (undo k') [
        | none ↦ none
        | some k'' ↦ elim (kfree end mem k'') [ none ↦ none | some k''' ↦ some (0, k''') ]
      ]
    ] in
    if ltb a newsz
    then if mem == 0 then elim (undo k1) [ none ↦ none | some k' ↦ some (0, k') ] else next
    else some (newsz, k)

unfoldable pub allocuvm : ℕ → ℕ → ℕ → ℕ → Kmem → Option (ℕ × Kmem)
unfolding alloc_loop
allocuvm end pgdir oldsz newsz k =
    if leb kernbase newsz
    then some (0, k)
    else if ltb newsz oldsz
    then some (oldsz, k)
    else if ltb 0 oldsz && (leb (newsz - oldsz) (2 * page_size) && ltb oldsz (10 * page_size))
    then alloc_loop (newsz / 4096 + 1) end pgdir (pg_round_up oldsz) oldsz newsz k
    else some (newsz, k)

-- `kmap`: the virtual address, the physical start and end, and the permissions. `data` is given by
-- the linker, EXTMEM is 0x100000, DEVSPACE 0xFE000000.
abbrev pub kmap : ℕ → List (ℕ × ℕ × ℕ × ℕ)
kmap kdata =
    (kernbase, 0, 0x100000, 2)
    ∷ (kernbase + 0x100000, 0x100000, v2p kdata, 0)
    ∷ (kdata, v2p kdata, phystop, 2)
    ∷ (0xFE000000, 0xFE000000, 0, 2)
    ∷ []

-- The directory, or 0. P2V(PHYSTOP) is below DEVSPACE.
unfoldable pub setup_loop : ℕ → ℕ → List (ℕ × ℕ × ℕ × ℕ) → Kmem → Option (ℕ × Kmem)
unfolding mappages freevm
setup_loop end pgdir [] k = some (pgdir, k)
setup_loop end pgdir ((virt, start, stop, perm) ∷ ms) k =
    elim (mappages pgdir virt ((stop + 2 ^ 32 - start) % 2 ^ 32) start perm k) [
      | none ↦ none
      | some (true, k') ↦ setup_loop end pgdir ms k'
      | some (false, k') ↦ elim (freevm end pgdir k') [ none ↦ none | some k'' ↦ some (0, k'') ]
    ]

unfoldable pub setupkvm : ℕ → ℕ → Kmem → Option (ℕ × Kmem)
unfolding setup_loop
setupkvm end kdata k =
    let (pgdir, k') = kalloc k in
    if pgdir == 0
    then some (0, k')
    else setup_loop end pgdir (kmap kdata) (record k' { mem = clear_page k'.mem pgdir })
