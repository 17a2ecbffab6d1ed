-- ===== src/Kalloc.antt =====
-- kalloc.c: the physical page allocator, a stack of free pages linked through the pages themselves.
-- An address is a number below 2 ^ 32. Memory is read and written in 32-bit words, as the code
-- does it: `memset` of an aligned page stores words (string.c), and `r->next` is a word.
-- The lock `kmem.lock` makes each operation one atomic step, so `use_lock` is a flag with no effect.
pub mod FreeList
pub mod Laws
pub mod Range
mod Tests
use sofinal_project.Prelude.{
  ℕ, zero, suc, ◌+◌, ◌-◌, ◌*◌, ◌/◌, ◌%◌, ◌^◌, Bool, true, false, ◌||◌, not, Option, none, some, ltb,
  leb, ◌==◌, if◌then◌else◌, update,
}

abbrev pub page_size : ℕ
page_size = 4096

abbrev pub kernbase : ℕ
kernbase = 0x80000000

abbrev pub phystop : ℕ
phystop = 0xE000000

abbrev pub Memory : Type 0
Memory = ℕ → ℕ

-- `kmem`, with the memory that the free list runs through.
pub record Kmem : Type 0 where
  pub use_lock : Bool
  pub freelist : ℕ
  pub mem : Memory

-- `rep stosl`: `cnt` words of `w` upwards from `a`.
unfoldable pub stosl : Memory → ℕ → ℕ → ℕ → Memory
stosl m a w zero = m
stosl m a w (suc cnt) = stosl (update m a w) (a + 4) w cnt

-- `memset(v, 1, PGSIZE)` for an aligned `v`.
pub fill_junk : Memory → ℕ → Memory
unfolding stosl
fill_junk m v = stosl m v 0x01010101 (page_size / 4)

-- `(uint)v % PGSIZE || v < end || V2P(v) >= PHYSTOP`; `V2P` subtracts in 32 bits.
pub bad_page : ℕ → ℕ → Bool
bad_page end v =
    not (v % page_size == 0) || (ltb v end || leb phystop ((v + 2 ^ 32 - kernbase) % 2 ^ 32))

-- `none` is the panic. `end` is the first address after the kernel, which the linker chooses.
unfoldable pub kfree : ℕ → ℕ → Kmem → Option Kmem
unfolding bad_page
kfree end v k =
    if bad_page end v
    then none
    else some (record k { mem = update (fill_junk k.mem v) v k.freelist; freelist = v })

-- Returns the page, or 0.
unfoldable pub kalloc : Kmem → ℕ × Kmem
kalloc k =
    if k.freelist == 0 then (0, k) else (k.freelist, record k { freelist = k.mem k.freelist })

-- `PGROUNDUP` on `uint`.
abbrev pub pg_round_up : ℕ → ℕ
pg_round_up a = (a + (page_size - 1)) % 2 ^ 32 / page_size * page_size

-- The loop of `freerange` on the rounds that are left.
pub free_loop : ℕ → ℕ → ℕ → ℕ → Kmem → Option Kmem
free_loop zero end p vend k = some k
free_loop (suc n) end p vend k =
    if leb (p + page_size) vend
    then elim (kfree end p k) [ none ↦ none | some k' ↦ free_loop n end (p + page_size) vend k' ]
    else some k

-- The loop ends after at most `vend / page_size` rounds.
unfoldable pub freerange : ℕ → ℕ → ℕ → Kmem → Option Kmem
unfolding free_loop
freerange end vstart vend k = free_loop (vend / page_size + 1) end (pg_round_up vstart) vend k

unfoldable pub kinit1 : ℕ → ℕ → ℕ → Kmem → Option Kmem
kinit1 end vstart vend k = freerange end vstart vend (record k { use_lock = false })

unfoldable pub kinit2 : ℕ → ℕ → ℕ → Kmem → Option Kmem
kinit2 end vstart vend k = elim (freerange end vstart vend k) [
  | none ↦ none
  | some k' ↦ some (record k' { use_lock = true })
]
