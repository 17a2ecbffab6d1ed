-- ===== src/Syscall.antt =====
-- The argument checks of syscall.c. `sz` is the size of the process, memory is a function from
-- addresses to bytes, and -1 is `none`.
pub mod Bounds
mod Tests
use sofinal_project.Prelude.{
  ℕ, zero, suc, ◌+◌, ◌-◌, ◌*◌, ◌%◌, ◌^◌, Bool, true, false, ◌||◌, Option, none, some, ltb, leb,
  ◌==◌, if◌then◌else◌,
}

abbrev pub Bytes : Type 0
Bytes = ℕ → ℕ

-- `*(int*)(addr)`, in its bit pattern.
abbrev pub int_at : Bytes → ℕ → ℕ
int_at mem addr =
    mem addr + 2 ^ 8 * mem (addr + 1) + 2 ^ 16 * mem (addr + 2) + 2 ^ 24 * mem (addr + 3)

unfoldable pub fetchint : ℕ → Bytes → ℕ → Option ℕ
fetchint sz mem addr =
    if leb sz addr || ltb sz ((addr + 4) % 2 ^ 32) then none else some (int_at mem addr)

-- The loop of `fetchstr` at `s`, with `left` bytes before `ep` and `n` behind.
pub fetchstr_loop : Bytes → ℕ → ℕ → ℕ → Option ℕ
fetchstr_loop mem s n zero = none
fetchstr_loop mem s n (suc left) =
    let later = fetchstr_loop mem (s + 1) (n + 1) left in if mem s == 0 then some n else later

-- The pointer and the length of the string.
unfoldable pub fetchstr : ℕ → Bytes → ℕ → Option (ℕ × ℕ)
unfolding fetchstr_loop
fetchstr sz mem addr =
    if leb sz addr
    then none
    else elim (fetchstr_loop mem addr 0 (sz - addr)) [ none ↦ none | some n ↦ some (addr, n) ]

-- `esp` is the saved stack pointer.
unfoldable pub argint : ℕ → Bytes → ℕ → ℕ → Option ℕ
unfolding fetchint
argint sz mem esp n = fetchint sz mem ((esp + 4 + 4 * n) % 2 ^ 32)

-- `size` in its bit pattern: it is negative from 2 ^ 31 on.
unfoldable pub argptr : ℕ → Bytes → ℕ → ℕ → ℕ → Option ℕ
unfolding argint
argptr sz mem esp n size = elim (argint sz mem esp n) [
  | none ↦ none
  | some i ↦ if leb (2 ^ 31) size || leb sz i || ltb sz ((i + size) % 2 ^ 32) then none else some i
]

unfoldable pub argstr : ℕ → Bytes → ℕ → ℕ → Option (ℕ × ℕ)
unfolding argint fetchstr
argstr sz mem esp n = elim (argint sz mem esp n) [ none ↦ none | some addr ↦ fetchstr sz mem addr ]
