-- ===== src/CString.antt =====
-- string.c. A string or a buffer is the list of its bytes from the pointer on; a read past the end
-- of the list gives 0, and a write past it is lost. `memmove` and `memset`, whose buffers may
-- overlap or be read as words, work on memory as a function of the address.
pub mod Compare
pub mod Copy
pub mod Move
mod Tests
use sofinal_project.Prelude.{
  ℕ, zero, suc, ◌+◌, ◌-◌, ◌*◌, ◌/◌, ◌%◌, ◌^◌, Bool, true, false, ◌&&◌, not, List, [], ◌∷◌, ltb,
  ◌==◌, if◌then◌else◌, update,
}

-- `*p` and `p + 1`.
abbrev pub first : List ℕ → ℕ
first [] = 0
first (c ∷ cs) = c

abbrev pub rest : List ℕ → List ℕ
rest [] = []
rest (c ∷ cs) = cs

-- `p[k]`
abbrev pub byte_at : List ℕ → ℕ → ℕ
byte_at s zero = first s
byte_at s (suc k) = byte_at (rest s) k

-- The string at `s`, cut off after `n` bytes.
abbrev pub string_of : ℕ → List ℕ → List ℕ
string_of zero s = []
string_of (suc n) s = let more = string_of n (rest s) in if first s == 0 then [] else first s ∷ more

-- `*s = c`
abbrev pub put : ℕ → List ℕ → List ℕ
put c [] = []
put c (s ∷ ss) = c ∷ ss

-- The difference of two bytes as an `int`, in its bit pattern.
abbrev pub byte_diff : ℕ → ℕ → ℕ
byte_diff a b = (a + 2 ^ 32 - b) % 2 ^ 32

unfoldable pub memcmp : List ℕ → List ℕ → ℕ → ℕ
memcmp s1 s2 zero = 0
memcmp s1 s2 (suc n) =
    let more = memcmp (rest s1) (rest s2) n in
    if first s1 == first s2 then more else byte_diff (first s1) (first s2)

unfoldable pub strncmp : List ℕ → List ℕ → ℕ → ℕ
strncmp p q zero = 0
strncmp p q (suc n) =
    let more = strncmp (rest p) (rest q) n in
    if not (first p == 0) && first p == first q then more else byte_diff (first p) (first q)

-- `while(n-- > 0) *s++ = 0`
unfoldable pub pad_zero : ℕ → List ℕ → List ℕ
pad_zero zero s = s
pad_zero (suc n) [] = []
pad_zero (suc n) (c ∷ s) = 0 ∷ pad_zero n s

-- Returns the buffer at `s` after the call.
unfoldable pub strncpy : List ℕ → List ℕ → ℕ → List ℕ
unfolding pad_zero
strncpy s t zero = s
strncpy [] t (suc n) = []
strncpy (c ∷ s) t (suc n) =
    let more = strncpy s (rest t) n in if first t == 0 then 0 ∷ pad_zero n s else first t ∷ more

-- The loop and the final write of `safestrcpy`, for `n` above 0. After a copied 0 the final write
-- goes to the byte behind it.
unfoldable pub safe_loop : List ℕ → List ℕ → ℕ → List ℕ
safe_loop s t zero = put 0 s
safe_loop [] t (suc n) = []
safe_loop (c ∷ s) t (suc n) =
    let more = safe_loop s (rest t) n in if first t == 0 then 0 ∷ put 0 s else first t ∷ more

unfoldable pub safestrcpy : List ℕ → List ℕ → ℕ → List ℕ
unfolding safe_loop
safestrcpy s t zero = s
safestrcpy s t (suc n) = safe_loop s t n

unfoldable pub strlen : List ℕ → ℕ
strlen [] = 0
strlen (c ∷ s) = let more = strlen s in if c == 0 then 0 else more + 1

-- `*d++ = *s++`, n times.
unfoldable pub copy_up : (ℕ → ℕ) → ℕ → ℕ → ℕ → ℕ → ℕ
copy_up m d s zero = m
copy_up m d s (suc n) = copy_up (update m d (m s)) (d + 1) (s + 1) n

-- `*--d = *--s`, n times, from the ends `d + n` and `s + n`.
unfoldable pub copy_down : (ℕ → ℕ) → ℕ → ℕ → ℕ → ℕ → ℕ
copy_down m d s zero = m
copy_down m d s (suc n) = copy_down (update m (d + n) (m (s + n))) d s n

-- Addresses do not wrap: the buffers lie in memory.
unfoldable pub memmove : (ℕ → ℕ) → ℕ → ℕ → ℕ → ℕ → ℕ
unfolding copy_up copy_down
memmove m dst src n =
    if ltb src dst && ltb dst (src + n) then copy_down m dst src n else copy_up m dst src n

unfoldable pub memcpy : (ℕ → ℕ) → ℕ → ℕ → ℕ → ℕ → ℕ
unfolding memmove
memcpy m dst src n = memmove m dst src n
