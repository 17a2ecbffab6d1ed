-- ===== src/Ulib.antt =====
-- The string functions that ulib.c adds to those of string.c. A string is the list of its bytes from
-- the pointer on.
mod Tests
use sofinal_project.Prelude.{
  ℕ, zero, suc, ◌+◌, ◌-◌, ◌*◌, ◌%◌, ◌^◌, Bool, true, false, ◌&&◌, ◌||◌, not, Option, none, some,
  List, [], ◌∷◌, leb, ◌==◌, if◌then◌else◌,
}
use sofinal_project.CString.{first, rest, put, byte_diff}

-- Returns the buffer at `s` after the call.
unfoldable pub strcpy : List ℕ → List ℕ → List ℕ
strcpy s [] = put 0 s
strcpy [] (c ∷ t) = []
strcpy (d ∷ s) (c ∷ t) = let more = strcpy s t in if c == 0 then 0 ∷ s else c ∷ more

unfoldable pub strcmp : List ℕ → List ℕ → ℕ
strcmp [] q = byte_diff 0 (first q)
strcmp (c ∷ p) q =
    let more = strcmp p (rest q) in
    if not (c == 0) && c == first q then more else byte_diff c (first q)

-- The string from the character found on.
unfoldable pub strchr : List ℕ → ℕ → Option (List ℕ)
strchr [] c = none
strchr (d ∷ s) c =
    let more = strchr s c in if d == 0 then none else if d == c then some (d ∷ s) else more

-- The loop of `atoi`: `n` is what has been read, in its bit pattern.
unfoldable pub atoi_loop : ℕ → List ℕ → ℕ
atoi_loop n [] = n
atoi_loop n (c ∷ s) =
    let more = atoi_loop ((n * 10 + c - 48) % 2 ^ 32) s in if leb 48 c && leb c 57 then more else n

unfoldable pub atoi : List ℕ → ℕ
unfolding atoi_loop
atoi s = atoi_loop 0 s

-- The loop of `gets` with room for `k` more characters: the characters read from `input` and stored.
-- A read from an empty input ends it.
unfoldable pub gets_loop : ℕ → List ℕ → List ℕ
gets_loop zero input = []
gets_loop (suc k) [] = []
gets_loop (suc k) (c ∷ input) =
    let more = gets_loop k input in if c == 10 || c == 13 then c ∷ [] else c ∷ more

-- The string that is in the buffer afterwards, without its null byte.
unfoldable pub gets : ℕ → List ℕ → List ℕ
unfolding gets_loop
gets max input = gets_loop (max - 1) input
