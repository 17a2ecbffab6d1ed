-- ===== src/Fd.antt =====
-- File descriptors in sysfile.c: `argfd` and `fdalloc`, over a process's table of open files. An
-- open file is its slot in the file table.
mod Tests
use sofinal_project.Prelude.{
  ℕ, ◌+◌, Bool, true, false, Option, none, some, List, get_elem?, modify, find_first,
}
use sofinal_project.Syscall.{Bytes, argint}

-- The descriptor and the file. The table has NOFILE entries, and a negative descriptor is a number
-- behind all of them.
unfoldable pub argfd : ℕ → Bytes → ℕ → List (Option ℕ) → ℕ → Option (ℕ × ℕ)
argfd sz mem esp ofile n = elim (argint sz mem esp n) [
  | none ↦ none
  | some fd ↦ elim (get_elem? ofile fd) [
    | none ↦ none
    | some none ↦ none
    | some (some f) ↦ some (fd, f)
  ]
]

abbrev pub is_closed : Option ℕ → Bool
is_closed none = true
is_closed (some f) = false

unfoldable pub fdalloc : ℕ → List (Option ℕ) → Option (ℕ × List (Option ℕ))
unfolding sofinal_project.Prelude.find_first
fdalloc f ofile = elim (find_first is_closed ofile) [
  | none ↦ none
  | some fd ↦ some (fd, modify ofile fd (λ _. some f))
]
