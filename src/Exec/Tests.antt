-- ===== src/Exec/Tests.antt =====
-- A directory with one table, and a program of ten pages.
use sofinal_project.Prelude.{
  ℕ, ◌≡◌, refl, Bool, true, false, Option, some, List, [], ◌∷◌, ◌==◌, if◌then◌else◌,
}
use sofinal_project.Kalloc.{Kmem}
use sofinal_project.Vm.{walkpgdir}
use sofinal_project.Vm.Copy.{uva2ka}
use sofinal_project.Syscall.{Bytes, fetchint, fetchstr, argint, argstr}
use sofinal_project.Exec.Memory.{store_bytes, store_byte, copyout}
use sofinal_project.Exec.Program.{Program}
use sofinal_project.Exec.Arguments.{exec_arguments}
use sofinal_project.Exec.LargeProgram.{entry_of}

abbrev one_table : Kmem
one_table = record {
  use_lock = false;
  freelist = 0;
  mem = λ a. if a == 0x80400000 then 0x401007 else if a == 0x80401000 then 0x402007 else 0;
}

abbrev shell : Program
shell = record { pgdir = 0x80500000; sz = 8192; eip = 0; esp = 8000; name = 115 ∷ 104 ∷ 0 ∷ [] }

first_of : List (List ℕ) → List ℕ
first_of [] = []
first_of (s ∷ ss) = s

-- Both tables are there.
tables_there :
    (entry_of 0x80400000 40960 one_table ≡ 0x80401028)
    × (entry_of 0x80400000 45056 one_table ≡ 0x8040102c)
unfolding walkpgdir
tables_there = (refl, refl)

-- Three bytes across the end of a page.
abbrev copied : Option (Bool × Kmem) → List ℕ
copied (some (true, k)) = k.mem 0x80402000 ∷ []
copied r = []

copies_word : copied (copyout 0x80400000 1 (1 ∷ 2 ∷ 3 ∷ []) one_table) ≡ 0x03020100 ∷ []
unfolding copyout uva2ka walkpgdir store_bytes store_byte
copies_word = refl

-- exec("a", {"a", "b"}): the stack is at 0, the strings at 40.
abbrev user : Bytes
user a =
    if a == 4
    then 40
    else if a == 8
    then 16
    else if a == 16
    then 40
    else if a == 20
    then 42
    else if a == 40
    then 97
    else if a == 42
    then 98
    else 0

two_arguments : exec_arguments 64 user 0 ≡ some (97 ∷ [], (97 ∷ []) ∷ (98 ∷ []) ∷ [])
unfolding exec_arguments fetchint fetchstr argint argstr
two_arguments = refl
