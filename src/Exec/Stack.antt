-- ===== src/Exec/Stack.antt =====
-- The second part of `exec`: the user stack with the arguments.
use sofinal_project.Prelude.{
  ℕ, ◌+◌, ◌-◌, ◌*◌, ◌/◌, ◌%◌, ◌^◌, true, false, Option, none, some, List, [], ◌∷◌, ◌++◌, leb, ◌==◌,
  if◌then◌else◌, length,
}
use sofinal_project.Kalloc.{Kmem, pg_round_up}
use sofinal_project.Vm.{allocuvm}
use sofinal_project.Vm.Copy.{clearpteu}
use sofinal_project.Exec.Memory.{copyout}

abbrev pub max_arg : ℕ
max_arg = 32

-- The bytes of `ustack`.
abbrev pub word_bytes : ℕ → List ℕ
word_bytes w = w % 256 ∷ w / 256 % 256 ∷ w / 0x10000 % 256 ∷ w / 0x1000000 % 256 ∷ []

abbrev pub words_bytes : List ℕ → List ℕ
words_bytes [] = []
words_bytes (w ∷ ws) = word_bytes w ++ words_bytes ws

-- `(sp - n) & ~3`
abbrev pub aligned_below : ℕ → ℕ → ℕ
aligned_below sp n = (sp + 2 ^ 32 - n) % 2 ^ 32 / 4 * 4

-- The loop over the arguments that are left, with the addresses of those that are on the stack. In the
-- pair, `none` is `goto bad`.
unfoldable pub push_args :
    ℕ → List (List ℕ) → ℕ → List ℕ → Kmem → Option (Option (ℕ × List ℕ) × Kmem)
unfolding copyout
push_args pgdir [] sp ustack k = some (some (sp, ustack), k)
push_args pgdir (s ∷ argv) sp ustack k =
    let sp' = aligned_below sp (length s + 1) in
    if leb max_arg (length ustack)
    then some (none, k)
    else elim (copyout pgdir sp' (s ++ 0 ∷ []) k) [
      | none ↦ none
      | some (false, k') ↦ some (none, k')
      | some (true, k') ↦ push_args pgdir argv sp' (ustack ++ sp' ∷ []) k'
    ]

-- The return PC, `argc`, `argv` and the pointers.
unfoldable pub push_frame : ℕ → ℕ → List ℕ → Kmem → Option (Option ℕ × Kmem)
push_frame pgdir sp ustack k =
    let argc = length ustack in
    let sp' = (sp + 2 ^ 32 - (3 + argc + 1) * 4) % 2 ^ 32 in
    let frame = 0xffffffff ∷ argc ∷ (sp + 2 ^ 32 - (argc + 1) * 4) % 2 ^ 32 ∷ (ustack ++ 0 ∷ []) in
    elim (copyout pgdir sp' (words_bytes frame) k) [
      | none ↦ none
      | some (false, k') ↦ some (none, k')
      | some (true, k') ↦ some (some sp', k')
    ]

-- Behind `allocuvm`: the guard page, the arguments and the frame. The stack pointer.
unfoldable pub fill_stack : ℕ → ℕ → List (List ℕ) → Kmem → Option (Option ℕ × Kmem)
unfolding push_args push_frame
fill_stack pgdir sz argv k = elim (clearpteu pgdir (sz - 8192) k) [
  | none ↦ none
  | some k' ↦ elim (push_args pgdir argv sz [] k') [
    | none ↦ none
    | some (none, j) ↦ some (none, j)
    | some (some (sp, ustack), j) ↦ push_frame pgdir sp ustack j
  ]
]

-- The size of the process and its stack pointer.
unfoldable pub build_stack : ℕ → ℕ → ℕ → List (List ℕ) → Kmem → Option (Option (ℕ × ℕ) × Kmem)
unfolding fill_stack
build_stack end pgdir loaded argv k =
    let sz = pg_round_up loaded in
    elim (allocuvm end pgdir sz ((sz + 8192) % 2 ^ 32) k) [
      | none ↦ none
      | some (sz', k') ↦ if sz' == 0 then some (none, k') else elim (fill_stack pgdir sz' argv k') [
        | none ↦ none
        | some (none, j) ↦ some (none, j)
        | some (some sp, j) ↦ some (some (sz', sp), j)
      ]
    ]
