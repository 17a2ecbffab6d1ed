-- ===== src/Exec/Arguments.antt =====
-- `sys_exec`: the path and the arguments in the memory of the process.
use sofinal_project.Prelude.{
  ℕ, zero, suc, ◌+◌, ◌%◌, ◌^◌, Option, none, some, List, [], ◌∷◌, ◌==◌, if◌then◌else◌,
}
use sofinal_project.Kalloc.{Kmem}
use sofinal_project.Syscall.{Bytes, fetchint, fetchstr, argint, argstr}
use sofinal_project.Sys.{M, pure, maybe}
use sofinal_project.Sys.Calls.{Code, failed}
use sofinal_project.Exec.Stack.{max_arg}
use sofinal_project.Exec.Program.{Program, exec}

-- The `n` bytes of a string.
unfoldable pub string_at : Bytes → ℕ → ℕ → List ℕ
string_at mem p zero = []
string_at mem p (suc n) = mem p ∷ string_at mem (p + 1) n

-- The loop over the pointers from `a` on, when the array has room for `n` more.
unfoldable pub fetch_args : ℕ → ℕ → Bytes → ℕ → Option (List (List ℕ))
unfolding string_at
fetch_args zero sz mem a = none
fetch_args (suc n) sz mem a =
    let more = fetch_args n sz mem ((a + 4) % 2 ^ 32) in
    let next : ℕ → Option (List (List ℕ)) = λ uarg. elim (fetchstr sz mem uarg) [
      | none ↦ none
      | some (p, len) ↦ elim more [ none ↦ none | some argv ↦ some (string_at mem p len ∷ argv) ]
    ] in
    elim (fetchint sz mem a) [ none ↦ none | some uarg ↦ if uarg == 0 then some [] else next uarg ]

-- The path and the arguments.
unfoldable pub exec_arguments : ℕ → Bytes → ℕ → Option (List ℕ × List (List ℕ))
unfolding fetch_args
exec_arguments sz mem esp = elim (argstr sz mem esp 0) [
  | none ↦ none
  | some (p, len) ↦ elim (argint sz mem esp 1) [
    | none ↦ none
    | some uargv ↦ elim (fetch_args max_arg sz mem uargv) [
      | none ↦ none
      | some argv ↦ some (string_at mem p len, argv)
    ]
  ]
]

unfoldable pub sys_exec :
    ℕ → ℕ → Option (List ℕ) → Bytes → ℕ → Program → Kmem → M (Code × Program × Kmem)
unfolding exec_arguments exec
sys_exec end kdata device mem esp p k =
    maybe (exec_arguments p.sz mem esp) (pure (failed, p, k))
      (λ a. exec end kdata device a.0 a.1 p k)
