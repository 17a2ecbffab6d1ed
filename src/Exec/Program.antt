-- ===== src/Exec/Program.antt =====
-- `exec` as a whole, and the name of the program.
use sofinal_project.Prelude.{ℕ, Option, none, some, List, [], ◌∷◌, ◌==◌, if◌then◌else◌}
use sofinal_project.CString.{safestrcpy}
use sofinal_project.Path.{slash}
use sofinal_project.Kalloc.{Kmem}
use sofinal_project.Vm.{freevm}
use sofinal_project.Sys.{M, pure, ◌>>=◌, ◌>>◌, maybe, begin_op, end_op, ilock_at, iunlockput_at}
use sofinal_project.Sys.Names.{namei}
use sofinal_project.Sys.Calls.{Code, failed}
use sofinal_project.Exec.Loading.{required, load_image}
use sofinal_project.Exec.Stack.{build_stack}

-- The fields of the process that `exec` sets.
pub record Program : Type 0 where
  pub pgdir : ℕ
  pub sz : ℕ
  pub eip : ℕ
  pub esp : ℕ
  pub name : List ℕ

-- What follows the last slash of the path.
abbrev pub last_name : List ℕ → List ℕ → List ℕ
last_name last [] = last
last_name last (c ∷ s) = if c == slash then last_name s s else last_name last s

-- `if(pgdir) freevm(pgdir)`
abbrev pub free_if_made : ℕ → ℕ → Kmem → Option Kmem
free_if_made end pgdir k = if pgdir == 0 then some k else freevm end pgdir k

-- From the stack on: the code that follows `ip = 0`.
unfoldable pub run_image :
    ℕ → List ℕ → List (List ℕ) → ℕ → ℕ → ℕ → Program → Kmem → Option (Code × Program × Kmem)
unfolding build_stack
run_image end path argv pgdir loaded entry p k = elim (build_stack end pgdir loaded argv k) [
  | none ↦ none
  | some (none, k') ↦ elim (free_if_made end pgdir k') [
    | none ↦ none
    | some k'' ↦ some (failed, p, k'')
  ]
  | some (some (sz, sp), k') ↦ elim (freevm end p.pgdir k') [
    | none ↦ none
    | some k'' ↦ some (
      some 0,
      record {
        pgdir = pgdir;
        sz = sz;
        eip = entry;
        esp = sp;
        name = safestrcpy p.name (last_name path path) 16;
      },
      k'',
    )
  ]
]

-- `bad:` with the inode locked.
unfoldable pub exec_bad : ℕ → ℕ → ℕ → Program → Kmem → M (Code × Program × Kmem)
unfolding iunlockput_at end_op
exec_bad end ip pgdir p k = do
  k' ← required (free_if_made end pgdir k)
  iunlockput_at ip
  end_op
  pure (failed, p, k')

unfoldable pub exec :
    ℕ → ℕ → Option (List ℕ) → List ℕ → List (List ℕ) → Program → Kmem → M (Code × Program × Kmem)
unfolding begin_op end_op namei ilock_at iunlockput_at load_image exec_bad run_image
exec end kdata device path argv p k = do
  begin_op
  found ← namei path
  maybe found (do end_op; pure (failed, p, k))
      (λ ip. do
        ilock_at ip
        loaded ← load_image end kdata device ip k
        maybe loaded.0.image (exec_bad end ip loaded.0.pgdir p loaded.1) (λ image. do
          iunlockput_at ip
          end_op
          required (run_image end path argv loaded.0.pgdir image.0 image.1 p loaded.1)))
