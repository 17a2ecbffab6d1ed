-- ===== src/Life/Exit.antt =====
-- proc.c: `exit`, up to its switch to the scheduler.
pub mod Laws
pub mod Wakes
use sofinal_project.Prelude.{
  ℕ, zero, suc, ◌+◌, ◌-◌, ◌/◌, Bool, true, false, ◌&&◌, ◌||◌, not, Option, none, some, List, [],
  ◌∷◌, ◌++◌, map, length, ◌==◌, if◌then◌else◌, get_elem?, modify, find_first, update,
}
use sofinal_project.Kalloc.{Memory, Kmem, stosl, kalloc, kfree}
use sofinal_project.File.{File, Closing, inode_put, filedup, fileclose}
use sofinal_project.Inode.{Inode, idup}
use sofinal_project.CString.{safestrcpy, put}
use sofinal_project.Proc.{
  Proc, ProcState, unused, embryo, sleeping, runnable, zombie, is_unused, is_zombie, Chan, entry,
  wakeup1,
}
use sofinal_project.Life.Kernel.{Kernel, Env}

-- The first loop of `exit`: closes the open files, and collects what their closing leaves to do.
pub close_files : List (Option ℕ) → List File → Option (List Closing × List File)
close_files [] fs = some ([], fs)
close_files (none ∷ os) fs = close_files os fs
close_files (some f ∷ os) fs = elim (fileclose f fs) [
  | none ↦ none
  | some (c, fs1) ↦ elim (close_files os fs1) [ none ↦ none | some (cs, fs') ↦ some (c ∷ cs, fs') ]
]

abbrev pub names : ℕ → Option ℕ → Bool
names self none = false
names self (some i) = i == self

-- `p->parent == curproc`
abbrev pub is_child : ℕ → Proc → Bool
is_child self p = names self p.parent

-- A child in slot `i` passes to init, which is woken if the child has exited already.
abbrev pub adopt : ℕ → ℕ → Proc → List Proc → List Proc
adopt init i p ps =
    let qs = modify ps i (λ p. record p { parent = some init }) in
    if is_zombie p.state then wakeup1 (some (entry init)) qs else qs

-- The second loop of `exit`, over `n` slots from `i` on. A wakeup may change slots already passed.
unfoldable pub reparent : ℕ → ℕ → ℕ → ℕ → List Proc → List Proc
reparent self init zero i ps = ps
reparent self init (suc n) i ps = reparent self init n (i + 1) (elim (get_elem? ps i) [
  | none ↦ ps
  | some p ↦ if is_child self p then adopt init i p ps else ps
])

abbrev pub wake_parent : Proc → List Proc → List Proc
wake_parent p ps = wakeup1 (elim (p.parent) [ none ↦ none | some i ↦ some (entry i) ]) ps

-- What `exit` does under `ptable.lock`, up to the switch to the scheduler.
unfoldable pub exit_table : ℕ → ℕ → List Proc → Option (List Proc)
unfolding reparent
exit_table self init ps = elim (get_elem? ps self) [
  | none ↦ none
  | some p ↦ some (
      modify (reparent self init (length ps) 0 (wake_parent p ps)) self
        (λ p. record p { state = zombie }))
]

abbrev pub no_files : List (Option ℕ) → List (Option ℕ)
no_files os = map (λ _. none) os

abbrev pub put_cwd : Option ℕ → List Closing
put_cwd none = []
put_cwd (some i) = inode_put i ∷ []

-- `exit`, up to the switch to the scheduler. The closings are carried out by the caller, in order;
-- that of the current directory is the last.
unfoldable pub exit : ℕ → Kernel → Option (List Closing × Kernel)
unfolding close_files exit_table
exit self k = if self == k.initproc then none else elim (get_elem? k.procs self) [
  | none ↦ none
  | some p ↦ elim (close_files p.ofile k.files) [
    | none ↦ none
    | some (cs, files) ↦
        let shut = modify k.procs self (λ p. record p { ofile = no_files p.ofile; cwd = none }) in
        elim (exit_table self k.initproc shut) [
          | none ↦ none
          | some procs ↦ some (cs ++ put_cwd p.cwd, record k { procs = procs; files = files })
        ]
  ]
]
