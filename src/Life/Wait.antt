-- ===== src/Life/Wait.antt =====
-- proc.c: `wait`, one pass of its loop at a time.
pub mod Laws
use sofinal_project.Prelude.{
  ℕ, zero, suc, ◌+◌, ◌-◌, ◌/◌, Bool, true, false, ◌&&◌, ◌||◌, not, Option, none, some, List, [],
  ◌∷◌, ◌++◌, map, length, ◌==◌, if◌then◌else◌, get_elem?, modify, find_first, update,
}
use sofinal_project.Kalloc.{Memory, Kmem, stosl, kalloc, kfree}
use sofinal_project.File.{File, Closing, inode_put, filedup, fileclose}
use sofinal_project.Inode.{Inode, idup}
use sofinal_project.CString.{safestrcpy, put}
use sofinal_project.Proc.{
  Proc, ProcState, unused, embryo, sleeping, runnable, zombie, is_unused, is_zombie, Chan, entry,
  wakeup1,
}
use sofinal_project.Life.Kernel.{Kernel, Env}
use sofinal_project.Life.Exit.{is_child}

-- What one pass of `wait` over the table finds, from slot `i` on.
pub record Children : Type 0 where
  pub any : Bool
  pub exited : Option ℕ

-- The scan stops at the first child that is a zombie.
pub scan_children : ℕ → ℕ → List Proc → Children
scan_children self i [] = record { any = false; exited = none }
scan_children self i (p ∷ ps) =
    let later = scan_children self (suc i) ps in
    if is_child self p
    then if is_zombie p.state
      then record { any = true; exited = some i }
      else record later { any = true }
    else later

abbrev pub clear_entry : Proc → Proc
clear_entry p = record p {
  kstack = 0;
  pid = 0;
  parent = none;
  name = put 0 p.name;
  killed = false;
  state = unused;
}

-- `wait` returns a pid, returns -1, or goes to sleep on the caller's own entry.
pub data Waited : Type 0 where
  reaped : (pid : ℕ) → Waited
  no_child : Waited
  sleeps : Waited

pub reap : Env → ℕ → Proc → Kernel → Option (Waited × Kernel)
reap env i p k = elim (kfree env.end p.kstack k.kmem) [
  | none ↦ none
  | some kmem ↦ elim (env.freevm p.pgdir kmem) [
    | none ↦ none
    | some kmem' ↦
        some (reaped p.pid, record k { procs = modify k.procs i clear_entry; kmem = kmem' })
  ]
]

-- One pass of the loop of `wait` by the process in slot `self`. After `sleeps` it is run again when
-- the process has been woken.
unfoldable pub wait_pass : Env → ℕ → Kernel → Option (Waited × Kernel)
unfolding scan_children reap
wait_pass env self k =
    let found = scan_children self 0 k.procs in
    elim (found.exited) [
      | some i ↦ elim (get_elem? k.procs i) [ none ↦ none | some p ↦ reap env i p k ]
      | none ↦ elim (get_elem? k.procs self) [
        | none ↦ none
        | some me ↦
            if not found.any || me.killed
            then some (no_child, k)
            else some (
              sleeps,
              record k {
                procs =
                    modify k.procs self
                      (λ p. record p { chan = some (entry self); state = sleeping });
              },
            )
      ]
    ]
