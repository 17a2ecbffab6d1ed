-- ===== src/Life/Tests.antt =====
-- The life of a process at a table of three slots.
use sofinal_project.Prelude.{
  ℕ, zero, suc, ◌+◌, ◌≡◌, ◌≢◌, ◌<◌, ◌⊎◌, inl, inr, refl, Bool, true, false, Option, none, some,
  List, [], ◌∷◌, arith, get_elem?, modify, IsFirst, if◌then◌else◌, update,
}
use sofinal_project.Kalloc.{Kmem, kalloc}
use sofinal_project.Kalloc.FreeList.{nil, IsFree}
use sofinal_project.Proc.{
  Proc, ProcState, unused, embryo, sleeping, runnable, running, zombie, Chan, entry, kill, Status,
  done,
}
use sofinal_project.Life.Kernel.{Kernel, Env}
use sofinal_project.Life.Fork.{allocproc, fork, fork_into}
use sofinal_project.Life.Fork.Laws.{free_slot, IsPidSafe, allocproc-IsPidSafe}
use sofinal_project.Life.Fork.Poison.{ZeroIsUnused, kill_zero-poisons}
use sofinal_project.Life.Exit.{exit_table}
use sofinal_project.Life.Exit.Laws.{Survives, exit_table_lem, exit_table-orphans}
use sofinal_project.Life.Wait.{reaped, wait_pass}
use sofinal_project.Life.Wait.Laws.{
  zombie_child, vacated, HaveStacks, wait_pass-reaps, wait_pass-exit_table,
}

abbrev proc : ProcState → ℕ → Option ℕ → Option Chan → Proc
proc s pid parent chan = record {
  sz = 4096;
  pgdir = 1;
  kstack = 0x80200000;
  state = s;
  pid = pid;
  parent = parent;
  tf = 0;
  context = 0;
  chan = chan;
  killed = false;
  ofile = [];
  cwd = none;
  name = [];
  priority = 4;
  ticks_waiting = 0;
}

-- init in slot 0, a shell in slot 1, and an empty slot.
abbrev table : List Proc
table =
    proc sleeping 1 none (some (entry 0))
    ∷ proc running 2 (some 0) none
    ∷ proc unused 0 none none
    ∷ []

abbrev memory : Kmem
memory = record { use_lock = true; freelist = 0x80201000; mem = λ a. 0 }

abbrev kernel : List Proc → Kernel
kernel ps = record { procs = ps; nextpid = 3; initproc = 0; kmem = memory; files = []; inodes = [] }

-- Page tables that are copied to page 7, and freed for nothing.
abbrev env : Env
env = record {
  end = 0x80115000;
  forkret = 1;
  trapret = 2;
  copyuvm = λ pgdir sz k. (7, k);
  freevm = λ pgdir k. some k;
}

slot : IsFirst free_slot table 2 (proc unused 0 none none)
slot = record { at = refl; passes = refl; earlier = earlier }
  where
    earlier : (j : ℕ) (y : Proc) → j < 2 → get_elem? table j ≡ some y → free_slot y ≡ false
    earlier zero y lt g = ground arith
    earlier (suc zero) y lt g = ground arith
    earlier (suc (suc j)) y lt g = absurd (omega arith)

page : (kalloc memory).0 ≢ 0
unfolding kalloc
page = omega arith

table-IsPidSafe : IsPidSafe table 3
table-IsPidSafe = record { positive = omega arith; fresh = fresh; unique = unique }
  where
    fresh : (j : ℕ) (q : Proc) → get_elem? table j ≡ some q → q.pid < 3
    fresh zero q g = ground arith
    fresh (suc zero) q g = ground arith
    fresh (suc (suc zero)) q g = ground arith
    fresh (suc (suc (suc j))) q g = cc

    unique :
        (i j : ℕ) (p q : Proc)
        → get_elem? table i ≡ some p
        → get_elem? table j ≡ some q
        → p.pid ≡ q.pid
        → 0 < p.pid
        → i ≡ j
    unique zero zero p q gp gq e pos = refl
    unique zero (suc zero) p q gp gq e pos = absurd (ground arith)
    unique zero (suc (suc zero)) p q gp gq e pos = absurd (ground arith)
    unique zero (suc (suc (suc j))) p q gp gq e pos = cc
    unique (suc zero) zero p q gp gq e pos = absurd (ground arith)
    unique (suc zero) (suc zero) p q gp gq e pos = refl
    unique (suc zero) (suc (suc zero)) p q gp gq e pos = absurd (ground arith)
    unique (suc zero) (suc (suc (suc j))) p q gp gq e pos = cc
    unique (suc (suc zero)) j p q gp gq e pos = absurd (ground arith)
    unique (suc (suc (suc i))) j p q gp gq e pos = cc

allocproc-IsPidSafe_example :
    IsPidSafe (allocproc env (kernel table)).1.procs (allocproc env (kernel table)).1.nextpid
allocproc-IsPidSafe_example = allocproc-IsPidSafe env (kernel table) (omega arith) table-IsPidSafe

zero_is_unused : ZeroIsUnused table
zero_is_unused zero q g e = absurd (ground arith)
zero_is_unused (suc zero) q g e = absurd (ground arith)
zero_is_unused (suc (suc zero)) q g e = ground arith
zero_is_unused (suc (suc (suc j))) q g e = cc

kill_zero-poisons_example :
    ((kill 0 table).0 ≡ done)
    × ((allocproc env (record (kernel table) { procs = (kill 0 table).1 })).0 ≡ some 2)
    × ((q : Proc) × (get_elem?
            (allocproc env (record (kernel table) { procs = (kill 0 table).1 })).1.procs
            2
          ≡ some q)
        × (q.killed ≡ true))
kill_zero-poisons_example =
    kill_zero-poisons env (kernel table) 2 (proc unused 0 none none) zero_is_unused slot refl page

exit_table_lem_example :
    (ps' : List Proc) × (exit_table 1 0 table ≡ some ps')
    × ((q : Proc) × (get_elem? ps' 1 ≡ some q)
        × (q.state ≡ zombie)
        × (record q { state = running; parent = some 0 } ≡ proc running 2 (some 0) none)
        × (q.parent ≡ some 0))
    × ((j : ℕ) (o : Proc)
        → 1 ≢ j
        → get_elem? table j ≡ some o
        → (q : Proc) × (get_elem? ps' j ≡ some q) × Survives 1 0 o q)
exit_table_lem_example = exit_table_lem 1 0 (proc running 2 (some 0) none) table refl

-- The shell has a child that has exited, and one that has not.
abbrev family : List Proc
family =
    proc sleeping 1 none (some (entry 0))
    ∷ proc running 2 (some 0) none
    ∷ proc zombie 3 (some 1) none
    ∷ proc runnable 4 (some 1) none
    ∷ []

abbrev after_exit : List Proc
after_exit =
    proc runnable 1 none (some (entry 0))
    ∷ proc zombie 2 (some 0) none
    ∷ proc zombie 3 (some 0) none
    ∷ proc runnable 4 (some 0) none
    ∷ []

exits : exit_table 1 0 family ≡ some after_exit
unfolding exit_table sofinal_project.Proc.wakeup1
exits = refl

exit_table-orphans_example : (proc runnable 4 (some 0) none).parent ≢ some 1
exit_table-orphans_example =
    exit_table-orphans 1 0 (proc running 2 (some 0) none) family after_exit refl (omega arith) exits
      3 (proc runnable 4 (some 1) none) (proc runnable 4 (some 0) none) (omega arith) refl refl

IsFirst-zombie : IsFirst (zombie_child 1) family 2 (proc zombie 3 (some 1) none)
IsFirst-zombie = record { at = refl; passes = refl; earlier = earlier }
  where
    earlier : (j : ℕ) (y : Proc) → j < 2 → get_elem? family j ≡ some y → zombie_child 1 y ≡ false
    earlier zero y lt g = ground arith
    earlier (suc zero) y lt g = ground arith
    earlier (suc (suc j)) y lt g = absurd (omega arith)

abbrev no_pages : Kmem
no_pages = record { use_lock = true; freelist = 0; mem = λ a. 0 }

wait_pass-reaps_example :
    (kmem : Kmem) × IsFree 0x80115000 kmem (0x80200000 ∷ [])
    × ((kmem' : Kmem)
        → some kmem ≡ some kmem'
        → wait_pass env 1 (record (kernel family) { kmem = no_pages })
          ≡ some
              (reaped 3, record (kernel family) { procs = modify family 2 vacated; kmem = kmem' }))
wait_pass-reaps_example =
    wait_pass-reaps env 1 (record (kernel family) { kmem = no_pages }) 2
      (proc zombie 3 (some 1) none) [] IsFirst-zombie (omega arith) refl (nil refl)

-- The zombies that the shell leaves to init, and the shell itself, each with a stack in the same page.
stacks : HaveStacks 0x80115000 0 [] after_exit
stacks zero p g z = absurd (ground arith)
stacks (suc zero) p g z = let e : p.kstack ≡ 0x80200000 = ground arith in rw e (omega arith, refl)
stacks (suc (suc zero)) p g z =
    let e : p.kstack ≡ 0x80200000 = ground arith in rw e (omega arith, refl)
stacks (suc (suc (suc zero))) p g z = absurd (ground arith)
stacks (suc (suc (suc (suc i)))) p g z = cc

wait_pass-exit_table_example :
    (i : ℕ) × (p : Proc) × IsFirst (zombie_child 0) after_exit i p
    × ((kmem : Kmem) × IsFree 0x80115000 kmem (p.kstack ∷ [])
        × ((kmem' : Kmem)
            → some kmem ≡ some kmem'
            → wait_pass env 0 (record (kernel after_exit) { kmem = no_pages })
              ≡ some (
                reaped p.pid,
                record (kernel after_exit) { procs = modify after_exit i vacated; kmem = kmem' },
              )))
wait_pass-exit_table_example =
    wait_pass-exit_table env (record (kernel family) { kmem = no_pages }) 1 0
      (proc running 2 (some 0) none) after_exit [] refl refl (omega arith) exits stacks (nil refl)

-- The shell forks.
abbrev forked : Kernel
unfolding fork fork_into
forked = elim (fork env 1 (kernel table)) [ none ↦ kernel table | some (pid, k) ↦ k ]
