-- ===== src/Proc.antt =====
-- proc.h, and the operations of proc.c and sysproc.c that change single entries of the process
-- table: wakeup1, kill, setpriority, sleep and yield. `ptable.lock` is held across each of them, so
-- each is one atomic step. A process is named by its slot in the table.
pub mod Kill
pub mod Wakeup
mod Tests
use sofinal_project.Prelude.{
  ℕ, zero, suc, ◌+◌, Bool, true, false, ◌&&◌, ◌||◌, Option, none, some, List, [], ◌∷◌, map, ltb,
  ◌==◌, if◌then◌else◌, modify, find_first,
}

-- `enum procstate`
pub data ProcState : Type 0 where
  unused embryo sleeping runnable running zombie : ProcState

-- What a process can sleep on: another process's table entry, or some other kernel address.
pub data Chan : Type 0 where
  entry : ℕ → Chan
  address : ℕ → Chan

-- `struct proc`. `kstack`, `tf` and `context` are addresses in the kernel stack's page; `none` stands
-- for a null pointer. The two counters of the scheduler are unbounded here: the code's `int` would
-- be undefined past 2 ^ 31 - 1.
pub record Proc : Type 0 where
  pub sz : ℕ
  pub pgdir : ℕ
  pub kstack : ℕ
  pub state : ProcState
  pub pid : ℕ
  pub parent : Option ℕ
  pub tf : ℕ
  pub context : ℕ
  pub chan : Option Chan
  pub killed : Bool
  pub ofile : List (Option ℕ)
  pub cwd : Option ℕ
  pub name : List ℕ
  pub priority : ℕ
  pub ticks_waiting : ℕ

abbrev pub is_unused : ProcState → Bool
is_unused unused = true
is_unused _ = false

abbrev pub is_sleeping : ProcState → Bool
is_sleeping sleeping = true
is_sleeping _ = false

abbrev pub is_runnable : ProcState → Bool
is_runnable runnable = true
is_runnable _ = false

abbrev pub is_zombie : ProcState → Bool
is_zombie zombie = true
is_zombie _ = false

abbrev pub same_chan : Option Chan → Option Chan → Bool
same_chan none none = true
same_chan (some (entry i)) (some (entry j)) = i == j
same_chan (some (address a)) (some (address b)) = a == b
same_chan _ _ = false

abbrev pub wake : Option Chan → Proc → Proc
wake c p = if is_sleeping p.state && same_chan p.chan c then record p { state = runnable } else p

-- `wakeup1`, and `wakeup` with the lock.
unfoldable pub wakeup1 : Option Chan → List Proc → List Proc
wakeup1 c = map (wake c)

-- 0 and -1
pub data Status : Type 0 where
  done failed : Status

abbrev pub mark_killed : Proc → Proc
mark_killed p =
    if is_sleeping p.state
    then record p { killed = true; state = runnable }
    else record p { killed = true }

abbrev pub has_pid : ℕ → Proc → Bool
has_pid pid p = p.pid == pid

-- A pid is the bit pattern of the code's `int`.
unfoldable pub kill : ℕ → List Proc → Status × List Proc
kill pid ps = elim (find_first (has_pid pid) ps) [
  | none ↦ (failed, ps)
  | some i ↦ (done, modify ps i mark_killed)
]

-- `sys_kill`: `none` stands for an argument that cannot be fetched.
unfoldable pub sys_kill : Option ℕ → List Proc → Status × List Proc
unfolding kill
sys_kill none ps = (failed, ps)
sys_kill (some pid) ps = kill pid ps

-- The search of `sys_setpriority`, behind its checks.
unfoldable pub set_priority : ℕ → ℕ → List Proc → Status × List Proc
set_priority pid new_priority ps =
    if ltb new_priority 1 || ltb 5 new_priority
    then (failed, ps)
    else elim (find_first (has_pid pid) ps) [
      | none ↦ (failed, ps)
      | some i ↦ (done, modify ps i (λ p. record p { priority = new_priority; ticks_waiting = 0 }))
    ]

-- A negative priority is a bit pattern above 5, and refused like any other above 5.
unfoldable pub sys_setpriority : Option ℕ → Option ℕ → List Proc → Status × List Proc
unfolding set_priority
sys_setpriority (some pid) (some new_priority) ps = set_priority pid new_priority ps
sys_setpriority _ _ ps = (failed, ps)

-- `yield`, up to the switch to the scheduler.
unfoldable pub yield_cpu : ℕ → List Proc → List Proc
yield_cpu i ps = modify ps i (λ p. record p { state = runnable })

-- `sleep`, up to the switch to the scheduler, and what it tidies up when it is run again.
unfoldable pub fall_asleep : ℕ → Chan → List Proc → List Proc
fall_asleep i c ps = modify ps i (λ p. record p { chan = some c; state = sleeping })

unfoldable pub tidy_up : ℕ → List Proc → List Proc
tidy_up i ps = modify ps i (λ p. record p { chan = none })
