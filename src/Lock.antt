-- ===== src/Lock.antt =====
-- spinlock.c on one CPU, and sleeplock.c. A spinlock is seen by the CPU that runs: `interrupts` is the
-- interrupt flag of its eflags, and a lock remembers the number of the CPU that holds it. The call
-- stack that a lock records for debugging is left out.
pub mod Balance
mod Tests
use sofinal_project.Prelude.{
  ℕ, zero, suc, ◌+◌, ◌-◌, Bool, true, false, ◌&&◌, not, Option, none, some, ◌==◌, if◌then◌else◌,
}

-- The fields of `cpu` that pushcli and popcli use.
pub record Cpu : Type 0 where
  pub id : ℕ
  pub ncli : ℕ
  pub intena : Bool
  pub interrupts : Bool

-- A panic, or the CPU afterwards.
unfoldable pub pushcli : Cpu → Cpu
pushcli c = record c {
  interrupts = false;
  intena = if c.ncli == 0 then c.interrupts else c.intena;
  ncli = c.ncli + 1;
}

unfoldable pub popcli : Cpu → Option Cpu
popcli c =
    if c.interrupts
    then none
    else if c.ncli == 0
    then none
    else some (record c {
      ncli = c.ncli - 1;
      interrupts = if c.ncli - 1 == 0 && c.intena then true else c.interrupts;
    })

pub record Spinlock : Type 0 where
  pub locked : Bool
  pub cpu : Option ℕ

unfoldable pub initlock : Spinlock
initlock = record { locked = false; cpu = none }

abbrev pub is_cpu : ℕ → Option ℕ → Bool
is_cpu me none = false
is_cpu me (some c) = c == me

unfoldable pub holding : Spinlock → Cpu → Option (Bool × Cpu)
unfolding pushcli popcli
holding lk c = elim (popcli (pushcli c)) [
  | none ↦ none
  | some c' ↦ some (lk.locked && is_cpu c.id lk.cpu, c')
]

-- What a pass of the loop of `acquire` comes to.
pub data Acquired : Type 0 where
  acquired : Spinlock → Cpu → Acquired
  spins : Cpu → Acquired

-- `acquire` up to the first `xchg`: it has the lock, or tries again.
unfoldable pub acquire : Spinlock → Cpu → Option Acquired
unfolding holding pushcli
acquire lk c = elim (holding lk (pushcli c)) [
  | none ↦ none
  | some (held, c') ↦
      if held
      then none
      else if lk.locked
      then some (spins c')
      else some (acquired (record lk { locked = true; cpu = some c'.id }) c')
]

unfoldable pub release : Spinlock → Cpu → Option (Spinlock × Cpu)
unfolding holding popcli
release lk c = elim (holding lk c) [
  | none ↦ none
  | some (held, c') ↦ if not held then none else elim (popcli c') [
    | none ↦ none
    | some c'' ↦ some (record lk { locked = false; cpu = none }, c'')
  ]
]

-- A sleep lock. The spinlock inside makes each of its operations one step.
pub record Sleeplock : Type 0 where
  pub locked : Bool
  pub pid : ℕ

unfoldable pub initsleeplock : Sleeplock
initsleeplock = record { locked = false; pid = 0 }

-- A pass of the loop of `acquiresleep`: `none` where the process goes to sleep.
unfoldable pub acquiresleep : ℕ → Sleeplock → Option Sleeplock
acquiresleep pid lk = if lk.locked then none else some (record lk { locked = true; pid = pid })

unfoldable pub releasesleep : Sleeplock → Sleeplock
releasesleep lk = record lk { locked = false; pid = 0 }

unfoldable pub holdingsleep : ℕ → Sleeplock → Bool
holdingsleep pid lk = lk.locked && lk.pid == pid
