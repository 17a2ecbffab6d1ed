-- ===== src/Proc/Tests.antt =====
-- The process table at two entries.
use sofinal_project.Prelude.{
  ℕ, ◌≡◌, refl, true, false, Option, none, some, List, [], ◌∷◌, find_first,
}
use sofinal_project.Proc.{
  Proc, ProcState, sleeping, runnable, running, Chan, address, done, failed, sys_kill,
  sys_setpriority,
}

abbrev proc : ProcState → ℕ → Option Chan → Proc
proc s pid chan = record {
  sz = 4096;
  pgdir = 1;
  kstack = 1;
  state = s;
  pid = pid;
  parent = none;
  tf = 0;
  context = 0;
  chan = chan;
  killed = false;
  ofile = [];
  cwd = none;
  name = [];
  priority = 3;
  ticks_waiting = 7;
}

abbrev table : List Proc
table = proc running 1 none ∷ proc sleeping 2 (some (address 5)) ∷ []

killed_and_woken : sys_kill (some 2) table ≡ (
  done,
  proc running 1 none ∷ record (proc runnable 2 (some (address 5))) { killed = true } ∷ [],
)
unfolding sys_kill find_first
killed_and_woken = refl

-- -1 as a priority
negative_refused : sys_setpriority (some 2) (some 0xffffffff) table ≡ (failed, table)
unfolding sys_setpriority find_first
negative_refused = refl
