-- ===== src/Sched/Tests.antt =====
-- The scheduler at small tables.
use sofinal_project.Prelude.{
  ℕ, zero, suc, ◌≡◌, ◌≢◌, ◌<◌, refl, false, none, some, List, [], ◌∷◌, arith, get_elem?,
}
use sofinal_project.Proc.{Proc, ProcState, runnable, running, sleeping}
use sofinal_project.Sched.{age_all, pick, scheduler_round, busy_rounds}
use sofinal_project.Sched.Pick.{IsHighest, pick-some, scheduler_round-some}
use sofinal_project.Sched.Starvation.{AllInRange, IsFirstRunnable, busy_rounds-starve}

abbrev proc : ProcState → ℕ → ℕ → Proc
proc s priority ticks = record {
  sz = 4096;
  pgdir = 1;
  kstack = 1;
  state = s;
  pid = 1;
  parent = none;
  tf = 0;
  context = 0;
  chan = none;
  killed = false;
  ofile = [];
  cwd = none;
  name = [];
  priority = priority;
  ticks_waiting = ticks;
}

abbrev table : List Proc
table = proc sleeping 0 0 ∷ proc runnable 2 0 ∷ proc runnable 4 99 ∷ proc runnable 3 0 ∷ []

chosen : (scheduler_round table).0 ≡ some 2
unfolding scheduler_round
chosen = refl

aged_chosen : pick (age_all table) ≡ some 2
unfolding pick age_all
aged_chosen = refl

table-InRange : AllInRange table
table-InRange zero q g ready = absurd (ground arith)
table-InRange (suc zero) q g ready = ground arith
table-InRange (suc (suc zero)) q g ready = ground arith
table-InRange (suc (suc (suc zero))) q g ready = ground arith
table-InRange (suc (suc (suc (suc j)))) q g ready = cc

table-first : IsFirstRunnable table 1 (proc runnable 2 0)
table-first = (refl, refl, before)
  where
    before : (j : ℕ) (q : Proc) → j < 1 → get_elem? table j ≡ some q → q.state ≢ runnable
    before zero q lt g = ground arith
    before (suc j) q lt g = absurd (omega arith)

pick-some_example : (p : Proc) × IsHighest (age_all table) 2 p
pick-some_example = pick-some (age_all table) 2 aged_chosen

scheduler_round-some_example :
    (p : Proc) × IsHighest (age_all table) 2 p
    × (get_elem? (scheduler_round table).1 2 ≡ some (record p { state = running }))
scheduler_round-some_example = scheduler_round-some table 2 chosen

busy_rounds-starve_example : (scheduler_round (busy_rounds 400 table)).0 ≡ some 1
busy_rounds-starve_example =
    busy_rounds-starve table 400 1 (proc runnable 2 0) table-InRange table-first (omega arith)
