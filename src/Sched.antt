-- ===== src/Sched.antt =====
-- proc.c: the rounds of `scheduler`, with priorities and aging.
-- One round runs under `ptable.lock`: it ages the waiting processes, chooses one and marks it as
-- running. What the process does until it switches back is the environment of these definitions.
pub mod Pick
pub mod Aging
pub mod Starvation
mod Tests
use sofinal_project.Prelude.{
  ℕ, zero, suc, ◌+◌, Bool, true, false, ◌&&◌, Option, none, some, List, [], ◌∷◌, map, ltb, leb,
  if◌then◌else◌, modify,
}
use sofinal_project.Proc.{Proc, running, is_runnable, yield_cpu}

abbrev pub max_priority : ℕ
max_priority = 5

abbrev pub min_priority : ℕ
min_priority = 1

abbrev pub aging_threshold : ℕ
aging_threshold = 100

-- The body of the first loop.
unfoldable pub age : Proc → Proc
age p =
    if is_runnable p.state
    then if leb aging_threshold (p.ticks_waiting + 1) && ltb p.priority max_priority
      then record p { priority = p.priority + 1; ticks_waiting = 0 }
      else record p { ticks_waiting = p.ticks_waiting + 1 }
    else p

unfoldable pub age_all : List Proc → List Proc
unfolding age
age_all = map age

-- The second loop from slot `i` on: the highest priority so far and its process.
pub pick_loop : ℕ → ℕ → Option ℕ → List Proc → Option ℕ
pick_loop i max_prio best [] = best
pick_loop i max_prio best (p ∷ ps) =
    let higher = is_runnable p.state && ltb max_prio p.priority in
    pick_loop (suc i) (if higher then p.priority else max_prio) (if higher then some i else best) ps

unfoldable pub pick : List Proc → Option ℕ
unfolding pick_loop
pick ps = pick_loop 0 0 none ps

-- One round: the process that is switched to, if any, and the table at the switch.
unfoldable pub scheduler_round : List Proc → Option ℕ × List Proc
unfolding age_all pick
scheduler_round ps =
    let aged = age_all ps in
    elim (pick aged) [
      | none ↦ (none, aged)
      | some i ↦ (some i, modify aged i (λ p. record p { state = running }))
    ]

-- A round in which the chosen process runs until it yields, as the timer makes it do.
unfoldable pub busy_round : List Proc → List Proc
unfolding scheduler_round yield_cpu
busy_round ps =
    let (chosen, qs) = scheduler_round ps in elim chosen [ none ↦ qs | some i ↦ yield_cpu i qs ]

unfoldable pub busy_rounds : ℕ → List Proc → List Proc
unfolding busy_round
busy_rounds zero ps = ps
busy_rounds (suc n) ps = busy_rounds n (busy_round ps)
