-- ===== src/Sched/Aging.antt =====
-- Priorities under aging.
use mathlib.Core.Option
use sofinal_project.Prelude.{
  ℕ, ◌≤◌, ◌≡◌, refl, some, List, arith, get_elem?, get_elem?-map, Option-cases, inl, inr,
}
use sofinal_project.Proc.{Proc, runnable}
use sofinal_project.Sched.{age, age_all, pick, scheduler_round, max_priority, min_priority}
use sofinal_project.Sched.Pick.{pick-none}

-- `age` changes nothing but the two counters.
pub age-state : (p : Proc) → (age p).state ≡ p.state
unfolding age
age-state p = ground arith

-- The priorities that the program means to have.
abbrev pub InRange : Proc → Type 0
InRange p = (min_priority ≤ p.priority) × (p.priority ≤ max_priority)

pub age-InRange : (p : Proc) → InRange p → InRange (age p)
unfolding age
age-InRange p h = ground arith

pub get_elem?-age_all :
    (ps : List Proc) (i : ℕ) → get_elem? (age_all ps) i ≡ Option.map age (get_elem? ps i)
unfolding age_all
get_elem?-age_all ps i = get_elem?-map age ps i

-- A round with a runnable process in the table runs some process: the CPU never idles past work.
pub scheduler_round-runs :
    (ps : List Proc) (i : ℕ) (p : Proc)
    → get_elem? ps i ≡ some p
    → p.state ≡ runnable
    → InRange p
    → (k : ℕ) × ((scheduler_round ps).0 ≡ some k)
unfolding scheduler_round
scheduler_round-runs ps i p at ready ok = elim (Option-cases (pick (age_all ps))) [
  | inr (k, e) ↦ (k, rw (e, scheduler_round) refl)
  | inl nobody ↦
      let aged : get_elem? (age_all ps) i ≡ some (age p) = rw (get_elem?-age_all ps i, at) refl in
      let low : (age p).priority ≤ 0 =
        pick-none (age_all ps) nobody i (age p) aged (ground (arith, age-state p)) in
      absurd (omega (arith, age-InRange p ok))
]
