-- ===== src/Sched/Starvation.antt =====
-- What aging does to processes that only compute.
use mathlib.Core.Option
use sofinal_project.Prelude.{
  ℕ, zero, suc, ◌+◌, ◌*◌, ◌≤◌, ◌<◌, ◌≡◌, ◌≢◌, ◌⊎◌, refl, sym, ap, ◌∙◌, none, some, List, arith,
  get_elem?, modify, Option-cases, inl, inr, min, modify-modify, modify_id,
}
use sofinal_project.Proc.{Proc, ProcState, runnable, running}
use sofinal_project.Sched.{age, age_all, pick, scheduler_round, busy_round, busy_rounds}
use sofinal_project.Sched.Pick.{IsHighest, pick-some, pick-IsHighest, scheduler_round-fst}
use sofinal_project.Sched.Aging.{InRange, age-state, age-InRange, get_elem?-age_all}

abbrev set_state : ProcState → Proc → Proc
set_state s p = record p { state = s }

busy_round-some :
    (ps : List Proc) (i : ℕ)
    → pick (age_all ps) ≡ some i
    → busy_round ps ≡ modify (modify (age_all ps) i (set_state running)) i (set_state runnable)
unfolding busy_round
busy_round-some ps i e = ground arith

busy_round-none : (ps : List Proc) → pick (age_all ps) ≡ none → busy_round ps ≡ age_all ps
unfolding busy_round
busy_round-none ps e = ground arith

-- A process that is chosen and yields again has aged like the ones that waited: the round comes to
-- the aging of the whole table.
pub busy_round-age_all : (ps : List Proc) → busy_round ps ≡ age_all ps
busy_round-age_all ps = elim (Option-cases (pick (age_all ps))) [
  | inl e ↦ busy_round-none ps e
  | inr (i, e) ↦
      let (p, high) = pick-some (age_all ps) i e in
      busy_round-some ps i e
      ∙ modify-modify (age_all ps) i (set_state running) (set_state runnable)
      ∙ modify_id (age_all ps) i (λ q. set_state runnable (set_state running q)) high.at
          (back p high.ready)
]
  where
    back : (p : Proc) → p.state ≡ runnable → record p { state = runnable } ≡ p
    back p ready = ap (λ s. record p { state = s }) (sym ready)

age_times : ℕ → Proc → Proc
age_times zero p = p
age_times (suc n) p = age_times n (age p)

get_elem?-busy_rounds :
    (n : ℕ) (ps : List Proc) (i : ℕ)
    → get_elem? (busy_rounds n ps) i ≡ Option.map (age_times n) (get_elem? ps i)
unfolding busy_rounds age_times
get_elem?-busy_rounds zero ps i = ground arith
get_elem?-busy_rounds (suc n) ps i =
    rw (busy_round-age_all ps, get_elem?-busy_rounds n (age_all ps) i, get_elem?-age_all ps i)
      (ground arith)

-- How far a waiting process has come on the way to the highest priority.
abbrev progress : Proc → ℕ
progress p = 100 * p.priority + min p.ticks_waiting 99

age-progress :
    (p : Proc) → p.state ≡ runnable → (5 ≤ (age p).priority) ⊎ (progress p + 1 ≤ progress (age p))
unfolding age
age-progress p ready = ground arith

age-top : (p : Proc) → 5 ≤ p.priority → 5 ≤ (age p).priority
unfolding age
age-top p h = ground arith

age_times-top : (n : ℕ) (p : Proc) → 5 ≤ p.priority → 5 ≤ (age_times n p).priority
unfolding age_times
age_times-top zero p h = h
age_times-top (suc n) p h = age_times-top n (age p) (age-top p h)

age_times-progress :
    (n : ℕ) (p : Proc)
    → p.state ≡ runnable
    → (5 ≤ (age_times n p).priority) ⊎ (progress p + n ≤ progress (age_times n p))
unfolding age_times
age_times-progress zero p ready = inr (omega arith)
age_times-progress (suc n) p ready = elim (age-progress p ready) [
  | inl top ↦ inl (age_times-top n (age p) top)
  | inr more ↦ elim (age_times-progress n (age p) (age-state p ∙ ready)) [
    | inl top ↦ inl top
    | inr rest ↦ inr (omega arith)
  ]
]

age_times-state : (n : ℕ) (p : Proc) → (age_times n p).state ≡ p.state
unfolding age_times
age_times-state zero p = refl
age_times-state (suc n) p = age_times-state n (age p) ∙ age-state p

age_times-InRange : (n : ℕ) (p : Proc) → InRange p → InRange (age_times n p)
unfolding age_times
age_times-InRange zero p h = h
age_times-InRange (suc n) p h = age_times-InRange n (age p) (age-InRange p h)

age_times-priority :
    (n : ℕ) (p : Proc) → p.state ≡ runnable → InRange p → 400 ≤ n → (age_times n p).priority ≡ 5
age_times-priority n p ready ok long =
    let range : InRange (age_times n p) = age_times-InRange n p ok in
    elim (age_times-progress n p ready) [ inl top ↦ omega arith | inr far ↦ omega arith ]

-- Among processes that only compute, priorities stop mattering: after 400 rounds every runnable
-- process has the highest priority, whatever priority it was given.
pub busy_rounds-priority :
    (ps : List Proc) (n i : ℕ) (p : Proc)
    → get_elem? ps i ≡ some p
    → p.state ≡ runnable
    → InRange p
    → 400 ≤ n
    → (q : Proc) × (get_elem? (busy_rounds n ps) i ≡ some q)
      × (q.state ≡ runnable)
      × (q.priority ≡ 5)
busy_rounds-priority ps n i p at ready ok long = (
  age_times n p,
  rw (get_elem?-busy_rounds n ps i, at) refl,
  age_times-state n p ∙ ready,
  age_times-priority n p ready ok long,
)

-- Every runnable process has a priority from 1 to 5.
abbrev pub AllInRange : List Proc → Type 0
AllInRange ps = (j : ℕ) (q : Proc) → get_elem? ps j ≡ some q → q.state ≡ runnable → InRange q

-- `i` holds the first runnable process of the table.
abbrev pub IsFirstRunnable : List Proc → ℕ → Proc → Type 0
IsFirstRunnable ps i p =
    (get_elem? ps i ≡ some p)
    × (p.state ≡ runnable)
    × ((j : ℕ) (q : Proc) → j < i → get_elem? ps j ≡ some q → q.state ≢ runnable)

aged_from :
    (n : ℕ) (ps : List Proc) (j : ℕ) (q : Proc)
    → get_elem? (busy_rounds n ps) j ≡ some q
    → (o : Proc) × (get_elem? ps j ≡ some o) × (q ≡ age_times n o)
aged_from n ps j q at = elim (Option-cases (get_elem? ps j)) [
  | inl e ↦ absurd (ground (arith, get_elem?-busy_rounds n ps j))
  | inr (o, e) ↦ (o, e, ground (arith, get_elem?-busy_rounds n ps j))
]

rounds-IsHighest :
    (ps : List Proc) (n i : ℕ) (p : Proc)
    → AllInRange ps
    → IsFirstRunnable ps i p
    → 400 ≤ n
    → IsHighest (busy_rounds n ps) i (age_times n p)
rounds-IsHighest ps n i p ok (at, ready, before) long = record {
  at = rw (get_elem?-busy_rounds n ps i, at) refl;
  ready = age_times-state n p ∙ ready;
  top = λ j q g s.
      let (o, g', e) = aged_from n ps j q g in
      let was : o.state ≡ runnable = sym (age_times-state n o) ∙ ap (λ r. r.state) (sym e) ∙ s in
      let bound : InRange (age_times n o) = age_times-InRange n o (ok j o g' was) in
      rw e (omega (arith, age_times-priority n p ready (ok i p at ready) long));
  first = λ j q lt g s.
      let (o, g', e) = aged_from n ps j q g in
      absurd (before j o lt g' (sym (age_times-state n o) ∙ ap (λ r. r.state) (sym e) ∙ s));
}

busy_rounds-suc : (n : ℕ) (ps : List Proc) → age_all (busy_rounds n ps) ≡ busy_rounds (suc n) ps
unfolding busy_rounds
busy_rounds-suc zero ps = sym (busy_round-age_all ps)
busy_rounds-suc (suc n) ps = busy_rounds-suc n (busy_round ps)

-- Starvation: from any table whose runnable processes have priorities from 1 to 5 and only compute, after 400 rounds the
-- scheduler chooses the first runnable process of the table in every round, and so never another one.
pub busy_rounds-starve :
    (ps : List Proc) (n i : ℕ) (p : Proc)
    → AllInRange ps
    → IsFirstRunnable ps i p
    → 400 ≤ n
    → (scheduler_round (busy_rounds n ps)).0 ≡ some i
busy_rounds-starve ps n i p ok first long =
    let high : IsHighest (busy_rounds (suc n) ps) i (age_times (suc n) p) =
      rounds-IsHighest ps (suc n) i p ok first (omega arith) in
    let pos : 0 < (age_times (suc n) p).priority =
      omega (arith, age_times-InRange (suc n) p (ok i p first.0 first.1)) in
    scheduler_round-fst (busy_rounds n ps)
    ∙ ap pick (busy_rounds-suc n ps)
    ∙ pick-IsHighest (busy_rounds (suc n) ps) i (age_times (suc n) p) high pos
