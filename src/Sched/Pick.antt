-- ===== src/Sched/Pick.antt =====
-- The choice of the scheduler: the first of the runnable processes of the highest priority.
use sofinal_project.Prelude.{
  ℕ, zero, suc, ◌+◌, ◌≤◌, ◌<◌, ◌≡◌, ◌⊎◌, refl, inl, inr, ◌&&◌, Option, none, some, List, [], ◌∷◌,
  arith, ltb, get_elem?, Bool-cases, Option-cases, modify, ltb→lt, sym, ◌∙◌, get_elem?-modify_self,
}
use sofinal_project.Proc.{Proc, runnable, running, is_runnable}
use sofinal_project.Sched.{pick_loop, pick, age_all, scheduler_round}

-- No runnable process of the table has a priority above `m`.
abbrev pub Below : ℕ → List Proc → Type 0
Below m ps = (j : ℕ) (q : Proc) → get_elem? ps j ≡ some q → q.state ≡ runnable → q.priority ≤ m

-- `p` stands at `i`, is runnable, and beats every runnable process: strictly where that one stands
-- before it.
pub record IsHighest (ps : List Proc) (i : ℕ) (p : Proc) : Type 0 where
  pub at : get_elem? ps i ≡ some p
  pub ready : p.state ≡ runnable
  pub top : Below p.priority ps
  pub first :
      (j : ℕ) (q : Proc)
      → j < i
      → get_elem? ps j ≡ some q
      → q.state ≡ runnable
      → q.priority < p.priority

-- What the loop returns when it starts at slot `i` with `max_prio` and `best`.
abbrev Outcome : ℕ → ℕ → Option ℕ → List Proc → Option ℕ → Type 0
Outcome i m best ps r =
    ((r ≡ best) × Below m ps)
    ⊎ ((k : ℕ) × (p : Proc) × (r ≡ some (i + k)) × (m < p.priority) × IsHighest ps k p)

module _ (i m : ℕ) (best : Option ℕ) (p : Proc) (ps : List Proc) (r : Option ℕ) where
  take_head :
      p.state ≡ runnable
      → m < p.priority
      → Outcome (suc i) p.priority (some i) ps r
      → Outcome i m best (p ∷ ps) r
  take_head ready gt (inl (e, below)) = inr (
    0,
    p,
    rw e (ground arith),
    gt,
    record { at = refl; ready = ready; top = top; first = λ j q lt g s. absurd (omega arith) },
  )
    where
      top : Below p.priority (p ∷ ps)
      top zero q g s = ground arith
      top (suc j) q g s = below j q g s
  take_head ready gt (inr (k, q, e, more, high)) = inr (
    suc k,
    q,
    rw e (ground arith),
    omega arith,
    record { at = high.at; ready = high.ready; top = top; first = first },
  )
    where
      top : Below q.priority (p ∷ ps)
      top zero z g s = ground arith
      top (suc j) z g s = high.top j z g s

      first :
          (j : ℕ) (z : Proc)
          → j < suc k
          → get_elem? (p ∷ ps) j ≡ some z
          → z.state ≡ runnable
          → z.priority < q.priority
      first zero z lt g s = ground arith
      first (suc j) z lt g s = high.first j z (omega arith) g s

  skip_head :
      (p.state ≡ runnable → p.priority ≤ m)
      → Outcome (suc i) m best ps r
      → Outcome i m best (p ∷ ps) r
  skip_head low (inl (e, below)) = inl (e, top)
    where
      top : Below m (p ∷ ps)
      top zero q g s = ground arith
      top (suc j) q g s = below j q g s
  skip_head low (inr (k, q, e, more, high)) = inr (
    suc k,
    q,
    rw e (ground arith),
    more,
    record { at = high.at; ready = high.ready; top = top; first = first },
  )
    where
      top : Below q.priority (p ∷ ps)
      top zero z g s = ground arith
      top (suc j) z g s = high.top j z g s

      first :
          (j : ℕ) (z : Proc)
          → j < suc k
          → get_elem? (p ∷ ps) j ≡ some z
          → z.state ≡ runnable
          → z.priority < q.priority
      first zero z lt g s = ground arith
      first (suc j) z lt g s = high.first j z (omega arith) g s

pick_loop-Outcome :
    (i m : ℕ) (best : Option ℕ) (ps : List Proc) → Outcome i m best ps (pick_loop i m best ps)
unfolding pick_loop
pick_loop-Outcome i m best [] = inl (refl, λ j q g s. cc)
pick_loop-Outcome i m best (p ∷ ps) = elim (Bool-cases (is_runnable p.state && ltb m p.priority)) [
  | inl win ↦ rw win (
      take_head i m best p ps _ (ground arith) (ground arith)
        (pick_loop-Outcome (suc i) p.priority (some i) ps))
  | inr lose ↦
      rw lose (skip_head i m best p ps _ (λ s. ground arith) (pick_loop-Outcome (suc i) m best ps))
]

-- The process that the scheduler chooses is the first in table order among the runnable processes
-- of the highest priority.
pub pick-some : (ps : List Proc) (i : ℕ) → pick ps ≡ some i → (p : Proc) × IsHighest ps i p
unfolding pick
pick-some ps i h = elim (pick_loop-Outcome 0 0 none ps) [
  | inl (e, below) ↦ absurd (ground arith)
  | inr (k, p, e, gt, high) ↦ let same : k ≡ i = ground arith in (p, rw (← same) high)
]

-- It chooses none only if no runnable process has a positive priority.
pub pick-none : (ps : List Proc) → pick ps ≡ none → Below 0 ps
unfolding pick
pick-none ps h = elim (pick_loop-Outcome 0 0 none ps) [
  | inl (e, below) ↦ below
  | inr (k, p, e, gt, high) ↦ absurd (ground arith)
]

-- The first process of the highest priority is chosen.
pub pick-IsHighest :
    (ps : List Proc) (i : ℕ) (p : Proc) → IsHighest ps i p → 0 < p.priority → pick ps ≡ some i
pick-IsHighest ps i p high pos = elim (Option-cases (pick ps)) [
  | inl nobody ↦ absurd (omega (arith, pick-none ps nobody i p high.at high.ready))
  | inr (k, e) ↦
      let (q, other) = pick-some ps k e in
      elim (Bool-cases (ltb k i)) [
        | inl before ↦
            let less : q.priority < p.priority =
              high.first k q (ltb→lt k i before) other.at other.ready in
            absurd (omega (arith, other.top i p high.at high.ready))
        | inr not_before ↦ elim (Bool-cases (ltb i k)) [
          | inl after ↦
              let less : p.priority < q.priority =
                other.first i p (ltb→lt i k after) high.at high.ready in
              absurd (omega (arith, high.top k q other.at other.ready))
          | inr not_after ↦ let same : k ≡ i = ground arith in rw (← same) e
        ]
      ]
]

pub scheduler_round-fst : (ps : List Proc) → (scheduler_round ps).0 ≡ pick (age_all ps)
unfolding scheduler_round
scheduler_round-fst ps = elim (Option-cases (pick (age_all ps))) [
  | inl e ↦ rw (e, scheduler_round) refl
  | inr (k, e) ↦ rw (e, scheduler_round) refl
]

abbrev mark_running : Proc → Proc
mark_running p = record p { state = running }

pub scheduler_round-snd :
    (ps : List Proc) (i : ℕ)
    → pick (age_all ps) ≡ some i
    → (scheduler_round ps).1 ≡ modify (age_all ps) i (λ p. record p { state = running })
unfolding scheduler_round
scheduler_round-snd ps i e = rw (e, scheduler_round) refl

running_at :
    (ps : List Proc) (i : ℕ) (p : Proc)
    → pick (age_all ps) ≡ some i
    → get_elem? (age_all ps) i ≡ some p
    → get_elem? (scheduler_round ps).1 i ≡ some (record p { state = running })
running_at ps i p e at =
    rw (scheduler_round-snd ps i e, get_elem?-modify_self (age_all ps) i mark_running, at) refl

-- A round ages the table, and then marks the first process of the highest priority as running.
pub scheduler_round-some :
    (ps : List Proc) (i : ℕ)
    → (scheduler_round ps).0 ≡ some i
    → (p : Proc) × IsHighest (age_all ps) i p
      × (get_elem? (scheduler_round ps).1 i ≡ some (record p { state = running }))
scheduler_round-some ps i h =
    let e : pick (age_all ps) ≡ some i = sym (scheduler_round-fst ps) ∙ h in
    let (p, high) = pick-some (age_all ps) i e in (p, high, running_at ps i p e high.at)
