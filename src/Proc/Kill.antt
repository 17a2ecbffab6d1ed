-- ===== src/Proc/Kill.antt =====
-- The system calls that act on a process by its pid.
use sofinal_project.Prelude.{
  ℕ, ◌≤◌, ◌<◌, ◌≡◌, ◌≢◌, ◌⊎◌, ◌↔◌, refl, inl, inr, true, false, ◌||◌, none, some, List, arith, ltb,
  get_elem?, modify, find_first, find_first-some, find_first-none, find_first-exists, Option-cases,
  Bool-cases, get_elem?-modify_self, get_elem?-modify_ne,
}
use sofinal_project.Proc.{
  Proc, sleeping, runnable, has_pid, mark_killed, done, failed, kill, set_priority,
}

-- `ps'` is `ps` with the entry `p` of slot `i` replaced by `p'`.
abbrev pub Replaced : List Proc → ℕ → Proc → Proc → List Proc → Type 0
Replaced ps i p p' ps' =
    (get_elem? ps i ≡ some p)
    × (get_elem? ps' i ≡ some p')
    × ((j : ℕ) → i ≢ j → get_elem? ps' j ≡ get_elem? ps j)

-- No entry has the pid.
abbrev pub NoPid : ℕ → List Proc → Type 0
NoPid pid ps = (j : ℕ) (q : Proc) → get_elem? ps j ≡ some q → q.pid ≢ pid

modify-Replaced :
    (ps : List Proc) (i : ℕ) (f : Proc → Proc) (p : Proc)
    → get_elem? ps i ≡ some p
    → Replaced ps i p (f p) (modify ps i f)
modify-Replaced ps i f p at =
    (at, rw (get_elem?-modify_self ps i f, at) refl, λ j ne. get_elem?-modify_ne ps i j f ne)

find-NoPid : (pid : ℕ) (ps : List Proc) → (find_first (has_pid pid) ps ≡ none) ↔ NoPid pid ps
find-NoPid pid ps = (
  λ e j q g. ground (arith, find_first-none (has_pid pid) ps e j q),
  λ absent. elim (Option-cases (find_first (has_pid pid) ps)) [
    | inl e ↦ e
    | inr (i, found) ↦
        let (p, first) = find_first-some (has_pid pid) ps i found in
        absurd (absent i p first.at (ground (arith, first.passes)))
  ],
)

pub kill-none :
    (pid : ℕ) (ps : List Proc) → find_first (has_pid pid) ps ≡ none → kill pid ps ≡ (failed, ps)
unfolding kill
kill-none pid ps e = ground arith

pub kill-some :
    (pid i : ℕ) (ps : List Proc)
    → find_first (has_pid pid) ps ≡ some i
    → kill pid ps ≡ (done, modify ps i mark_killed)
unfolding kill
kill-some pid i ps e = ground arith

-- What `kill` leaves at the entry that it marks.
abbrev pub IsMarked : Proc → Proc → Type 0
IsMarked p p' =
    (p'.killed ≡ true)
    × (p'.state ≢ sleeping)
    × ((p.state ≡ sleeping) → p'.state ≡ runnable)
    × ((p.state ≢ sleeping) → p'.state ≡ p.state)

mark_killed-IsMarked : (p : Proc) → IsMarked p (mark_killed p)
mark_killed-IsMarked p = (ground arith, ground arith, ground arith, ground arith)

-- `kill` either fails, changing nothing, when no entry has the pid; or it marks the first entry that
-- has it as killed, wakes it if it sleeps, and leaves the rest of the table alone.
pub kill-cases :
    (pid : ℕ) (ps : List Proc)
    → ((kill pid ps ≡ (failed, ps)) × NoPid pid ps)
      ⊎ ((i : ℕ) × (p : Proc) × (p.pid ≡ pid)
          × ((kill pid ps).0 ≡ done)
          × IsMarked p (mark_killed p)
          × Replaced ps i p (mark_killed p) (kill pid ps).1)
kill-cases pid ps = elim (Option-cases (find_first (has_pid pid) ps)) [
  | inl e ↦ inl (kill-none pid ps e, (find-NoPid pid ps).0 e)
  | inr (i, e) ↦
      let (p, first) = find_first-some (has_pid pid) ps i e in
      inr (
        i,
        p,
        ground (arith, first.passes),
        rw (kill-some pid i ps e) refl,
        mark_killed-IsMarked p,
        rw (kill-some pid i ps e) (modify-Replaced ps i mark_killed p first.at),
      )
]

-- A pid that some entry has, and a priority between 1 and 5: the call succeeds, gives the first such
-- entry the priority, restarts its wait and leaves the rest of the table alone.
pub set_priority-done :
    (pid new_priority j : ℕ) (ps : List Proc) (q : Proc)
    → get_elem? ps j ≡ some q
    → q.pid ≡ pid
    → 1 ≤ new_priority
    → new_priority ≤ 5
    → (i : ℕ) × (p : Proc) × (p.pid ≡ pid)
      × ((set_priority pid new_priority ps).0 ≡ done)
      × Replaced ps i p
          (record p { priority = new_priority; ticks_waiting = 0 })
          (set_priority pid new_priority ps).1
unfolding set_priority
set_priority-done pid new_priority j ps q at e lo hi =
    let (i, found) = find_first-exists (has_pid pid) ps j q at (ground arith) in
    let (p, first) = find_first-some (has_pid pid) ps i found in
    let fits : (ltb new_priority 1 || ltb 5 new_priority) ≡ false = ground arith in
    let set : Proc → Proc = λ p. record p { priority = new_priority; ticks_waiting = 0 } in
    (
      i,
      p,
      ground (arith, first.passes),
      rw (fits, found, set_priority) refl,
      rw (fits, found, set_priority) (modify-Replaced ps i set p first.at),
    )

-- Any other call fails and changes nothing.
pub set_priority-failed :
    (pid new_priority : ℕ) (ps : List Proc)
    → (new_priority < 1) ⊎ (5 < new_priority) ⊎ NoPid pid ps
    → set_priority pid new_priority ps ≡ (failed, ps)
unfolding set_priority
set_priority-failed pid new_priority ps (inl low) =
    let bad : (ltb new_priority 1 || ltb 5 new_priority) ≡ true = ground arith in
    rw (bad, set_priority) refl
set_priority-failed pid new_priority ps (inr (inl high)) =
    let bad : (ltb new_priority 1 || ltb 5 new_priority) ≡ true = ground arith in
    rw (bad, set_priority) refl
set_priority-failed pid new_priority ps (inr (inr absent)) =
    elim (Bool-cases (ltb new_priority 1 || ltb 5 new_priority)) [
      | inl bad ↦ rw (bad, set_priority) refl
      | inr fits ↦ rw (fits, (find-NoPid pid ps).1 absent, set_priority) refl
    ]
