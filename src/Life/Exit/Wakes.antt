-- ===== src/Life/Exit/Wakes.antt =====
-- `exit` wakes those that wait for it, or for the children that it leaves.
use sofinal_project.Prelude.{
  ℕ, zero, suc, ◌+◌, ◌≤◌, ◌<◌, ◌≡◌, ◌≢◌, ◌⊎◌, refl, sym, ap, ◌∙◌, inl, inr, true, Option, some,
  List, length, arith, ◌==◌, get_elem?, modify, Bool-cases, ==_refl, get_elem?-modify_ne,
  lt-length_of_get,
}
use sofinal_project.Proc.{Proc, sleeping, runnable, zombie, is_zombie, Chan, entry, wake}
use sofinal_project.Proc.Wakeup.{get_elem?-wakeup1, same_chan_refl}
use sofinal_project.Life.Exit.{names, is_child, reparent, wake_parent, exit_table}
use sofinal_project.Life.Exit.Laws.{
  reparent_step, reparent_step-After, reparent-After, wake_parent-After, exit_table-some,
  modify-After,
}

-- Sleeping in `wait`: on the process's own entry.
abbrev pub Waits : ℕ → Proc → Type 0
Waits i p = (p.state ≡ sleeping) × (p.chan ≡ some (entry i))

abbrev RunnableAt : List Proc → ℕ → Type 0
RunnableAt ps i = (q : Proc) × (get_elem? ps i ≡ some q) × (q.state ≡ runnable)

wake-runnable :
    (c : Option Chan) (p : Proc) → p.state ≡ sleeping → p.chan ≡ c → (wake c p).state ≡ runnable
wake-runnable c p s e = rw (s, e, same_chan_refl c) refl

-- A runnable process stays runnable through the loop.
reparent-RunnableAt :
    (self init n i j : ℕ) (ps : List Proc)
    → RunnableAt ps j
    → RunnableAt (reparent self init n i ps) j
reparent-RunnableAt self init n i j ps (o, at, ready) =
    let (q, g, w, par) = reparent-After self init n i j o ps at in (q, g, ground (arith, w.state))

exit_table-RunnableAt :
    (self init j : ℕ) (me : Proc) (ps ps' : List Proc)
    → get_elem? ps self ≡ some me
    → self ≢ j
    → exit_table self init ps ≡ some ps'
    → RunnableAt (reparent self init (length ps) 0 (wake_parent me ps)) j
    → RunnableAt ps' j
exit_table-RunnableAt self init j me ps ps' at ne h (q, g, ready) =
    let qs = reparent self init (length ps) 0 (wake_parent me ps) in
    let same : modify qs self (λ p. record p { state = zombie }) ≡ ps' =
      ground (arith, exit_table-some self init me ps at) in
    (q, rw (← same) (get_elem?-modify_ne qs self j _ ne ∙ g), ready)

-- A parent that sleeps in `wait` is runnable after the exit of its child.
pub exit_table-wakes_parent :
    (self init a : ℕ) (me p : Proc) (ps ps' : List Proc)
    → get_elem? ps self ≡ some me
    → me.parent ≡ some a
    → self ≢ a
    → get_elem? ps a ≡ some p
    → Waits a p
    → exit_table self init ps ≡ some ps'
    → (q : Proc) × (get_elem? ps' a ≡ some q) × (q.state ≡ runnable)
exit_table-wakes_parent self init a me p ps ps' at par ne ga (asleep, on) h =
    let woken : RunnableAt (wake_parent me ps) a = rw par (
      wake (some (entry a)) p,
      get_elem?-wakeup1 (some (entry a)) ps a p ga,
      wake-runnable (some (entry a)) p asleep on,
    ) in
    exit_table-RunnableAt self init a me ps ps' at ne h
      (reparent-RunnableAt self init (length ps) 0 a (wake_parent me ps) woken)

-- Either init waits still, or it has been woken.
abbrev WaitsOrRuns : ℕ → List Proc → Type 0
WaitsOrRuns init ps =
    RunnableAt ps init ⊎ ((p : Proc) × (get_elem? ps init ≡ some p) × Waits init p)

reparent_step-WaitsOrRuns :
    (self init i : ℕ) (ps : List Proc)
    → WaitsOrRuns init ps
    → WaitsOrRuns init (reparent_step self init i ps)
reparent_step-WaitsOrRuns self init i ps (inl (o, at, ready)) =
    let (q, g, w, par) = reparent_step-After self init i init o ps at in
    inl (q, g, ground (arith, w.state))
reparent_step-WaitsOrRuns self init i ps (inr (o, at, (asleep, on))) =
    let (q, g, w, par) = reparent_step-After self init i init o ps at in
    elim (w.state) [
      | inl same ↦ inr (q, g, (same ∙ asleep, w.chan ∙ on))
      | inr (s, ready) ↦ inl (q, g, ready)
    ]

-- A step at a zombie child wakes init.
reparent_step-wakes :
    (self init i : ℕ) (c : Proc) (ps : List Proc)
    → get_elem? ps i ≡ some c
    → is_child self c ≡ true
    → is_zombie c.state ≡ true
    → WaitsOrRuns init ps
    → RunnableAt (reparent_step self init i ps) init
reparent_step-wakes self init i c ps at child dead (inl (o, g, ready)) =
    let (q, g', w, par) = reparent_step-After self init i init o ps g in
    (q, g', ground (arith, w.state))
reparent_step-wakes self init i c ps at child dead (inr (o, g, (asleep, on))) =
    let (q, g', w, par) = modify-After init i init ps o g in
    let still : (q.state ≡ sleeping) ⊎ (q.state ≡ runnable) = ground (arith, w.state) in
    rw (at, reparent_step)
      (rw child (
        rw dead (
          wake (some (entry init)) q,
          get_elem?-wakeup1 (some (entry init)) _ init q g',
          elim still [
            | inl s ↦ wake-runnable (some (entry init)) q s (w.chan ∙ on)
            | inr r ↦ rw r r
          ],
        )))

-- The loop wakes init if it meets a zombie child on its way.
reparent-wakes :
    (self init n i j : ℕ) (c : Proc) (ps : List Proc)
    → init ≢ self
    → get_elem? ps j ≡ some c
    → is_child self c ≡ true
    → c.state ≡ zombie
    → i ≤ j
    → j < i + n
    → WaitsOrRuns init ps
    → RunnableAt (reparent self init n i ps) init
unfolding reparent
reparent-wakes self init zero i j c ps ne at child dead lo hi w = absurd (omega arith)
reparent-wakes self init (suc n) i j c ps ne at child dead lo hi w = elim (Bool-cases (i == j)) [
  | inl now ↦
      let same : i ≡ j = ground arith in
      reparent-RunnableAt self init n (i + 1) init (reparent_step self init i ps)
        (reparent_step-wakes self init i c ps (rw same at) child (rw dead refl) w)
  | inr later ↦
      let (q, g, woken, par) = reparent_step-After self init i j c ps at in
      let kept : q.parent ≡ c.parent = par ∙ rw later refl in
      let dead_q : q.state ≡ zombie = ground (arith, woken.state) in
      reparent-wakes self init n (i + 1) j q (reparent_step self init i ps) ne g
        (ap (names self) kept ∙ child) dead_q (ground arith) (omega arith)
        (reparent_step-WaitsOrRuns self init i ps w)
]

-- If the caller leaves a child that has exited already, init, where it sleeps in `wait`, is runnable
-- after the caller's exit, and so will find the zombie.
pub exit_table-wakes_init :
    (self init j : ℕ) (me c p : Proc) (ps ps' : List Proc)
    → get_elem? ps self ≡ some me
    → self ≢ init
    → get_elem? ps j ≡ some c
    → c.parent ≡ some self
    → c.state ≡ zombie
    → get_elem? ps init ≡ some p
    → Waits init p
    → exit_table self init ps ≡ some ps'
    → (q : Proc) × (get_elem? ps' init ≡ some q) × (q.state ≡ runnable)
exit_table-wakes_init self init j me c p ps ps' at ne gc par dead gp (asleep, on) h =
    let (c', g, w, kept) = wake_parent-After me ps j c gc in
    let child : is_child self c' ≡ true = ap (names self) (kept ∙ par) ∙ ==_refl self in
    let dead' : c'.state ≡ zombie = ground (arith, w.state) in
    let lt : j < length ps = lt-length_of_get ps j gc in
    let (p', gp', wp, kp) = wake_parent-After me ps init p gp in
    let before : WaitsOrRuns init (wake_parent me ps) = elim (wp.state) [
      | inl s ↦ inr (p', gp', (s ∙ asleep, wp.chan ∙ on))
      | inr (s, r) ↦ inl (p', gp', r)
    ] in
    exit_table-RunnableAt self init init me ps ps' at ne h (
      reparent-wakes self init (length ps) 0 j c' (wake_parent me ps) (λ e. ne (sym e)) g child
        dead' (omega arith) (omega arith) before)
