-- ===== src/Life/Exit/Laws.antt =====
-- `exit` on the process table: who inherits the children, and who is woken.
use sofinal_project.Prelude.{
  ℕ, zero, suc, ◌+◌, ◌<◌, ◌≡◌, ◌≢◌, ◌⊎◌, refl, ap, ◌∙◌, inl, inr, Bool, true, false, ◌&&◌, Option,
  none, some, List, length, arith, ltb, leb, ◌==◌, if◌then◌else◌, get_elem?, modify, Option-cases,
  Bool-cases, get_elem?-modify_self, get_elem?-modify_ne, lt-length_of_get,
}
use sofinal_project.Proc.{
  Proc, sleeping, runnable, zombie, is_sleeping, is_zombie, same_chan, Chan, entry, wake, wakeup1,
}
use sofinal_project.Proc.Wakeup.{get_elem?-wakeup1}
use sofinal_project.Life.Exit.{names, is_child, adopt, reparent, wake_parent, exit_table}

-- `q` with the state and the parent of `o`.
abbrev pub unmoved : Proc → Proc → Proc
unmoved o q = record q { state = o.state; parent = o.parent }

-- `q` is `o` but for a wakeup and its parent.
pub record IsWoken (o q : Proc) : Type 0 where
  pub same : unmoved o q ≡ o
  pub pid : q.pid ≡ o.pid
  pub chan : q.chan ≡ o.chan
  pub state : (q.state ≡ o.state) ⊎ ((o.state ≡ sleeping) × (q.state ≡ runnable))

IsWoken-refl : (o : Proc) → IsWoken o o
IsWoken-refl o = record { same = refl; pid = refl; chan = refl; state = inl refl }

IsWoken-trans : (a b c : Proc) → IsWoken a b → IsWoken b c → IsWoken a c
IsWoken-trans a b c f g = record {
  same = ap (unmoved a) g.same ∙ f.same;
  pid = g.pid ∙ f.pid;
  chan = g.chan ∙ f.chan;
  state = ground (arith, f.state, g.state);
}

wake-IsWoken : (c : Option Chan) (p : Proc) → IsWoken p (wake c p) × ((wake c p).parent ≡ p.parent)
wake-IsWoken c p = elim (Bool-cases (is_sleeping p.state && same_chan p.chan c)) [
  | inl hit ↦
      let asleep : p.state ≡ sleeping = ground (arith, hit) in
      rw hit (record { same = refl; pid = refl; chan = refl; state = inr (asleep, refl) }, refl)
  | inr missed ↦ rw missed (IsWoken-refl p, refl)
]

-- What stands at slot `j` after a step, where `o` stood before: perhaps woken, and with the parent
-- `par`.
abbrev pub After : List Proc → ℕ → Proc → Option ℕ → Type 0
After ps j o par = (q : Proc) × (get_elem? ps j ≡ some q) × IsWoken o q × (q.parent ≡ par)

wakeup1-After :
    (c : Option Chan) (ps : List Proc) (j : ℕ) (o : Proc)
    → get_elem? ps j ≡ some o
    → After (wakeup1 c ps) j o o.parent
wakeup1-After c ps j o at =
    (wake c o, get_elem?-wakeup1 c ps j o at, (wake-IsWoken c o).0, (wake-IsWoken c o).1)

pub modify-After :
    (init i j : ℕ) (ps : List Proc) (o : Proc)
    → get_elem? ps j ≡ some o
    → After
        (modify ps i (λ p. record p { parent = some init }))
        j
        o
        (if i == j then some init else o.parent)
modify-After init i j ps o at = elim (Bool-cases (i == j)) [
  | inl e ↦
      let same : i ≡ j = ground arith in
      (
        record o { parent = some init },
        rw same (rw (get_elem?-modify_self ps j _, at) refl),
        record { same = refl; pid = refl; chan = refl; state = inl refl },
        rw e refl,
      )
  | inr ne ↦ (o, get_elem?-modify_ne ps i j _ (ground arith) ∙ at, IsWoken-refl o, rw ne refl)
]

adopt-After :
    (init i j : ℕ) (p o : Proc) (ps : List Proc)
    → get_elem? ps j ≡ some o
    → After (adopt init i p ps) j o (if i == j then some init else o.parent)
adopt-After init i j p o ps at = elim (Bool-cases (is_zombie p.state)) [
  | inl z ↦
      let (q, g, w, e) = modify-After init i j ps o at in
      let (r, g', w', e') = wakeup1-After (some (entry init)) _ j q g in
      rw z (r, g', IsWoken-trans o q r w w', e' ∙ e)
  | inr live ↦ rw live (modify-After init i j ps o at)
]

-- One round of the loop.
abbrev pub reparent_step : ℕ → ℕ → ℕ → List Proc → List Proc
reparent_step self init i ps = elim (get_elem? ps i) [
  | none ↦ ps
  | some p ↦ if is_child self p then adopt init i p ps else ps
]

pub reparent_step-After :
    (self init i j : ℕ) (o : Proc) (ps : List Proc)
    → get_elem? ps j ≡ some o
    → After
        (reparent_step self init i ps)
        j
        o
        (if (i == j) && is_child self o then some init else o.parent)
reparent_step-After self init i j o ps at = elim (Option-cases (get_elem? ps i)) [
  | inl e ↦
      let ne : (i == j) ≡ false = elim (Bool-cases (i == j)) [
        | inl same ↦ absurd (ground arith)
        | inr ne ↦ ne
      ] in
      rw (e, reparent_step) (o, at, IsWoken-refl o, rw ne refl)
  | inr (p, e) ↦ elim (Bool-cases (is_child self p)) [
    | inl child ↦
        let (q, g, w, par) = adopt-After init i j p o ps at in
        (
          q,
          rw (e, reparent_step, child) g,
          w,
          elim (Bool-cases (i == j)) [
            | inl same ↦
                let eq : p ≡ o = ground arith in rw same (rw (← eq, child) (par ∙ rw same refl))
            | inr ne ↦ rw ne (par ∙ rw ne refl)
          ],
        )
    | inr other ↦ (
      o,
      rw (e, reparent_step, other) at,
      IsWoken-refl o,
      elim (Bool-cases (i == j)) [
        | inl same ↦ let eq : p ≡ o = ground arith in rw same (rw (← eq, other) refl)
        | inr ne ↦ rw ne refl
      ],
    )
  ]
]

-- Slot `j` is among the `n` slots from `i` on.
abbrev pub within : ℕ → ℕ → ℕ → Bool
within n i j = leb i j && ltb j (i + n)

abbrev pub heir : ℕ → ℕ → Bool → Proc → Option ℕ
heir self init here o = if here && is_child self o then some init else o.parent

pub reparent-After :
    (self init n i j : ℕ) (o : Proc) (ps : List Proc)
    → get_elem? ps j ≡ some o
    → After (reparent self init n i ps) j o (heir self init (within n i j) o)
unfolding reparent
reparent-After self init zero i j o ps at =
    let out : within zero i j ≡ false = ground arith in (o, at, IsWoken-refl o, rw out refl)
reparent-After self init (suc n) i j o ps at =
    let (q, g, w, par) = reparent_step-After self init i j o ps at in
    let (r, g', w', par') =
      reparent-After self init n (i + 1) j q (reparent_step self init i ps) g in
    (r, g', IsWoken-trans o q r w w', par' ∙ joined q par)
  where
    joined :
        (q : Proc)
        → q.parent ≡ (if (i == j) && is_child self o then some init else o.parent)
        → heir self init (within n (i + 1) j) q ≡ heir self init (within (suc n) i j) o
    joined q par = elim (Bool-cases (i == j)) [
      | inl same ↦
          let now : within (suc n) i j ≡ true = ground arith in
          let past : within n (i + 1) j ≡ false = ground arith in
          rw (now, past) (par ∙ rw same refl)
      | inr ne ↦
          let kept : q.parent ≡ o.parent = par ∙ rw ne refl in
          let again : within n (i + 1) j ≡ within (suc n) i j = ground arith in
          rw again (ap (λ x. if within (suc n) i j && names self x then some init else x) kept)
    ]

pub exit_table-some :
    (self init : ℕ) (me : Proc) (ps : List Proc)
    → get_elem? ps self ≡ some me
    → exit_table self init ps
      ≡ some (
          modify
            (reparent self init (length ps) 0 (wake_parent me ps))
            self
            (λ p. record p { state = zombie }))
unfolding exit_table
exit_table-some self init me ps at = rw (at, exit_table) refl

pub wake_parent-After :
    (me : Proc) (ps : List Proc) (j : ℕ) (o : Proc)
    → get_elem? ps j ≡ some o
    → After (wake_parent me ps) j o o.parent
wake_parent-After me ps j o at = wakeup1-After _ ps j o at

-- What `exit` leaves in a slot other than the caller's: the same process, perhaps woken; its parent
-- is init if it was the caller.
abbrev pub Survives : ℕ → ℕ → Proc → Proc → Type 0
Survives self init o q =
    IsWoken o q × (q.parent ≡ (if is_child self o then some init else o.parent))

-- `exit` makes the caller a zombie and passes each of its children to init. Of the caller's entry nothing
-- else changes but its parent, if it was its own. Every other process keeps its place and every field, but for
-- the parent of the caller's children, which is init, and for sleepers that a wakeup made runnable.
pub exit_table_lem :
    (self init : ℕ) (me : Proc) (ps : List Proc)
    → get_elem? ps self ≡ some me
    → (ps' : List Proc) × (exit_table self init ps ≡ some ps')
      × ((q : Proc) × (get_elem? ps' self ≡ some q)
          × (q.state ≡ zombie)
          × (unmoved me q ≡ me)
          × (q.parent ≡ (if is_child self me then some init else me.parent)))
      × ((j : ℕ) (o : Proc)
          → self ≢ j
          → get_elem? ps j ≡ some o
          → (q : Proc) × (get_elem? ps' j ≡ some q) × Survives self init o q)
exit_table_lem self init me ps at =
    let qs = reparent self init (length ps) 0 (wake_parent me ps) in
    let dead : Proc → Proc = λ p. record p { state = zombie } in
    let (m, g, w, par) = wake_parent-After me ps self me at in
    let (m', g', w', par') = reparent-After self init (length ps) 0 self m (wake_parent me ps) g in
    let lt_self : self < length ps = lt-length_of_get ps self at in
    let mine : within (length ps) 0 self ≡ true = ground arith in
    (
      modify qs self dead,
      exit_table-some self init me ps at,
      (
        dead m',
        rw (get_elem?-modify_self qs self dead, g') refl,
        refl,
        (IsWoken-trans me m m' w w').same,
        (par' ∙ rw mine refl) ∙ ap (λ x. if names self x then some init else x) par,
      ),
      λ j o ne old.
          let (a, ga, wa, pa) = wake_parent-After me ps j o old in
          let (b, gb, wb, pb) = reparent-After self init (length ps) 0 j a (wake_parent me ps) ga in
          let lt : j < length ps = lt-length_of_get ps j old in
          let here : within (length ps) 0 j ≡ true = ground arith in
          let par_b : b.parent ≡ (if is_child self a then some init else a.parent) =
            pb ∙ rw here refl in
          (
            b,
            get_elem?-modify_ne qs self j dead ne ∙ gb,
            (IsWoken-trans o a b wa wb, par_b ∙ ap (λ x. if names self x then some init else x) pa),
          ),
    )

-- After `exit` no process but the caller itself has the caller for a parent, init not being the
-- caller.
pub exit_table-orphans :
    (self init : ℕ) (me : Proc) (ps ps' : List Proc)
    → get_elem? ps self ≡ some me
    → init ≢ self
    → exit_table self init ps ≡ some ps'
    → (j : ℕ) (o q : Proc) → self ≢ j
    → get_elem? ps j ≡ some o
    → get_elem? ps' j ≡ some q
    → q.parent ≢ some self
exit_table-orphans self init me ps ps' at ne h j o q apart old new orphan =
    let (qs, e, dead, rest) = exit_table_lem self init me ps at in
    let same : qs ≡ ps' = cc in
    let (r, g, survives) = rest j o apart old in
    let par = survives.1 in
    let eq : r ≡ q = cc in
    elim (Bool-cases (is_child self o)) [
      | inl child ↦
          let adopted : r.parent ≡ some init = par ∙ rw child refl in absurd (ground arith)
      | inr other ↦
          let kept : r.parent ≡ o.parent = par ∙ rw other refl in
          let was : o.parent ≡ some self = cc in absurd (ground arith)
    ]
