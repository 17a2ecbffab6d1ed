-- ===== src/Life/Wait/Laws.antt =====
-- `wait` finds the children that have exited, and gives back what they held.
use mathlib.Core.Option
use sofinal_project.Prelude.{
  ℕ, suc, ◌+◌, ◌≡◌, ◌≢◌, ◌⊎◌, refl, ap, ◌∙◌, inl, inr, Bool, true, false, ◌&&◌, ◌||◌, not, Option,
  none, some, List, [], ◌∷◌, arith, ◌==◌, if◌then◌else◌, get_elem?, modify, find_first,
  find_first-some, find_first-exists, find_first-IsFirst, IsFirst, Option-cases, ==_refl,
}
use sofinal_project.CString.{put}
use sofinal_project.Kalloc.{Kmem}
use sofinal_project.Kalloc.FreeList.{IsPage, has, IsFree}
use sofinal_project.Kalloc.Laws.{kfree-push}
use sofinal_project.Proc.{Proc, unused, sleeping, is_zombie, entry}
use sofinal_project.Life.Kernel.{Kernel, Env}
use sofinal_project.Life.Exit.{names, is_child, exit_table}
use sofinal_project.Life.Exit.Laws.{exit_table_lem}
use sofinal_project.Life.Wait.{scan_children, reaped, no_child, sleeps, reap, wait_pass}

abbrev pub zombie_child : ℕ → Proc → Bool
zombie_child self p = is_child self p && is_zombie p.state

abbrev is_some : Option ℕ → Bool
is_some none = false
is_some (some i) = true

-- The pass is two scans: for the first child that has exited, and for any child.
scan_children-exited :
    (self i : ℕ) (ps : List Proc)
    → (scan_children self i ps).exited ≡ Option.map (λ k. i + k) (find_first (zombie_child self) ps)
unfolding scan_children find_first
scan_children-exited self i [] = refl
scan_children-exited self i (p ∷ ps) = ground (arith, scan_children-exited self (suc i) ps)

scan_children-any :
    (self i : ℕ) (ps : List Proc)
    → (scan_children self i ps).any ≡ is_some (find_first (is_child self) ps)
unfolding scan_children find_first
scan_children-any self i [] = refl
scan_children-any self i (p ∷ ps) = ground (arith, scan_children-any self (suc i) ps)

-- A slot without a process.
abbrev pub vacated : Proc → Proc
vacated p = record p {
  kstack = 0;
  pid = 0;
  parent = none;
  name = put 0 p.name;
  killed = false;
  state = unused;
}

module _ (env : Env) (self : ℕ) (k : Kernel) where
  wait_pass-exited :
      (i : ℕ) (p : Proc)
      → (scan_children self 0 k.procs).exited ≡ some i
      → get_elem? k.procs i ≡ some p
      → wait_pass env self k ≡ reap env i p k
  unfolding wait_pass
  wait_pass-exited i p e at = rw (e, wait_pass) (rw (at, wait_pass) refl)

  wait_pass-idle :
      (me : Proc)
      → (scan_children self 0 k.procs).exited ≡ none
      → get_elem? k.procs self ≡ some me
      → wait_pass env self k ≡ (
          if not (scan_children self 0 k.procs).any || me.killed
          then some (no_child, k)
          else some (
            sleeps,
            record k {
              procs =
                  modify k.procs self
                    (λ p. record p { chan = some (entry self); state = sleeping });
            },
          ))
  unfolding wait_pass
  wait_pass-idle me e at = rw (e, wait_pass) (rw (at, wait_pass) refl)

  -- If a child has exited, `wait` reaps the first one in the table: it returns its pid, puts the page
  -- of its kernel stack back in front of the free pages, frees its address space and clears its
  -- slot: that is unused and has no stack, pid, parent, name or mark of `kill`; its other fields and the
  -- other slots stay. The child's stack is a page that is not free yet, and `freevm` does not panic.
  pub wait_pass-reaps :
      (i : ℕ) (p : Proc) (pages : List ℕ)
      → IsFirst (zombie_child self) k.procs i p
      → IsPage env.end p.kstack
      → has p.kstack pages ≡ false
      → IsFree env.end k.kmem pages
      → (kmem : Kmem) × IsFree env.end kmem (p.kstack ∷ pages)
        × ((kmem' : Kmem)
            → env.freevm p.pgdir kmem ≡ some kmem'
            → wait_pass env self k
              ≡ some (reaped p.pid, record k { procs = modify k.procs i vacated; kmem = kmem' }))
  unfolding reap
  wait_pass-reaps i p pages first page out free =
      let (kmem, e, free', lock) = kfree-push env.end p.kstack k.kmem pages page out free in
      let found : find_first (zombie_child self) k.procs ≡ some i =
        find_first-IsFirst (zombie_child self) k.procs i p first in
      let scan : (scan_children self 0 k.procs).exited ≡ some i =
        ground (arith, scan_children-exited self 0 k.procs) in
      (
        kmem,
        free',
        λ kmem' freed. wait_pass-exited i p scan first.at ∙ rw (e, reap) (rw (freed, reap) refl),
      )

  -- Without a child that has exited, `wait` returns -1 and changes nothing if there is no child at
  -- all or the caller has been killed.
  pub wait_pass-no_child :
      (me : Proc)
      → get_elem? k.procs self ≡ some me
      → ((j : ℕ) (q : Proc) → get_elem? k.procs j ≡ some q → zombie_child self q ≡ false)
      → ((j : ℕ) (q : Proc) → get_elem? k.procs j ≡ some q → q.parent ≢ some self)
        ⊎ (me.killed ≡ true)
      → wait_pass env self k ≡ some (no_child, k)
  wait_pass-no_child me at alive why =
      wait_pass-idle me (no_zombie alive) at ∙ rw (returns why) refl
    where
      no_zombie :
          ((j : ℕ) (q : Proc) → get_elem? k.procs j ≡ some q → zombie_child self q ≡ false)
          → (scan_children self 0 k.procs).exited ≡ none
      no_zombie alive = elim (Option-cases (find_first (zombie_child self) k.procs)) [
        | inl e ↦ ground (arith, scan_children-exited self 0 k.procs)
        | inr (i, e) ↦
            let (q, first) = find_first-some (zombie_child self) k.procs i e in
            absurd (ground (arith, first.passes, alive i q first.at))
      ]

      returns :
          ((j : ℕ) (q : Proc) → get_elem? k.procs j ≡ some q → q.parent ≢ some self)
            ⊎ (me.killed ≡ true)
          → (not (scan_children self 0 k.procs).any || me.killed) ≡ true
      returns (inr dead) = ground arith
      returns (inl none_there) = elim (Option-cases (find_first (is_child self) k.procs)) [
        | inl e ↦ ground (arith, scan_children-any self 0 k.procs)
        | inr (i, e) ↦
            let (q, first) = find_first-some (is_child self) k.procs i e in
            absurd (none_there i q first.at (parent_of q first.passes))
      ]
        where
          parent_of : (q : Proc) → is_child self q ≡ true → q.parent ≡ some self
          parent_of q h = ground arith

-- With a child but none that has exited, a caller that has not been killed goes to sleep on its own
-- entry, the channel that `exit` wakes; nothing else changes.
pub wait_pass-sleeps :
    (env : Env) (self : ℕ) (k : Kernel) (me : Proc) (j : ℕ) (c : Proc)
    → get_elem? k.procs self ≡ some me
    → me.killed ≡ false
    → ((i : ℕ) (q : Proc) → get_elem? k.procs i ≡ some q → zombie_child self q ≡ false)
    → get_elem? k.procs j ≡ some c
    → c.parent ≡ some self
    → wait_pass env self k
      ≡ some (
        sleeps,
        record k {
          procs =
              modify k.procs self (λ p. record p { chan = some (entry self); state = sleeping });
        },
      )
wait_pass-sleeps env self k me j c at alive none_exited gc par =
    let child : is_child self c ≡ true = ap (names self) par ∙ ==_refl self in
    let (i, found) = find_first-exists (is_child self) k.procs j c gc child in
    let any : (not (scan_children self 0 k.procs).any || me.killed) ≡ false =
      ground (arith, scan_children-any self 0 k.procs) in
    let quiet : (scan_children self 0 k.procs).exited ≡ none = no_zombie in
    wait_pass-idle env self k me quiet at ∙ rw any refl
  where
    no_zombie : (scan_children self 0 k.procs).exited ≡ none
    no_zombie = elim (Option-cases (find_first (zombie_child self) k.procs)) [
      | inl e ↦ ground (arith, scan_children-exited self 0 k.procs)
      | inr (i, e) ↦
          let (q, first) = find_first-some (zombie_child self) k.procs i e in
          absurd (ground (arith, first.passes, none_exited i q first.at))
    ]

-- After the exit of a process its table has a child for the parent to reap.
exit_table-reapable :
    (self init a : ℕ) (me : Proc) (ps ps' : List Proc)
    → get_elem? ps self ≡ some me
    → me.parent ≡ some a
    → self ≢ a
    → exit_table self init ps ≡ some ps'
    → (i : ℕ) × (p : Proc) × IsFirst (zombie_child a) ps' i p
exit_table-reapable self init a me ps ps' at par ne h =
    let (qs, e, (q, g, dead, pid, heir), rest) = exit_table_lem self init me ps at in
    let same : qs ≡ ps' = cc in
    let not_self : (a == self) ≡ false = ground arith in
    let kept : q.parent ≡ some a = heir ∙ rw (par, not_self) refl in
    let child : is_child a q ≡ true = ap (names a) kept ∙ ==_refl a in
    let passes : zombie_child a q ≡ true = rw (child, dead) refl in
    let (i, found) = find_first-exists (zombie_child a) ps' self q (rw (← same) g) passes in
    let (p, first) = find_first-some (zombie_child a) ps' i found in (i, p, first)

-- Every child of `a` that has exited has a kernel stack that is a page in use.
abbrev pub HaveStacks : ℕ → ℕ → List ℕ → List Proc → Type 0
HaveStacks end a pages ps =
    (i : ℕ) (p : Proc)
    → get_elem? ps i ≡ some p
    → zombie_child a p ≡ true
    → IsPage end p.kstack × (has p.kstack pages ≡ false)

-- After the exit of a process whose parent is another one, the parent's next pass of `wait` does not sleep: it
-- returns the pid of the first of its children that have exited, gives back the child's kernel stack and address
-- space, and leaves its slot unused. The stacks of the parent's children that have exited are pages in
-- use, and `freevm` does not panic.
pub wait_pass-exit_table :
    (env : Env) (k : Kernel) (self a : ℕ) (me : Proc) (ps' : List Proc) (pages : List ℕ)
    → get_elem? k.procs self ≡ some me
    → me.parent ≡ some a
    → self ≢ a
    → exit_table self k.initproc k.procs ≡ some ps'
    → HaveStacks env.end a pages ps'
    → IsFree env.end k.kmem pages
    → (i : ℕ) × (p : Proc) × IsFirst (zombie_child a) ps' i p
      × ((kmem : Kmem) × IsFree env.end kmem (p.kstack ∷ pages)
          × ((kmem' : Kmem)
              → env.freevm p.pgdir kmem ≡ some kmem'
              → wait_pass env a (record k { procs = ps' })
                ≡ some (reaped p.pid, record k { procs = modify ps' i vacated; kmem = kmem' })))
wait_pass-exit_table env k self a me ps' pages at par ne h stacks free =
    let (i, p, first) = exit_table-reapable self k.initproc a me k.procs ps' at par ne h in
    let (page, out) = stacks i p first.at first.passes in
    (i, p, first, wait_pass-reaps env a (record k { procs = ps' }) i p pages first page out free)
