-- ===== src/Life/Fork/Laws.antt =====
-- `allocproc` and `fork` on the process table.
use sofinal_project.Prelude.{
  ℕ, ◌+◌, ◌^◌, ◌<◌, ◌≡◌, ◌≢◌, refl, ◌∙◌, inl, inr, Bool, true, false, Option, none, some, List,
  arith, ◌==◌, get_elem?, modify, find_first, find_first-IsFirst, IsFirst, Option-cases, Bool-cases,
  get_elem?-modify_self, get_elem?-modify_ne, get_elem?-modify-some, modify-modify,
}
use sofinal_project.Kalloc.{Kmem, kalloc}
use sofinal_project.Proc.{Proc, runnable, is_unused}
use sofinal_project.Life.Kernel.{Kernel, Env}
use sofinal_project.File.{File}
use sofinal_project.CString.{safestrcpy}
use sofinal_project.Life.Fork.{next_pid, claim, give_back, equip, allocproc}

abbrev pub free_slot : Proc → Bool
free_slot p = is_unused p.state

module _ (env : Env) (k : Kernel) where
  allocproc-full : find_first free_slot k.procs ≡ none → allocproc env k ≡ (none, k)
  unfolding allocproc
  allocproc-full e = rw (e, allocproc) refl

  -- The table after a successful call.
  abbrev pub with_proc : ℕ → List Proc
  with_proc i = modify (modify k.procs i (claim k.nextpid)) i (equip (kalloc k.kmem).0)

  abbrev without_proc : ℕ → List Proc
  without_proc i = modify (modify k.procs i (claim k.nextpid)) i give_back

  allocproc-found :
      (i : ℕ)
      → find_first free_slot k.procs ≡ some i
      → (kalloc k.kmem).0 ≢ 0
      → ((allocproc env k).0 ≡ some i)
        × ((allocproc env k).1.procs ≡ with_proc i)
        × ((allocproc env k).1.nextpid ≡ next_pid k.nextpid)
  unfolding allocproc
  allocproc-found i e page =
      let has_page : ((kalloc k.kmem).0 == 0) ≡ false = ground arith in
      (
        rw (e, allocproc, has_page) refl,
        rw (e, allocproc, has_page) refl,
        rw (e, allocproc, has_page) refl,
      )

  allocproc-starved :
      (i : ℕ)
      → find_first free_slot k.procs ≡ some i
      → (kalloc k.kmem).0 ≡ 0
      → ((allocproc env k).0 ≡ none)
        × ((allocproc env k).1.procs ≡ without_proc i)
        × ((allocproc env k).1.nextpid ≡ next_pid k.nextpid)
  unfolding allocproc
  allocproc-starved i e page =
      let no_page : ((kalloc k.kmem).0 == 0) ≡ true = ground arith in
      (
        rw (e, allocproc, no_page) refl,
        rw (e, allocproc, no_page) refl,
        rw (e, allocproc, no_page) refl,
      )

  -- With a free slot and a free page `allocproc` succeeds: it claims the first unused slot with the
  -- next pid, the default priority 3 and no time waited, gives it the page as kernel stack, keeps
  -- whatever else stood in the slot, and leaves every other slot alone.
  pub allocproc-some :
      (i : ℕ) (old : Proc)
      → IsFirst free_slot k.procs i old
      → (kalloc k.kmem).0 ≢ 0
      → ((allocproc env k).0 ≡ some i)
        × (get_elem? (allocproc env k).1.procs i
            ≡ some (equip (kalloc k.kmem).0 (claim k.nextpid old)))
        × ((allocproc env k).1.nextpid ≡ next_pid k.nextpid)
        × ((j : ℕ) → i ≢ j → get_elem? (allocproc env k).1.procs j ≡ get_elem? k.procs j)
  allocproc-some i old first page =
      let e : find_first free_slot k.procs ≡ some i =
        find_first-IsFirst free_slot k.procs i old first in
      let (slot, table, next) = allocproc-found i e page in
      let stack = (kalloc k.kmem).0 in
      (
        slot,
        rw
            (
              table,
              get_elem?-modify_self (modify k.procs i (claim k.nextpid)) i (equip stack),
              get_elem?-modify_self k.procs i (claim k.nextpid),
              first.at,
            )
            refl,
        next,
        λ j ne. rw table (
            get_elem?-modify_ne (modify k.procs i (claim k.nextpid)) i j (equip stack) ne
            ∙ get_elem?-modify_ne k.procs i j (claim k.nextpid) ne),
      )

-- Pids are handed out once: all are below the next one, and no two entries share a positive one.
pub record IsPidSafe (ps : List Proc) (nextpid : ℕ) : Type 0 where
  pub positive : 0 < nextpid
  pub fresh : (j : ℕ) (q : Proc) → get_elem? ps j ≡ some q → q.pid < nextpid
  pub unique :
      (i j : ℕ) (p q : Proc)
      → get_elem? ps i ≡ some p
      → get_elem? ps j ≡ some q
      → p.pid ≡ q.pid
      → 0 < p.pid
      → i ≡ j

-- Writing the next pid into one slot keeps pids unique.
claim-IsPidSafe :
    (ps : List Proc) (n i : ℕ) (f : Proc → Proc)
    → ((p : Proc) → (f p).pid ≡ n)
    → IsPidSafe ps n
    → IsPidSafe (modify ps i f) (n + 1)
claim-IsPidSafe ps n i f pid safe = record {
  positive = omega arith;
  fresh = λ j q g.
      let (x, gx, ex) = get_elem?-modify-some ps i j f g in
      ground (arith, safe.fresh j x gx, pid x);
  unique = λ a b p q ga gb same pos.
      let (x, gx, ex) = get_elem?-modify-some ps i a f ga in
      let (y, gy, ey) = get_elem?-modify-some ps i b f gb in
      ground (arith, safe.fresh a x gx, safe.fresh b y gy, pid x, pid y, safe.unique a b x y gx gy);
}

-- However `allocproc` ends, pids stay unique and below the next one, as long as the next one is below the largest
-- `int`.
pub allocproc-IsPidSafe :
    (env : Env) (k : Kernel)
    → k.nextpid + 1 < 2 ^ 31
    → IsPidSafe k.procs k.nextpid
    → IsPidSafe (allocproc env k).1.procs (allocproc env k).1.nextpid
allocproc-IsPidSafe env k small safe =
    let step : next_pid k.nextpid ≡ k.nextpid + 1 = omega (arith, small) in
    elim (Option-cases (find_first free_slot k.procs)) [
      | inl e ↦ rw (allocproc-full env k e) safe
      | inr (i, e) ↦ elim (Bool-cases ((kalloc k.kmem).0 == 0)) [
        | inl no_page ↦
            let (slot, table, next) = allocproc-starved env k i e (ground arith) in
            rw (table, next ∙ step, modify-modify k.procs i (claim k.nextpid) give_back)
              (claim-IsPidSafe k.procs k.nextpid i (λ p. give_back (claim k.nextpid p)) (λ p. refl)
                safe)
        | inr page ↦
            let (slot, table, next) = allocproc-found env k i e (ground arith) in
            let stack = (kalloc k.kmem).0 in
            rw (table, next ∙ step, modify-modify k.procs i (claim k.nextpid) (equip stack))
              (claim-IsPidSafe k.procs k.nextpid i (λ p. equip stack (claim k.nextpid p))
                (λ p. refl) safe)
      ]
    ]

-- The child's trap frame holds 0 for `eax`.
abbrev pub eax : Kernel → Proc → ℕ
eax k p = k.kmem.mem (p.tf + 28)

-- The first of two, if there is one.
abbrev pub either : Option ℕ → Option ℕ → Option ℕ
either none t = t
either (some f) t = some f

-- Every entry of `new` is the one of `ours`, or where there is none the one of `theirs`.
abbrev pub Shares : List (Option ℕ) → List (Option ℕ) → List (Option ℕ) → Type 0
Shares ours theirs new =
    (n : ℕ) (o t : Option ℕ)
    → get_elem? ours n ≡ some o
    → get_elem? theirs n ≡ some t
    → get_elem? new n ≡ some (either o t)

-- What `fork` leaves in slot `i`, where `np` is the new entry of `allocproc`, `parent` the caller's and `pgdir` what
-- `copyuvm` returned.
abbrev pub IsForked : ℕ → Proc → ℕ → Proc → ℕ → Kernel → Type 0
IsForked self parent i np pgdir k' =
    (q : Proc) × (get_elem? k'.procs i ≡ some q)
    × (q ≡ record np {
      pgdir = pgdir;
      sz = parent.sz;
      parent = some self;
      priority = parent.priority;
      ofile = q.ofile;
      cwd = parent.cwd;
      name = safestrcpy np.name parent.name 16;
      state = runnable;
    })
    × Shares parent.ofile np.ofile q.ofile
    × (eax k' q ≡ 0)

module _ (env : Env) (self i : ℕ) (k1 : Kernel) (parent np : Proc) where
  abbrev copied : ℕ × Kmem
  copied = env.copyuvm parent.pgdir parent.sz k1.kmem
