-- ===== src/Log/AllOrNothing.antt =====
-- A commit and the recoveries after it, whichever of their writes the machine stops at.
use mathlib.Core.Path.{subst}
use sofinal_project.Prelude.{
  ℕ, ◌+◌, ◌*◌, ◌≤◌, ◌<◌, ◌≡◌, ◌≢◌, ◌⊎◌, refl, sym, ap, ◌∙◌, inl, inr, arith, List, [], ◌∷◌,
}
use sofinal_project.Log.{
  Words, Log, bread, bwrite, install_loop, install_trans, read_head, write_head, commit,
  recover_from_log, initlog, reboot,
}
use sofinal_project.Log.Crash.{
  Transaction, IsSound, Before, Committed, After, bwrite-dead, IsFor, Installing, disk-bwrite_ne,
  bwrite_self,
}
use sofinal_project.Log.Recovery.{
  load_entries-entry, header, write_head-bwrite, header-count, finish, finish-cases,
}
use sofinal_project.Log.Committing.{commit-cases}

-- The machine restarts once for each number in the list, and stops again after so many writes.
pub restarts : ℕ → ℕ → List ℕ → Log → Log
restarts start size [] l = l
restarts start size (p ∷ ps) l = restarts start size ps (initlog start size (reboot p l))

install_none : (l : Log) → install_loop 0 0 l ≡ l
unfolding install_loop
install_none l = refl

module _ (t : Transaction) where
  open t use {start, n, block, new, old}

  -- The machine after `initlog` has run `read_head`.
  abbrev loaded : ℕ → ℕ → Log → Log
  loaded size p l = read_head (record (reboot p l) { start = start; size = size })

  initlog-finish :
      (size p : ℕ) (l : Log) → initlog start size (reboot p l) ≡ finish t (loaded size p l)
  unfolding initlog recover_from_log install_trans
  initlog-finish size p l = refl

  -- An empty log stays empty, and the rest of the disk is left alone.
  initlog-empty :
      (size p : ℕ) (l : Log)
      → l.disk start 0 ≡ 0
      → ((initlog start size (reboot p l)).disk start 0 ≡ 0)
        × ((x : ℕ) → x ≢ start → (initlog start size (reboot p l)).disk x ≡ l.disk x)
  unfolding read_head
  initlog-empty size p l e =
      let cleared : Log = record (loaded size p l) { n = 0 } in
      let all : initlog start size (reboot p l) ≡ bwrite start (header cleared) cleared =
        initlog-finish size p l
        ∙ ap (λ k. write_head (record (install_loop k 0 (loaded size p l)) { n = 0 })) e
        ∙ ap (λ r. write_head (record r { n = 0 })) (install_none (loaded size p l))
        ∙ write_head-bwrite cleared in
      (
        ap (λ r. r.disk start 0) all ∙ elim (bwrite_self t start (header cleared) cleared) [
          | inl dead ↦
              ap (λ r. r.disk start 0) (bwrite-dead t start (header cleared) cleared dead) ∙ e
          | inr written ↦ ap (λ w. w 0) written.0 ∙ header-count cleared
        ],
        λ x ne. ap (λ r. r.disk x) all ∙ disk-bwrite_ne t start x (header cleared) cleared ne,
      )

  initlog-Before :
      (size p : ℕ) (l : Log) → Before t l.disk → Before t (initlog start size (reboot p l)).disk
  initlog-Before size p l b = record {
    empty = (initlog-empty size p l b.empty).0;
    same = λ x out. (initlog-empty size p l b.empty).1 x (λ e. out (omega arith)) ∙ b.same x out;
  }

  initlog-After :
      (size p : ℕ) (l : Log)
      → IsSound t
      → After t l.disk
      → After t (initlog start size (reboot p l)).disk
  initlog-After size p l sound a = record {
    empty = (initlog-empty size p l a.empty).0;
    installed = λ i lt.
        (initlog-empty size p l a.empty).1 (block i) (λ e. sound.home i lt (omega arith))
        ∙ a.installed i lt;
    same = λ x out not_home.
        (initlog-empty size p l a.empty).1 x (λ e. out (omega arith)) ∙ a.same x out not_home;
  }

  loaded-Installing : (size p : ℕ) (l : Log) → Committed t l.disk → Installing t 0 (loaded size p l)
  unfolding read_head
  loaded-Installing size p l c = record {
    for = record {
      start_eq = refl;
      n_eq = c.count;
      block_eq = λ i lt.
          load_entries-entry (l.disk start 0) (l.disk start) l.block i (omega (arith, c.count))
          ∙ c.entries i lt;
    };
    committed = c;
    clean = λ i lt. refl;
    done = inr (λ i lt. absurd (omega arith));
  }

  -- Recovery after a restart installs a committed transaction, or stops with it still committed, which
  -- it does not if the machine runs for more than `n` writes.
  pub initlog-Committed :
      (size p : ℕ) (l : Log)
      → IsSound t
      → Committed t l.disk
      → ((p ≤ n) × Committed t (initlog start size (reboot p l)).disk)
        ⊎ After t (initlog start size (reboot p l)).disk
  unfolding read_head
  initlog-Committed size p l sound c =
      subst (λ r. ((p ≤ n) × Committed t r.disk) ⊎ After t r.disk) (sym (initlog-finish size p l))
        (finish-cases t (loaded size p l) sound (loaded-Installing size p l c))

  -- What crashes can leave of a transaction that a commit has begun.
  abbrev Recoverable : (ℕ → Words) → Type 0
  Recoverable d = Before t d ⊎ (Committed t d ⊎ After t d)

  initlog-Recoverable :
      (size p : ℕ) (l : Log)
      → IsSound t
      → Recoverable l.disk
      → Recoverable (initlog start size (reboot p l)).disk
  initlog-Recoverable size p l sound (inl b) = inl (initlog-Before size p l b)
  initlog-Recoverable size p l sound (inr (inl c)) = elim (initlog-Committed size p l sound c) [
    | inl (few, c') ↦ inr (inl c')
    | inr a ↦ inr (inr a)
  ]
  initlog-Recoverable size p l sound (inr (inr a)) = inr (inr (initlog-After size p l sound a))

  restarts-Recoverable :
      (size : ℕ) (ps : List ℕ) (l : Log)
      → IsSound t
      → Recoverable l.disk
      → Recoverable (restarts start size ps l).disk
  unfolding restarts
  restarts-Recoverable size [] l sound r = r
  restarts-Recoverable size (p ∷ ps) l sound r =
      restarts-Recoverable size ps (initlog start size (reboot p l)) sound
        (initlog-Recoverable size p l sound r)

  restarts-After :
      (size : ℕ) (ps : List ℕ) (l : Log)
      → IsSound t
      → After t l.disk
      → After t (restarts start size ps l).disk
  unfolding restarts
  restarts-After size [] l sound a = a
  restarts-After size (p ∷ ps) l sound a =
      restarts-After size ps (initlog start size (reboot p l)) sound
        (initlog-After size p l sound a)

  initlog-settles :
      (size p : ℕ) (l : Log)
      → IsSound t
      → n < p
      → Recoverable l.disk
      → Before t (initlog start size (reboot p l)).disk
        ⊎ After t (initlog start size (reboot p l)).disk
  initlog-settles size p l sound lt (inl b) = inl (initlog-Before size p l b)
  initlog-settles size p l sound lt (inr (inl c)) = elim (initlog-Committed size p l sound c) [
    | inl (few, c') ↦ absurd (omega arith)
    | inr a ↦ inr a
  ]
  initlog-settles size p l sound lt (inr (inr a)) = inr (initlog-After size p l sound a)

  commit-Recoverable :
      (l : Log)
      → IsSound t
      → IsFor t l
      → Before t l.disk
      → ((i : ℕ) → i < n → bread (block i) l ≡ new i)
      → 0 < n
      → Recoverable (commit l).disk
  commit-Recoverable l sound f before reads some_entries =
      elim (commit-cases t l sound f before reads some_entries) [
        | inl (few, inl b) ↦ inl b
        | inl (few, inr c) ↦ inr (inl c)
        | inr a ↦ inr (inr a)
      ]

  -- A transaction is atomic: if the machine stops at any write of `commit`, and then at any write of
  -- any number of recoveries, the first recovery that carries out more than `n` writes leaves the
  -- disk with nothing of the transaction or with all of it, and the log empty.
  pub commit-atomic :
      (size p : ℕ) (ps : List ℕ) (l : Log)
      → IsSound t
      → IsFor t l
      → Before t l.disk
      → ((i : ℕ) → i < n → bread (block i) l ≡ new i)
      → 0 < n
      → n < p
      → Before t (initlog start size (reboot p (restarts start size ps (commit l)))).disk
        ⊎ After t (initlog start size (reboot p (restarts start size ps (commit l)))).disk
  commit-atomic size p ps l sound f before reads some_entries lt =
      initlog-settles size p (restarts start size ps (commit l)) sound lt (
        restarts-Recoverable size ps (commit l) sound
          (commit-Recoverable l sound f before reads some_entries))

  -- A transaction is durable: after a `commit` that carries out all its `2 * n + 2` writes, all of the
  -- transaction is on the disk, and any number of restarts, each stopped at any write,
  -- leaves it there.
  pub commit-durable :
      (size : ℕ) (ps : List ℕ) (l : Log)
      → IsSound t
      → IsFor t l
      → Before t l.disk
      → ((i : ℕ) → i < n → bread (block i) l ≡ new i)
      → 0 < n
      → 2 * n + 2 ≤ l.power
      → After t (restarts start size ps (commit l)).disk
  commit-durable size ps l sound f before reads some_entries enough =
      elim (commit-cases t l sound f before reads some_entries) [
        | inl (few, left) ↦ absurd (omega arith)
        | inr a ↦ restarts-After size ps (commit l) sound a
      ]
