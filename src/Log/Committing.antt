-- ===== src/Log/Committing.antt =====
-- What `commit` leaves on the disk, whichever of its writes the machine stops at.
use mathlib.Core.Path.{subst}
use sofinal_project.Prelude.{
  ℕ, suc, ◌+◌, ◌*◌, ◌≤◌, ◌<◌, ◌≡◌, ◌⊎◌, sym, ap, ◌∙◌, inl, inr, none, arith, lt→ltb, update,
}
use sofinal_project.Log.{
  Words, Log, bread, bwrite, install_trans, write_head, write_log_loop, write_log, commit,
}
use sofinal_project.Log.Crash.{
  Transaction, IsSound, Before, Committed, After, IsDead, IsFor, bwrite-IsFor, Logging, Installing,
  disk-bwrite_ne, dirty-bwrite_ne, bwrite_self, write_log_loop-Logging,
}
use sofinal_project.Log.Recovery.{
  store_entries-entry, header, write_head-bwrite, header-count, power-bwrite, power-write_log_loop,
  write_head-dead, finish, finish-dead, finish-cases,
}

module _ (t : Transaction) where
  open t use {start, n, block, new, old}

  committed_head :
      (l : Log)
      → IsSound t
      → Logging t n l
      → ((i : ℕ) → i < n → (l.disk (start + i + 1) ≡ new i) × (l.dirty (start + i + 1) ≡ none))
      → (bwrite start (header l) l).disk start ≡ header l
      → Installing t 0 (bwrite start (header l) l)
  committed_head l sound g all written = record {
    for = bwrite-IsFor t start (header l) l g.for;
    committed = record {
      count = ap (λ w. w 0) written ∙ header-count l ∙ g.for.n_eq;
      entries = λ i lt.
          ap (λ w. w (suc i)) written
          ∙ store_entries-entry l.n l.block (update (bread l.start l) 0 l.n) i
              (omega (arith, g.for.n_eq))
          ∙ g.for.block_eq i lt;
      logged =
          λ i lt. disk-bwrite_ne t start (start + i + 1) (header l) l (omega arith) ∙ (all i lt).0;
      same = λ x out not_home.
          disk-bwrite_ne t start x (header l) l (λ e. out (omega arith)) ∙ g.before.same x out;
    };
    clean =
        λ i lt. dirty-bwrite_ne t start (start + i + 1) (header l) l (omega arith) ∙ (all i lt).1;
    done = inr (λ i lt. absurd (omega arith));
  }

  -- From the end of `write_log` on.
  abbrev Crashed : ℕ → (ℕ → Words) → Type 0
  Crashed power d = ((power ≤ n + 1) × (Before t d ⊎ Committed t d)) ⊎ After t d

  finish-write_head-Crashed :
      (l : Log) → IsSound t → Logging t n l → Crashed l.power (finish t (write_head l)).disk
  finish-write_head-Crashed l sound g = elim (g.done) [
    | inl dead ↦ stopped dead
    | inr all ↦ elim (bwrite_self t start (header l) l) [
      | inl dead ↦ stopped dead
      | inr (written, clean) ↦
          elim (finish-cases t (bwrite start (header l) l) sound
            (committed_head l sound g all written)) [
              | inl (few, c) ↦ inl (
                omega (arith, power-bwrite t start (header l) l),
                inr (subst (λ r. Committed t (finish t r).disk) (sym head) c),
              )
              | inr a ↦ inr (subst (λ r. After t (finish t r).disk) (sym head) a)
            ]
    ]
  ]
    where
      head : write_head l ≡ bwrite start (header l) l
      head = write_head-bwrite l ∙ ap (λ s. bwrite s (header l) l) g.for.start_eq

      stopped : IsDead t l → Crashed l.power (finish t (write_head l)).disk
      stopped dead = inl (
        omega arith,
        inl (
            subst (λ d. Before t d)
              (sym (ap (λ r. (finish t r).disk) (write_head-dead t l dead) ∙ finish-dead t l dead))
              g.before),
      )

  commit-finish :
      (l : Log) → IsFor t l → 0 < n → commit l ≡ finish t (write_head (write_log_loop n 0 l))
  unfolding commit write_log install_trans
  commit-finish l f some_entries =
      rw (lt→ltb 0 l.n (omega (arith, f.n_eq)))
        (ap (λ k. finish t (write_head (write_log_loop k 0 l))) f.n_eq)

  -- With the home blocks' new contents in the buffer cache, `commit` leaves the disk as before, or
  -- with the transaction in the log, or with all of it installed. The last is the case if
  -- the machine runs for `2 * n + 2` writes.
  pub commit-cases :
      (l : Log)
      → IsSound t
      → IsFor t l
      → Before t l.disk
      → ((i : ℕ) → i < n → bread (block i) l ≡ new i)
      → 0 < n
      → ((l.power < 2 * n + 2) × (Before t (commit l).disk ⊎ Committed t (commit l).disk))
        ⊎ After t (commit l).disk
  commit-cases l sound f before reads some_entries =
      elim (finish-write_head-Crashed (write_log_loop n 0 l) sound (
        write_log_loop-Logging t n 0 l sound (omega arith) (record {
          for = f;
          before = before;
          reads = reads;
          done = inr (λ i lt. absurd (omega arith));
        }))) [
          | inl (few, inl b) ↦ inl (
            omega (arith, power-write_log_loop t n 0 l),
            inl (subst (λ r. Before t r.disk) (sym whole) b),
          )
          | inl (few, inr c) ↦ inl (
            omega (arith, power-write_log_loop t n 0 l),
            inr (subst (λ r. Committed t r.disk) (sym whole) c),
          )
          | inr a ↦ inr (subst (λ r. After t r.disk) (sym whole) a)
        ]
    where
      whole : commit l ≡ finish t (write_head (write_log_loop n 0 l))
      whole = commit-finish l f some_entries
