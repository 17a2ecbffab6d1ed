-- ===== src/Log/Recovery.antt =====
-- The header block of the log, and the last steps of a commit, which are those of a recovery too.
use mathlib.Core.Path.{subst}
use sofinal_project.Prelude.{
  ℕ, zero, suc, ◌+◌, ◌-◌, ◌≤◌, ◌<◌, ◌≡◌, ◌⊎◌, refl, sym, ap, ◌∙◌, inl, inr, arith, ◌==◌, update,
  update_self, update_ne, Bool-cases,
}
use sofinal_project.Log.{
  Words, Log, bread, bwrite, install_loop, load_entries, store_entries, write_head, write_log_loop,
}
use sofinal_project.Log.Crash.{
  Transaction, IsSound, Committed, After, IsDead, bwrite-dead, Installing, disk-bwrite_ne,
  bwrite_self, install_loop-Installing,
}

store_entries-head : (k : ℕ) (block : ℕ → ℕ) (w : Words) → store_entries k block w 0 ≡ w 0
unfolding store_entries
store_entries-head zero block w = refl
store_entries-head (suc k) block w =
    update_ne (store_entries k block w) (suc k) 0 (block k) (omega arith)
    ∙ store_entries-head k block w

pub store_entries-entry :
    (k : ℕ) (block : ℕ → ℕ) (w : Words) (i : ℕ) → i < k → store_entries k block w (suc i) ≡ block i
unfolding store_entries
store_entries-entry zero block w i lt = absurd (omega arith)
store_entries-entry (suc k) block w i lt = elim (Bool-cases (i == k)) [
  | inl e ↦
      let same : i ≡ k = ground arith in
      rw same (update_self (store_entries k block w) (suc k) (block k))
  | inr ne ↦
      update_ne (store_entries k block w) (suc k) (suc i) (block k) (ground arith)
      ∙ store_entries-entry k block w i (ground arith)
]

pub load_entries-entry :
    (k : ℕ) (w : Words) (block : ℕ → ℕ) (i : ℕ) → i < k → load_entries k w block i ≡ w (suc i)
unfolding load_entries
load_entries-entry zero w block i lt = absurd (omega arith)
load_entries-entry (suc k) w block i lt = elim (Bool-cases (i == k)) [
  | inl e ↦
      let same : i ≡ k = ground arith in
      rw same (update_self (load_entries k w block) k (w (suc k)))
  | inr ne ↦
      update_ne (load_entries k w block) k i (w (suc k)) (ground arith)
      ∙ load_entries-entry k w block i (ground arith)
]

-- The header block that `write_head` writes.
abbrev pub header : Log → Words
header l = store_entries l.n l.block (update (bread l.start l) 0 l.n)

pub write_head-bwrite : (l : Log) → write_head l ≡ bwrite l.start (header l) l
unfolding write_head
write_head-bwrite l = refl

pub header-count : (l : Log) → header l 0 ≡ l.n
header-count l =
    store_entries-head l.n l.block (update (bread l.start l) 0 l.n)
    ∙ update_self (bread l.start l) 0 l.n

module _ (t : Transaction) where
  open t use {start, n, block, new, old}

  pub power-bwrite : (b : ℕ) (w : Words) (l : Log) → (bwrite b w l).power ≡ l.power - 1
  power-bwrite b w l = ground arith

  pub power-write_log_loop : (k m : ℕ) (l : Log) → (write_log_loop k m l).power ≡ l.power - k
  unfolding write_log_loop
  power-write_log_loop zero m l = omega arith
  power-write_log_loop (suc k) m l =
      power-write_log_loop k (suc m) (bwrite (l.start + m + 1) (bread (l.block m) l) l)
      ∙ (omega (arith, power-bwrite (l.start + m + 1) (bread (l.block m) l) l))

  power-install_loop : (k m : ℕ) (l : Log) → (install_loop k m l).power ≡ l.power - k
  unfolding install_loop
  power-install_loop zero m l = omega arith
  power-install_loop (suc k) m l =
      power-install_loop k (suc m) (bwrite (l.block m) (bread (l.start + m + 1) l) l)
      ∙ (omega (arith, power-bwrite (l.block m) (bread (l.start + m + 1) l) l))

  pub write_head-dead : (l : Log) → IsDead t l → write_head l ≡ l
  write_head-dead l dead = write_head-bwrite l ∙ bwrite-dead t l.start (header l) l dead

  install_loop-dead : (k m : ℕ) (l : Log) → IsDead t l → install_loop k m l ≡ l
  unfolding install_loop
  install_loop-dead zero m l dead = refl
  install_loop-dead (suc k) m l dead =
      ap (install_loop k (suc m)) (bwrite-dead t (l.block m) (bread (l.start + m + 1) l) l dead)
      ∙ install_loop-dead k (suc m) l dead

  -- The last steps of a commit and of a recovery: install the entries and clear the header.
  abbrev pub finish : Log → Log
  finish l = write_head (record (install_loop l.n 0 l) { n = 0 })

  pub finish-dead : (l : Log) → IsDead t l → (finish l).disk ≡ l.disk
  finish-dead l dead =
      let same : install_loop l.n 0 l ≡ l = install_loop-dead l.n 0 l dead in
      ap (λ r. (write_head (record r { n = 0 })).disk) same
      ∙ ap (λ r. r.disk) (write_head-dead (record l { n = 0 }) dead)

  clear_head :
      (l : Log)
      → IsSound t
      → Installing t n l
      → (IsDead t l × Committed t (write_head (record l { n = 0 })).disk)
        ⊎ After t (write_head (record l { n = 0 })).disk
  clear_head l sound g =
      let l0 : Log = record l { n = 0 } in
      let e : write_head l0 ≡ bwrite l.start (header l0) l0 = write_head-bwrite l0 in
      let place : l.start ≡ start = g.for.start_eq in
      elim (bwrite_self t l.start (header l0) l0) [
        | inl dead ↦ inl (
          dead,
          subst (λ d. Committed t d) (sym (ap (λ r. r.disk) (write_head-dead l0 dead))) g.committed,
        )
        | inr (written, clean) ↦ elim (g.done) [
          | inl dead ↦ inl (
            dead,
            subst (λ d. Committed t d) (sym (ap (λ r. r.disk) (write_head-dead l0 dead)))
                g.committed,
          )
          | inr all ↦ inr (
              subst (λ d. After t d) (sym (ap (λ r. r.disk) e))
                (record {
                  empty =
                      ap (λ s. (bwrite l.start (header l0) l0).disk s 0) (sym place)
                      ∙ ap (λ w. w 0) written
                      ∙ header-count l0;
                  installed = λ i lt.
                      disk-bwrite_ne t l.start (block i) (header l0) l0
                        (λ same. sound.home i lt (omega arith))
                      ∙ all i lt;
                  same = λ x out not_home.
                      disk-bwrite_ne t l.start x (header l0) l0 (λ same. out (omega arith))
                      ∙ g.committed.same x out not_home;
                }))
        ]
      ]

  pub finish-cases :
      (l : Log)
      → IsSound t
      → Installing t 0 l
      → ((l.power ≤ n) × Committed t (finish l).disk) ⊎ After t (finish l).disk
  finish-cases l sound g =
      let at_n : install_loop l.n 0 l ≡ install_loop n 0 l =
        ap (λ k. install_loop k 0 l) g.for.n_eq in
      let inst : Installing t n (install_loop n 0 l) =
        install_loop-Installing t n 0 l sound (omega arith) g in
      let same : (finish l).disk ≡ (write_head (record (install_loop n 0 l) { n = 0 })).disk =
        ap (λ r. (write_head (record r { n = 0 })).disk) at_n in
      elim (clear_head (install_loop n 0 l) sound inst) [
        | inl (dead, c) ↦
            inl (omega (arith, power-install_loop n 0 l), subst (λ d. Committed t d) (sym same) c)
        | inr a ↦ inr (subst (λ d. After t d) (sym same) a)
      ]
