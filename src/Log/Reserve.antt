-- ===== src/Log/Reserve.antt =====
-- The log space that `begin_op` reserves: no system call that keeps to MAXOPBLOCKS overflows the log.
use sofinal_project.Prelude.{
  ℕ, zero, suc, ◌+◌, ◌*◌, ◌≤◌, ◌≡◌, refl, ap, ◌∙◌, inl, inr, false, some, arith, ltb, List, [], ◌∷◌,
  ◌++◌, ◌==◌, update, Bool-cases,
}
use sofinal_project.Log.{
  Words, Log, max_op_blocks, bread, bwrite, install_loop, install_trans, store_entries, write_head,
  write_log_loop, write_log, commit, admitted, begin_op, end_op, log_write,
}

-- The operations that are going on, each with the number of blocks it may still write.
abbrev pub Budgets : Type 0
Budgets = List ℕ

-- The log from the end of `initlog` on, as operations begin, write and end.
pub data Run (size : ℕ) : Budgets → Log → Type 0 where
  booted :
      (l : Log) → l.n ≡ 0 → l.outstanding ≡ 0 → l.committing ≡ false → l.size ≡ size → Run size [] l
  begins :
      (bs : Budgets) (l l' : Log)
      → Run size bs l
      → begin_op l ≡ (admitted, l')
      → Run size (max_op_blocks ∷ bs) l'
  writes :
      (bs cs : Budgets) (k b : ℕ) (w : Words) (l l' : Log)
      → Run size (bs ++ (suc k ∷ cs)) l
      → log_write b w l ≡ some l'
      → Run size (bs ++ (k ∷ cs)) l'
  ends :
      (bs cs : Budgets) (k : ℕ) (l l' : Log)
      → Run size (bs ++ (k ∷ cs)) l
      → end_op l ≡ some l'
      → Run size (bs ++ cs) l'

unfoldable pub total : Budgets → ℕ
total [] = 0
total (b ∷ bs) = b + total bs

unfoldable pub ongoing : Budgets → ℕ
ongoing [] = 0
ongoing (b ∷ bs) = suc (ongoing bs)

-- What the budgets amount to if an operation's is `k` among `bs` and `cs`.
pub total_middle : (bs cs : Budgets) (k : ℕ) → total (bs ++ (k ∷ cs)) ≡ k + total (bs ++ cs)
unfolding total
total_middle [] cs k = refl
total_middle (b ∷ bs) cs k = omega (arith, total_middle bs cs k)

pub ongoing_middle : (bs cs : Budgets) (k : ℕ) → ongoing (bs ++ (k ∷ cs)) ≡ suc (ongoing (bs ++ cs))
unfolding ongoing
ongoing_middle [] cs k = refl
ongoing_middle (b ∷ bs) cs k = ap suc (ongoing_middle bs cs k)

-- Every budget is at most MAXOPBLOCKS.
unfoldable pub IsFair : Budgets → Type 0
IsFair [] = Unit
IsFair (b ∷ bs) = (b ≤ 10) × IsFair bs

pub total-IsFair : (bs : Budgets) → IsFair bs → total bs ≤ ongoing bs * 10
unfolding total ongoing IsFair
total-IsFair [] f = omega arith
total-IsFair (b ∷ bs) f = omega (arith, f.0, total-IsFair bs f.1)

pub IsFair-less : (bs cs : Budgets) (k : ℕ) → IsFair (bs ++ (suc k ∷ cs)) → IsFair (bs ++ (k ∷ cs))
unfolding IsFair
IsFair-less [] cs k f = (omega (arith, f.0), f.1)
IsFair-less (b ∷ bs) cs k f = (f.0, IsFair-less bs cs k f.1)

pub IsFair-drop : (bs cs : Budgets) (k : ℕ) → IsFair (bs ++ (k ∷ cs)) → IsFair (bs ++ cs)
unfolding IsFair
IsFair-drop [] cs k f = f.1
IsFair-drop (b ∷ bs) cs k f = (f.0, IsFair-drop bs cs k f.1)

-- What a disk write leaves of the log.
record SameCounts (l l' : Log) : Type 0 where
  n_eq : l'.n ≡ l.n
  size_eq : l'.size ≡ l.size
  outstanding_eq : l'.outstanding ≡ l.outstanding

bwrite-SameCounts : (b : ℕ) (w : Words) (l : Log) → SameCounts l (bwrite b w l)
bwrite-SameCounts b w l = elim (Bool-cases (l.power == 0)) [
  | inl dead ↦ rw dead (record { n_eq = refl; size_eq = refl; outstanding_eq = refl })
  | inr live ↦ rw live (record { n_eq = refl; size_eq = refl; outstanding_eq = refl })
]

SameCounts-trans : (k l m : Log) → SameCounts k l → SameCounts l m → SameCounts k m
SameCounts-trans k l m s r = record {
  n_eq = r.n_eq ∙ s.n_eq;
  size_eq = r.size_eq ∙ s.size_eq;
  outstanding_eq = r.outstanding_eq ∙ s.outstanding_eq;
}

install_loop-SameCounts : (k i : ℕ) (l : Log) → SameCounts l (install_loop k i l)
unfolding install_loop
install_loop-SameCounts zero i l = record { n_eq = refl; size_eq = refl; outstanding_eq = refl }
install_loop-SameCounts (suc k) i l =
    let l' : Log = bwrite (l.block i) (bread (l.start + i + 1) l) l in
    SameCounts-trans l l' (install_loop k (suc i) l')
      (bwrite-SameCounts (l.block i) (bread (l.start + i + 1) l) l)
      (install_loop-SameCounts k (suc i) l')

write_log_loop-SameCounts : (k i : ℕ) (l : Log) → SameCounts l (write_log_loop k i l)
unfolding write_log_loop
write_log_loop-SameCounts zero i l = record { n_eq = refl; size_eq = refl; outstanding_eq = refl }
write_log_loop-SameCounts (suc k) i l =
    let l' : Log = bwrite (l.start + i + 1) (bread (l.block i) l) l in
    SameCounts-trans l l' (write_log_loop k (suc i) l')
      (bwrite-SameCounts (l.start + i + 1) (bread (l.block i) l) l)
      (write_log_loop-SameCounts k (suc i) l')

write_head-SameCounts : (l : Log) → SameCounts l (write_head l)
unfolding write_head
write_head-SameCounts l =
    bwrite-SameCounts l.start (store_entries l.n l.block (update (bread l.start l) 0 l.n)) l

-- A commit empties the log in memory and changes nothing else that `begin_op` looks at.
pub commit_counts :
    (l : Log)
    → ((commit l).n ≡ 0) × ((commit l).size ≡ l.size) × ((commit l).outstanding ≡ l.outstanding)
unfolding commit write_log install_trans
commit_counts l = elim (Bool-cases (ltb 0 l.n)) [
  | inl some_entries ↦
      let l1 : Log = write_log_loop l.n 0 l in
      let l2 : Log = write_head l1 in
      let l3 : Log = install_loop l2.n 0 l2 in
      let a : SameCounts l l1 = write_log_loop-SameCounts l.n 0 l in
      let b : SameCounts l1 l2 = write_head-SameCounts l1 in
      let c : SameCounts l2 l3 = install_loop-SameCounts l2.n 0 l2 in
      let d : SameCounts (record l3 { n = 0 }) (write_head (record l3 { n = 0 })) =
        write_head-SameCounts (record l3 { n = 0 }) in
      rw some_entries (
        d.n_eq,
        d.size_eq ∙ c.size_eq ∙ b.size_eq ∙ a.size_eq,
        d.outstanding_eq ∙ c.outstanding_eq ∙ b.outstanding_eq ∙ a.outstanding_eq,
      )
  | inr empty ↦ rw empty (ground arith, refl, refl)
]
