-- ===== src/Log/Space.antt =====
-- The invariant of the log's space, and that no operation panics within its budget.
use mathlib.Core.Path.{subst}
use sofinal_project.Prelude.{
  ℕ, suc, ◌+◌, ◌-◌, ◌*◌, ◌≤◌, ◌≡◌, ◌⊎◌, refl, sym, ap, ◌∙◌, inl, inr, true, false, Option, none,
  some, arith, ltb, leb, ◌∷◌, ◌++◌, ◌==◌, ◌||◌, if◌then◌else◌, update, Bool-cases,
}
use sofinal_project.Log.{
  Words, Log, max_op_blocks, commit, admitted, waits, begin_op, leave_op, end_op, find_entry,
  log_write,
}
use sofinal_project.Log.Reserve.{
  Budgets, Run, booted, begins, writes, ends, total, ongoing, total_middle, ongoing_middle, IsFair,
  total-IsFair, IsFair-less, IsFair-drop, commit_counts,
}

-- The entries in use and the budgets fit in the log.
record HasSpace (size : ℕ) (bs : Budgets) (l : Log) : Type 0 where
  fits : l.n + total bs ≤ 30
  fair : IsFair bs
  counted : l.outstanding ≡ ongoing bs
  idle : l.committing ≡ false
  size_eq : l.size ≡ size

begin_op-HasSpace :
    (size : ℕ) (bs : Budgets) (l : Log)
    → HasSpace size bs l
    → (begin_op l ≡ (waits, l))
      ⊎ ((begin_op l ≡ (admitted, record l { outstanding = l.outstanding + 1 }))
          × HasSpace size (max_op_blocks ∷ bs) (record l { outstanding = l.outstanding + 1 }))
unfolding begin_op total ongoing IsFair
begin_op-HasSpace size bs l h = elim (Bool-cases (ltb 30 (l.n + (l.outstanding + 1) * 10))) [
  | inl full ↦ inl (rw (h.idle, full) refl)
  | inr room ↦
      let small : total bs ≤ ongoing bs * 10 = total-IsFair bs h.fair in
      inr (
        rw (h.idle, room) refl,
        record {
          fits = ground (arith, h.counted);
          fair = (omega arith, h.fair);
          counted = omega (arith, h.counted);
          idle = h.idle;
          size_eq = h.size_eq;
        },
      )
]

-- The log after `log_write`.
abbrev logged : ℕ → Words → Log → Log
logged b w l = record l {
  block = update l.block (find_entry l.n 0 b l.block) b;
  n = if find_entry l.n 0 b l.block == l.n then l.n + 1 else l.n;
  dirty = update l.dirty b (some w);
}

-- `log_write` by an operation with `suc k` blocks left, where it does not panic.
log_write-passes :
    (k b : ℕ) (w : Words) (l : Log) (bs cs : Budgets) (size : ℕ)
    → HasSpace size (bs ++ (suc k ∷ cs)) l
    → leb (l.size - 1) l.n ≡ false
    → log_write b w l ≡ some (logged b w l)
unfolding log_write
log_write-passes k b w l bs cs size h room =
    let t : total (bs ++ (suc k ∷ cs)) ≡ suc k + total (bs ++ cs) = total_middle bs cs (suc k) in
    let o : ongoing (bs ++ (suc k ∷ cs)) ≡ suc (ongoing (bs ++ cs)) =
      ongoing_middle bs cs (suc k) in
    let fits : l.n + suc k + total (bs ++ cs) ≤ 30 = omega (arith, h.fits) in
    let below : leb 30 l.n ≡ false = ground arith in
    let inside : ltb l.outstanding 1 ≡ false = ground (arith, h.counted) in
    rw (log_write, below, room, inside) refl

-- Where the area has no block left it panics.
log_write-full :
    (b : ℕ) (w : Words) (l : Log) → leb (l.size - 1) l.n ≡ true → log_write b w l ≡ none
unfolding log_write
log_write-full b w l full =
    let refused : leb 30 l.n || leb (l.size - 1) l.n ≡ true = ground (arith, full) in
    rw (log_write, refused) refl

logged-HasSpace :
    (size : ℕ) (bs cs : Budgets) (k b : ℕ) (w : Words) (l : Log)
    → HasSpace size (bs ++ (suc k ∷ cs)) l
    → HasSpace size (bs ++ (k ∷ cs)) (logged b w l)
logged-HasSpace size bs cs k b w l h =
    let t : total (bs ++ (suc k ∷ cs)) ≡ suc k + total (bs ++ cs) = total_middle bs cs (suc k) in
    let t' : total (bs ++ (k ∷ cs)) ≡ k + total (bs ++ cs) = total_middle bs cs k in
    let o : ongoing (bs ++ (suc k ∷ cs)) ≡ suc (ongoing (bs ++ cs)) =
      ongoing_middle bs cs (suc k) in
    let o' : ongoing (bs ++ (k ∷ cs)) ≡ suc (ongoing (bs ++ cs)) = ongoing_middle bs cs k in
    let fits : l.n + suc k + total (bs ++ cs) ≤ 30 = omega (arith, h.fits) in
    record {
      fits = ground arith;
      fair = IsFair-less bs cs k h.fair;
      counted = omega (arith, h.counted);
      idle = h.idle;
      size_eq = h.size_eq;
    }

leave_op-last :
    (l : Log)
    → l.committing ≡ false
    → l.outstanding ≡ 1
    → leave_op l ≡ some (true, record l { outstanding = l.outstanding - 1; committing = true })
unfolding leave_op
leave_op-last l idle last = simp (idle, last) refl

leave_op-more :
    (l : Log)
    → l.committing ≡ false
    → (l.outstanding == 1) ≡ false
    → leave_op l ≡ some (false, record l { outstanding = l.outstanding - 1 })
unfolding leave_op
leave_op-more l idle more = simp (idle, more) refl

end_op-HasSpace :
    (size : ℕ) (bs cs : Budgets) (k : ℕ) (l : Log)
    → HasSpace size (bs ++ (k ∷ cs)) l
    → (l' : Log) × (end_op l ≡ some l')
      × HasSpace size (bs ++ cs) l'
      × (l.outstanding ≡ 1 → l'.n ≡ 0)
unfolding end_op
end_op-HasSpace size bs cs k l h =
    let t : total (bs ++ (k ∷ cs)) ≡ k + total (bs ++ cs) = total_middle bs cs k in
    let o : ongoing (bs ++ (k ∷ cs)) ≡ suc (ongoing (bs ++ cs)) = ongoing_middle bs cs k in
    let fair : IsFair (bs ++ cs) = IsFair-drop bs cs k h.fair in
    let leaving : Log = record l { outstanding = l.outstanding - 1; committing = true } in
    elim (Bool-cases (l.outstanding == 1)) [
      | inl last ↦
          let e : l.outstanding ≡ 1 = ground arith in
          let (empty, size_same, outstanding_same) = commit_counts leaving in
          let small : total (bs ++ cs) ≤ ongoing (bs ++ cs) * 10 = total-IsFair (bs ++ cs) fair in
          (
            record (commit leaving) { committing = false },
            rw (leave_op-last l h.idle e, end_op) refl,
            record {
              fits = omega (arith, h.counted);
              fair = fair;
              counted = outstanding_same ∙ omega (arith, h.counted);
              idle = refl;
              size_eq = size_same ∙ h.size_eq;
            },
            λ only. empty,
          )
      | inr more ↦ (
        record l { outstanding = l.outstanding - 1 },
        rw (leave_op-more l h.idle more, end_op) refl,
        record {
          fits = omega (arith, h.fits);
          fair = fair;
          counted = omega (arith, h.counted);
          idle = h.idle;
          size_eq = h.size_eq;
        },
        λ only. absurd (ground arith),
      )
    ]

abbrev some_or : Log → Option Log → Log
some_or l none = l
some_or l (some m) = m

Run-HasSpace : (size : ℕ) (bs : Budgets) (l : Log) → Run size bs l → HasSpace size bs l
unfolding total ongoing IsFair
Run-HasSpace size bs l (booted _ empty idle ready size_eq) = record {
  fits = omega (arith, empty);
  fair = tt;
  counted = idle;
  idle = ready;
  size_eq = size_eq;
}
Run-HasSpace size bs l' (begins bs' l _ r e) =
    elim (begin_op-HasSpace size bs' l (Run-HasSpace size bs' l r)) [
      | inl sleeps ↦
          let clash : waits ≡ admitted = ap (λ s. s.0) (sym sleeps ∙ e) in absurd (ground arith)
      | inr (enters, h) ↦
          subst (HasSpace size (max_op_blocks ∷ bs')) (ap (λ s. s.1) (sym enters ∙ e)) h
    ]
Run-HasSpace size bs l' (writes bs' cs k b w l _ r e) =
    let h = Run-HasSpace size (bs' ++ (suc k ∷ cs)) l r in
    elim (Bool-cases (leb (l.size - 1) l.n)) [
      | inl full ↦ absurd (ground (arith, log_write-full b w l full, e))
      | inr room ↦
          subst (HasSpace size (bs' ++ (k ∷ cs)))
            (ap (some_or l) (sym (log_write-passes k b w l bs' cs size h room) ∙ e))
            (logged-HasSpace size bs' cs k b w l h)
    ]
Run-HasSpace size bs l' (ends bs' cs k l _ r e) =
    let (after, passes, h, cleared) =
      end_op-HasSpace size bs' cs k l (Run-HasSpace size (bs' ++ (k ∷ cs)) l r) in
    subst (HasSpace size (bs' ++ cs)) (ap (some_or l) (sym passes ∙ e)) h

-- In a log area of any size, once the log has been recovered and whatever operations have begun, written and ended
-- since: an operation that is going on can end without a panic, and when it is the last one the log is
-- empty afterwards.
pub Run-end_op :
    (size : ℕ) (bs cs : Budgets) (k : ℕ) (l : Log)
    → Run size (bs ++ (k ∷ cs)) l
    → (l' : Log) × (end_op l ≡ some l') × (l'.committing ≡ false) × (l.outstanding ≡ 1 → l'.n ≡ 0)
Run-end_op size bs cs k l r =
    let (l', passes, h, cleared) =
      end_op-HasSpace size bs cs k l (Run-HasSpace size (bs ++ (k ∷ cs)) l r) in
    (l', passes, h.idle, cleared)
