-- ===== src/Log/Tests.antt =====
-- A transaction of two blocks, and operations that fill the log.
use sofinal_project.Prelude.{
  ℕ, zero, suc, ◌+◌, ◌≡◌, ◌<◌, ◌⊎◌, refl, true, false, none, some, [], ◌∷◌, arith, update,
}
use sofinal_project.Log.{
  Words, Log, bread, commit, initlog, reboot, admitted, begin_op, end_op, log_write, install_loop,
  store_entries, write_log_loop,
}
use sofinal_project.Log.Crash.{Transaction, IsSound, Before, After, IsFor}
use sofinal_project.Log.AllOrNothing.{restarts, commit-atomic, commit-durable}
use sofinal_project.Log.Reserve.{Run, booted, begins}
use sofinal_project.Log.Space.{Run-end_op}

abbrev zeros : Words
zeros i = 0

abbrev sevens : Words
sevens i = 7

-- Blocks 50 and 51 are to be filled with sevens. The log lies in blocks 2, 3 and 4.
abbrev transaction : Transaction
transaction = record { start = 2; n = 2; block = λ i. 50 + i; new = λ i. sevens; old = λ b. zeros }

abbrev written : ℕ → Log
written power = record {
  disk = λ b. zeros;
  dirty = update (update (λ b. none) 50 (some sevens)) 51 (some sevens);
  power = power;
  start = 2;
  size = 30;
  outstanding = 0;
  committing = true;
  n = 2;
  block = λ i. 50 + i;
}

transaction-IsSound : IsSound transaction
transaction-IsSound = record {
  home = λ i lt inside. omega (arith, inside.0, inside.1);
  distinct = λ i j a b e. omega arith;
}

written-IsFor : (power : ℕ) → IsFor transaction (written power)
written-IsFor power = record { start_eq = refl; n_eq = refl; block_eq = λ i lt. refl }

nothing_yet : Before transaction (λ b. zeros)
nothing_yet = record { empty = refl; same = λ x out. refl }

in_cache : (power i : ℕ) → i < 2 → bread (50 + i) (written power) ≡ sevens
in_cache power zero lt = refl
in_cache power (suc zero) lt = refl
in_cache power (suc (suc i)) lt = absurd (omega arith)

commit-atomic_example :
    Before transaction
      (initlog 2 30 (reboot 3 (restarts 2 30 (1 ∷ 0 ∷ []) (commit (written 4))))).disk
    ⊎ After transaction
        (initlog 2 30 (reboot 3 (restarts 2 30 (1 ∷ 0 ∷ []) (commit (written 4))))).disk
commit-atomic_example =
    commit-atomic transaction 30 3 (1 ∷ 0 ∷ []) (written 4) transaction-IsSound (written-IsFor 4)
      nothing_yet (in_cache 4) (omega arith) (omega arith)

commit-durable_example : After transaction (restarts 2 30 (1 ∷ 0 ∷ []) (commit (written 6))).disk
commit-durable_example =
    commit-durable transaction 30 (1 ∷ 0 ∷ []) (written 6) transaction-IsSound (written-IsFor 6)
      nothing_yet (in_cache 6) (omega arith) (omega arith)

-- Three writes put both contents and the header into the log, two do not.
stopped_after_header : (commit (written 3)).disk 2 0 ≡ 2
unfolding commit install_loop store_entries write_log_loop
stopped_after_header = refl

stopped_before_header : (commit (written 2)).disk 2 0 ≡ 0
unfolding commit install_loop store_entries write_log_loop
stopped_before_header = refl

abbrev idle : ℕ → Log
idle size = record {
  disk = λ b. zeros;
  dirty = λ b. none;
  power = 100;
  start = 2;
  size = size;
  outstanding = 0;
  committing = false;
  n = 0;
  block = λ i. 0;
}

abbrev entered : Log
entered = record (idle 30) { outstanding = 1 }

enters : begin_op (idle 30) ≡ (admitted, entered)
unfolding begin_op
enters = refl

one_begun : Run 30 (10 ∷ []) entered
one_begun = begins [] (idle 30) entered (booted (idle 30) refl refl refl refl) enters

Run-end_op_example :
    (l' : Log) × (end_op entered ≡ some l')
    × (l'.committing ≡ false)
    × (entered.outstanding ≡ 1 → l'.n ≡ 0)
Run-end_op_example = Run-end_op 30 [] [] 10 entered one_begun

-- With a log area of LOGSIZE blocks the thirtieth block of a transaction is a panic, though `begin_op`
-- has admitted the three operations that write ten blocks each.
third_admitted :
    begin_op (record (idle 30) { outstanding = 2; n = 0 })
    ≡ (admitted, record (idle 30) { outstanding = 3; n = 0 })
unfolding begin_op
third_admitted = refl

thirtieth_panics :
    log_write 80 sevens (record (idle 30) { outstanding = 3; n = 29; block = λ i. 50 + i }) ≡ none
unfolding log_write
thirtieth_panics = refl
