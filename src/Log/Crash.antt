-- ===== src/Log/Crash.antt =====
-- The states of the disk between the start and the end of a commit.
use sofinal_project.Prelude.{
  ℕ, zero, suc, ◌+◌, ◌≤◌, ◌<◌, ◌≡◌, ◌≢◌, ◌⊎◌, refl, ap, ◌∙◌, inl, inr, none, arith, ◌==◌,
  update_self, update_ne, Bool-cases,
}
use mathlib.Core.Path.{ap₂, subst}
use sofinal_project.Log.{Words, Log, cached_or, bread, bwrite, install_loop, write_log_loop}

-- A transaction: `n` entries with their home blocks, the contents to be written there, the log's
-- place, and the disk before.
pub record Transaction : Type 0 where
  pub start : ℕ
  pub n : ℕ
  pub block : ℕ → ℕ
  pub new : ℕ → Words
  pub old : ℕ → Words

module _ (t : Transaction) where
  open t use {start, n, block, new, old}

  -- A block of the log: its header or one of the entries used.
  abbrev pub InLog : ℕ → Type 0
  InLog x = (start ≤ x) × (x ≤ start + n)

  -- Home blocks lie outside the log, and each has one entry.
  pub record IsSound : Type 0 where
    pub home : (i : ℕ) → i < n → ¬ (InLog (block i))
    pub distinct : (i j : ℕ) → i < n → j < n → block i ≡ block j → i ≡ j

  -- The header is empty, and outside the log the disk is as before.
  pub record Before (d : ℕ → Words) : Type 0 where
    pub empty : d start 0 ≡ 0
    pub same : (x : ℕ) → ¬ (InLog x) → d x ≡ old x

  -- The header names the home blocks, the log holds their new contents, and all other blocks outside
  -- the log are as before. The home blocks may hold anything.
  pub record Committed (d : ℕ → Words) : Type 0 where
    pub count : d start 0 ≡ n
    pub entries : (i : ℕ) → i < n → d start (suc i) ≡ block i
    pub logged : (i : ℕ) → i < n → d (start + i + 1) ≡ new i
    pub same : (x : ℕ) → ¬ (InLog x) → ((i : ℕ) → i < n → x ≢ block i) → d x ≡ old x

  -- The header is empty, the home blocks hold their new contents, and all other blocks outside the
  -- log are as before.
  pub record After (d : ℕ → Words) : Type 0 where
    pub empty : d start 0 ≡ 0
    pub installed : (i : ℕ) → i < n → d (block i) ≡ new i
    pub same : (x : ℕ) → ¬ (InLog x) → ((i : ℕ) → i < n → x ≢ block i) → d x ≡ old x

  -- Once the power has run out a write does nothing.
  abbrev pub IsDead : Log → Type 0
  IsDead l = l.power ≡ 0

  pub bwrite-dead : (b : ℕ) (w : Words) (l : Log) → IsDead l → bwrite b w l ≡ l
  bwrite-dead b w l dead = rw dead refl

  -- The log in memory is that of the transaction.
  pub record IsFor (l : Log) : Type 0 where
    pub start_eq : l.start ≡ start
    pub n_eq : l.n ≡ n
    pub block_eq : (i : ℕ) → i < n → l.block i ≡ block i

  pub bwrite-IsFor : (b : ℕ) (w : Words) (l : Log) → IsFor l → IsFor (bwrite b w l)
  bwrite-IsFor b w l f = elim (Bool-cases (l.power == 0)) [
    | inl dead ↦ rw dead f
    | inr live ↦ rw live (record { start_eq = f.start_eq; n_eq = f.n_eq; block_eq = f.block_eq })
  ]

  -- After `m` rounds of `write_log`: still the state before, with the first `m` contents in the log
  -- unless the power has run out.
  pub record Logging (m : ℕ) (l : Log) : Type 0 where
    pub for : IsFor l
    pub before : Before l.disk
    pub reads : (i : ℕ) → i < n → bread (block i) l ≡ new i
    pub done :
        IsDead l
        ⊎ ((i : ℕ) → i < m → (l.disk (start + i + 1) ≡ new i) × (l.dirty (start + i + 1) ≡ none))

  pub disk-bwrite_ne : (b x : ℕ) (w : Words) (l : Log) → x ≢ b → (bwrite b w l).disk x ≡ l.disk x
  disk-bwrite_ne b x w l ne = elim (Bool-cases (l.power == 0)) [
    | inl dead ↦ rw dead refl
    | inr live ↦ rw live (update_ne l.disk b x w ne)
  ]

  pub dirty-bwrite_ne : (b x : ℕ) (w : Words) (l : Log) → x ≢ b → (bwrite b w l).dirty x ≡ l.dirty x
  dirty-bwrite_ne b x w l ne = elim (Bool-cases (l.power == 0)) [
    | inl dead ↦ rw dead refl
    | inr live ↦ rw live (update_ne l.dirty b x none ne)
  ]

  -- What a write at another block leaves readable.
  pub bread-bwrite_ne : (b x : ℕ) (w : Words) (l : Log) → x ≢ b → bread x (bwrite b w l) ≡ bread x l
  bread-bwrite_ne b x w l ne =
      ap₂ cached_or (dirty-bwrite_ne b x w l ne) (disk-bwrite_ne b x w l ne)

  pub bwrite_self :
      (b : ℕ) (w : Words) (l : Log)
      → IsDead l ⊎ (((bwrite b w l).disk b ≡ w) × ((bwrite b w l).dirty b ≡ none))
  bwrite_self b w l = elim (Bool-cases (l.power == 0)) [
    | inl dead ↦ inl (ground arith)
    | inr live ↦ inr (rw live (update_self l.disk b w, update_self l.dirty b none))
  ]

  Logging-step :
      (m : ℕ) (l : Log)
      → IsSound
      → m < n
      → Logging m l
      → Logging (suc m) (bwrite (start + m + 1) (new m) l)
  Logging-step m l sound lt g = record {
    for = bwrite-IsFor (start + m + 1) (new m) l g.for;
    before = record {
      empty =
          ap (λ w. w 0) (disk-bwrite_ne (start + m + 1) start (new m) l (omega arith))
          ∙ g.before.empty;
      same = λ x out.
          disk-bwrite_ne (start + m + 1) x (new m) l (λ e. out (omega arith)) ∙ g.before.same x out;
    };
    reads = λ i i_lt.
        bread-bwrite_ne (start + m + 1) (block i) (new m) l (λ e. sound.home i i_lt (omega arith))
        ∙ g.reads i i_lt;
    done = elim (g.done) [
      | inl dead ↦ inl (ap (λ r. r.power) (bwrite-dead (start + m + 1) (new m) l dead) ∙ dead)
      | inr all ↦ elim (bwrite_self (start + m + 1) (new m) l) [
        | inl dead ↦ inl (ap (λ r. r.power) (bwrite-dead (start + m + 1) (new m) l dead) ∙ dead)
        | inr written ↦ inr (λ i i_lt. elim (Bool-cases (i == m)) [
          | inl e ↦ let same : i ≡ m = ground arith in rw same written
          | inr ne ↦ (
            disk-bwrite_ne (start + m + 1) (start + i + 1) (new m) l (ground arith)
                ∙ (all i (ground arith)).0,
            dirty-bwrite_ne (start + m + 1) (start + i + 1) (new m) l (ground arith)
                ∙ (all i (ground arith)).1,
          )
        ])
      ]
    ];
  }

  pub write_log_loop-Logging :
      (k m : ℕ) (l : Log) → IsSound → m + k ≡ n → Logging m l → Logging n (write_log_loop k m l)
  unfolding write_log_loop
  write_log_loop-Logging zero m l sound e g =
      let all : m ≡ n = omega arith in subst (λ j. Logging j l) all g
  write_log_loop-Logging (suc k) m l sound e g =
      let place : l.start + m + 1 ≡ start + m + 1 = ap (λ s. s + m + 1) g.for.start_eq in
      let what : bread (l.block m) l ≡ new m =
        ap (λ b. bread b l) (g.for.block_eq m (omega arith)) ∙ g.reads m (omega arith) in
      let next : Logging (suc m) (bwrite (l.start + m + 1) (bread (l.block m) l) l) =
        rw (place, what) (Logging-step m l sound (omega arith) g) in
      write_log_loop-Logging k (suc m) (bwrite (l.start + m + 1) (bread (l.block m) l) l) sound
        (omega arith) next

  -- After `m` rounds of `install_trans`: the transaction is committed, the log's entries are clean,
  -- and the first `m` home blocks are written unless the power has run out.
  pub record Installing (m : ℕ) (l : Log) : Type 0 where
    pub for : IsFor l
    pub committed : Committed l.disk
    pub clean : (i : ℕ) → i < n → l.dirty (start + i + 1) ≡ none
    pub done : IsDead l ⊎ ((i : ℕ) → i < m → l.disk (block i) ≡ new i)

  Installing-step :
      (m : ℕ) (l : Log)
      → IsSound
      → m < n
      → Installing m l
      → Installing (suc m) (bwrite (block m) (new m) l)
  Installing-step m l sound lt g = record {
    for = bwrite-IsFor (block m) (new m) l g.for;
    committed = record {
      count =
          ap (λ w. w 0) (disk-bwrite_ne (block m) start (new m) l (apart start (omega arith)))
          ∙ g.committed.count;
      entries = λ i i_lt.
          ap (λ w. w (suc i)) (disk-bwrite_ne (block m) start (new m) l (apart start (omega arith)))
          ∙ g.committed.entries i i_lt;
      logged = λ i i_lt.
          disk-bwrite_ne (block m) (start + i + 1) (new m) l (apart (start + i + 1) (omega arith))
          ∙ g.committed.logged i i_lt;
      same = λ x out not_home.
          disk-bwrite_ne (block m) x (new m) l (not_home m lt) ∙ g.committed.same x out not_home;
    };
    clean = λ i i_lt.
        dirty-bwrite_ne (block m) (start + i + 1) (new m) l (apart (start + i + 1) (omega arith))
        ∙ g.clean i i_lt;
    done = elim (g.done) [
      | inl dead ↦ inl (ap (λ r. r.power) (bwrite-dead (block m) (new m) l dead) ∙ dead)
      | inr all ↦ elim (bwrite_self (block m) (new m) l) [
        | inl dead ↦ inl (ap (λ r. r.power) (bwrite-dead (block m) (new m) l dead) ∙ dead)
        | inr written ↦ inr (λ i i_lt. elim (Bool-cases (i == m)) [
          | inl e ↦ let same : i ≡ m = ground arith in rw same written.0
          | inr ne ↦
              disk-bwrite_ne (block m) (block i) (new m) l
                (λ e. absurd (ground (arith, sound.distinct i m)))
              ∙ all i (ground arith)
        ])
      ]
    ];
  }
    where
      apart : (x : ℕ) → InLog x → x ≢ block m
      apart x inside e = sound.home m lt (rw (← e) inside)

  pub install_loop-Installing :
      (k m : ℕ) (l : Log) → IsSound → m + k ≡ n → Installing m l → Installing n (install_loop k m l)
  unfolding install_loop
  install_loop-Installing zero m l sound e g =
      let all : m ≡ n = omega arith in subst (λ j. Installing j l) all g
  install_loop-Installing (suc k) m l sound e g =
      let place : l.block m ≡ block m = g.for.block_eq m (omega arith) in
      let what : bread (l.start + m + 1) l ≡ new m =
        ap (λ s. bread (s + m + 1) l) g.for.start_eq
        ∙ bread_clean (start + m + 1) l (g.clean m (omega arith))
        ∙ g.committed.logged m (omega arith) in
      let next : Installing (suc m) (bwrite (l.block m) (bread (l.start + m + 1) l) l) =
        rw (place, what) (Installing-step m l sound (omega arith) g) in
      install_loop-Installing k (suc m) (bwrite (l.block m) (bread (l.start + m + 1) l) l) sound
        (omega arith) next
    where
      bread_clean : (b : ℕ) (l : Log) → l.dirty b ≡ none → bread b l ≡ l.disk b
      bread_clean b l e = rw e refl
