-- ===== src/Sys/Locks.antt =====
-- What an action does to the sleep locks that its process holds and to its count of operations in the log.
use sofinal_project.Prelude.{
  ℕ, ◌+◌, ◌-◌, ◌≡◌, refl, ap, ◌∙◌, inl, inr, Bool, true, false, ◌||◌, not, Option, none, some, List,
  ◌∷◌, arith, ltb, ◌==◌, get_elem?, Bool-cases, Option-cases, ==→eq, ==_refl,
}
use sofinal_project.Inode.{Inode, iget}
use sofinal_project.Fs.{Fs}
use sofinal_project.Fs.Inodes.{ialloc}
use sofinal_project.Sys.{
  Sys, Run, ok, panic, stuck, M, pure, continue, ◌>>=◌, fail, gets, maybe, when, mem, without,
  begin_op, end_op, with_inode, from_inode, locked, hold, dropped, iget_at, idup_at, ilock_at,
  iunlock_at, iput_at, iunlockput_at, ialloc_at,
}

-- The locks that are held, and the operations that have begun.
abbrev pub Ctx : Type 0
Ctx = List ℕ × ℕ

abbrev pub ctx : Sys → Ctx
ctx s = (s.held, s.ops)

abbrev pub After : {A : Type 0} → Run A → (A → Ctx) → Type 0
After (ok a s) d = ctx s ≡ d a
After panic d = Unit
After stuck d = Unit

-- From `c` the action comes to `d` of its result, where it returns.
pub record Takes {A : Type 0} (c : Ctx) (m : M A) (d : A → Ctx) : Type 0 where
  pub after : (s : Sys) → ctx s ≡ c → After (m s) d

pub pure-Takes : {A : Type 0} (c : Ctx) (a : A) → Takes c (pure a) (λ x. c)
pure-Takes c a = record { after = λ s e. e }

pub fail-Takes : {A : Type 0} (c : Ctx) (d : A → Ctx) → Takes c fail d
fail-Takes c d = record { after = λ s e. tt }

pub gets-Takes : {A : Type 0} (c : Ctx) (f : Sys → A) → Takes c (gets f) (λ x. c)
gets-Takes c f = record { after = λ s e. e }

continue-After :
    {A B : Type 0} (r : Run A) (f : A → M B) (d : A → Ctx) (e : B → Ctx)
    → After r d
    → ((a : A) → Takes (d a) (f a) e)
    → After (continue f r) e
continue-After (ok a s) f d e h k = (k a).after s h
continue-After panic f d e h k = tt
continue-After stuck f d e h k = tt

pub bind-Takes :
    {A B : Type 0} {c : Ctx} {m : M A} {f : A → M B} {d : A → Ctx} {e : B → Ctx}
    → Takes c m d
    → ((a : A) → Takes (d a) (f a) e)
    → Takes c (m >>= f) e
bind-Takes {m} {f} {d} {e} h k = record {
  after = λ s q. continue-After (m s) f d e (h.after s q) k;
}

pub when-Takes :
    {A : Type 0} {c : Ctx} {m n : M A} {d : A → Ctx} (b : Bool)
    → Takes c m d
    → Takes c n d
    → Takes c (when b m n) d
when-Takes true h k = h
when-Takes false h k = k

pub maybe-Takes :
    {A B : Type 0} {c : Ctx} {m : M B} {f : A → M B} {d : B → Ctx} (o : Option A)
    → Takes c m d
    → ((a : A) → Takes c (f a) d)
    → Takes c (maybe o m f) d
maybe-Takes none h k = h
maybe-Takes (some a) h k = k a

pub begin_op-Takes : (h : List ℕ) (n : ℕ) → Takes (h, n) begin_op (λ x. (h, n + 1))
unfolding begin_op
begin_op-Takes h n = record { after = λ s e. ap (λ c. (c.0, c.1 + 1)) e }

pub end_op-Takes : (h : List ℕ) (n : ℕ) → Takes (h, n + 1) end_op (λ x. (h, n))
unfolding end_op
end_op-Takes h n = record {
  after = λ s e. ap (λ c. (c.0, c.1 - 1)) e ∙ ap (λ k. (h, k)) (omega arith);
}

-- An action whose result has the locks and the count of its start.
pub with_inode-Takes :
    {A : Type 0} (c : Ctx) (i : ℕ) (f : Inode → Fs → Option (A × Inode × Fs))
    → Takes c (with_inode i f) (λ x. c)
unfolding with_inode from_inode
with_inode-Takes c i f = record {
  after = λ s e. elim (Option-cases (get_elem? s.inodes i)) [
    | inl none_there ↦ rw (After, none_there) tt
    | inr (ip, there) ↦ elim (Option-cases (f ip s.fs)) [
      | inl panics ↦ rw (After, there, panics) tt
      | inr (r, returns) ↦ rw (After, there, returns) e
    ]
  ];
}

pub from_inode-Takes :
    {A : Type 0} (c : Ctx) (i : ℕ) (f : Inode → A) → Takes c (from_inode i f) (λ x. c)
unfolding from_inode
from_inode-Takes c i f = record {
  after = λ s e. elim (Option-cases (get_elem? s.inodes i)) [
    | inl none_there ↦ rw (After, none_there) tt
    | inr (ip, there) ↦ rw (After, there) e
  ];
}

pub iget_at-Takes : (c : Ctx) (dev inum : ℕ) → Takes c (iget_at dev inum) (λ x. c)
unfolding iget_at
iget_at-Takes c dev inum = record {
  after = λ s e. elim (Option-cases (iget dev inum s.inodes)) [
    | inl full ↦ rw (After, full) tt
    | inr (r, found) ↦ rw (After, found) e
  ];
}

pub idup_at-Takes : (c : Ctx) (i : ℕ) → Takes c (idup_at i) (λ x. c)
unfolding idup_at
idup_at-Takes c i = record { after = λ s e. e }

pub ialloc_at-Takes : (c : Ctx) (dev type : ℕ) → Takes c (ialloc_at dev type) (λ x. c)
unfolding ialloc_at
ialloc_at-Takes c dev type = record {
  after = λ s e. elim (Option-cases (ialloc type s.fs)) [
    | inl full ↦ rw (After, full) tt
    | inr ((inum, fs'), found) ↦
        rw (After, found) ((iget_at-Takes c dev inum).after (record s { fs = fs' }) e)
  ];
}

stuck-Takes : {A : Type 0} (c : Ctx) (d : A → Ctx) → Takes c (λ s. stuck) d
stuck-Takes c d = record { after = λ s e. tt }

hold-Takes : (h : List ℕ) (n i : ℕ) → Takes (h, n) (hold i) (λ x. (i ∷ h, n))
unfolding hold
hold-Takes h n i = record { after = λ s e. ap (λ c. (i ∷ c.0, c.1)) e }

pub ilock_at-Takes : (h : List ℕ) (n i : ℕ) → Takes (h, n) (ilock_at i) (λ x. (i ∷ h, n))
unfolding ilock_at
ilock_at-Takes h n i = bind-Takes (from_inode-Takes (h, n) i (λ ip. ip.ref)) (λ ref.
    bind-Takes (gets-Takes (h, n) (λ s. s.held)) (λ held.
      when-Takes (ltb ref 1) (fail-Takes (h, n) _) (
        when-Takes (mem i held) (stuck-Takes (h, n) _)
          (bind-Takes (with_inode-Takes (h, n) i locked) (λ u. hold-Takes h n i)))))

-- Unlocking takes the inode out of those held.
iunlock_at-without : (c : Ctx) (i : ℕ) → Takes c (iunlock_at i) (λ x. (without i c.0, c.1))
unfolding iunlock_at
iunlock_at-without c i = bind-Takes (from_inode-Takes c i (λ ip. ip.ref)) (λ ref.
    bind-Takes (gets-Takes c (λ s. s.held)) (λ held.
      when-Takes (not (mem i held) || ltb ref 1) (fail-Takes c _)
        (record { after = λ s e. ap (λ c. (without i c.0, c.1)) e })))

same_end :
    {A : Type 0} {c : Ctx} {m : M A} {d d' : A → Ctx}
    → ((a : A) → d a ≡ d' a)
    → Takes c m d
    → Takes c m d'
same_end {m} {d} {d'} e h = record { after = λ s q. go (m s) (h.after s q) }
  where
    go : (r : Run _) → After r d → After r d'
    go (ok a s) q = q ∙ e a
    go panic q = tt
    go stuck q = tt

pub iunlock_at-Takes : (h : List ℕ) (n i : ℕ) → Takes (i ∷ h, n) (iunlock_at i) (λ x. (h, n))
iunlock_at-Takes h n i = same_end (λ a. rw (==_refl i) refl) (iunlock_at-without (i ∷ h, n) i)

-- The lock below the last one.
pub iunlock_at-below :
    (h : List ℕ) (n i j : ℕ) → Takes (j ∷ i ∷ h, n) (iunlock_at i) (λ x. (j ∷ h, n))
iunlock_at-below h n i j =
    same_end
      (λ a. elim (Bool-cases (i == j)) [
        | inl e ↦ rw e (ap (λ k. (k ∷ h, n)) (==→eq i j e))
        | inr ne ↦ rw (ne, ==_refl i) refl
      ])
      (iunlock_at-without (j ∷ i ∷ h, n) i)

pub iput_at-Takes : (c : Ctx) (i : ℕ) → Takes c (iput_at i) (λ x. c)
unfolding iput_at
iput_at-Takes c i =
    bind-Takes (gets-Takes c (λ s. s.held))
      (λ held. when-Takes (mem i held) (stuck-Takes c _) (with_inode-Takes c i dropped))

pub iunlockput_at-Takes : (h : List ℕ) (n i : ℕ) → Takes (i ∷ h, n) (iunlockput_at i) (λ x. (h, n))
unfolding iunlockput_at
iunlockput_at-Takes h n i = bind-Takes (iunlock_at-Takes h n i) (λ u. iput_at-Takes (h, n) i)

pub iunlockput_at-below :
    (h : List ℕ) (n i j : ℕ) → Takes (j ∷ i ∷ h, n) (iunlockput_at i) (λ x. (j ∷ h, n))
unfolding iunlockput_at
iunlockput_at-below h n i j =
    bind-Takes (iunlock_at-below h n i j) (λ u. iput_at-Takes (j ∷ h, n) i)
