-- ===== src/Sys.antt =====
-- The state of the file system calls of sysfile.c, as one process that makes them sees it, and the actions
-- on it that they are made of. A call ends with a result, in a panic, or waiting for a sleep lock that its own
-- process holds, which is `stuck`. A file or an inode is its slot in its table.
pub mod Names
pub mod NameRounds
pub mod Calls
pub mod Tables
pub mod Creation
pub mod Descriptors
pub mod Locks
pub mod NameLocks
pub mod LinkLocks
pub mod OpenLocks
pub mod DescriptorLocks
pub mod Balance
pub mod Deadlock
mod Tests
use sofinal_project.Prelude.{
  ℕ, zero, suc, ◌+◌, ◌-◌, Bool, true, false, ◌&&◌, ◌||◌, not, Option, none, some, List, [], ◌∷◌,
  ltb, leb, ◌==◌, if◌then◌else◌, get_elem?, modify,
}
use sofinal_project.Inode.{Inode, iget, idup}
use sofinal_project.File.{File}
use sofinal_project.Fs.{Fs}
use sofinal_project.Fs.Inodes.{ilock, iput, iupdate, ialloc}

-- `held` are the inodes whose sleep locks the process holds, `ops` counts its operations in the log that
-- have begun and not ended. `closed_pipes` collects the calls of `pipeclose`.
pub record Sys : Type 0 where
  pub inodes : List Inode
  pub fs : Fs
  pub files : List File
  pub ofile : List (Option ℕ)
  pub cwd : ℕ
  pub held : List ℕ
  pub ops : ℕ
  pub closed_pipes : List (ℕ × Bool)

pub data Run (A : Type 0) : Type 0 where
  ok : A → Sys → Run A
  panic : Run A
  stuck : Run A

abbrev pub M : Type 0 → Type 0
M A = Sys → Run A

abbrev pub pure : {A : Type 0} → A → M A
pure a s = ok a s

-- What follows a call that has returned.
abbrev pub continue : {A B : Type 0} → (A → M B) → Run A → Run B
continue f (ok a s) = f a s
continue f panic = panic
continue f stuck = stuck

infixl 5 ◌>>=◌ ◌>>◌
abbrev pub ◌>>=◌ : {A B : Type 0} → M A → (A → M B) → M B
◌>>=◌ m f s = continue f (m s)

abbrev pub ◌>>◌ : {B : Type 0} → M (Unit {0}) → M B → M B
m >> k = m >>= λ _. k

abbrev pub fail : {A : Type 0} → M A
fail s = panic

abbrev pub gets : {A : Type 0} → (Sys → A) → M A
gets f s = ok (f s) s

-- A test of `-1` or of a null pointer.
abbrev pub maybe : {A B : Type 0} → Option A → M B → (A → M B) → M B
maybe none m f = m
maybe (some a) m f = f a

abbrev pub when : {A : Type 0} → Bool → M A → M A → M A
when true m n = m
when false m n = n

abbrev pub mem : ℕ → List ℕ → Bool
mem i [] = false
mem i (j ∷ js) = i == j || mem i js

abbrev pub without : ℕ → List ℕ → List ℕ
without i [] = []
without i (j ∷ js) = if i == j then js else j ∷ without i js

-- `begin_op`, once the log has space, and `end_op`.
unfoldable pub begin_op : M (Unit {0})
begin_op s = ok tt (record s { ops = s.ops + 1 })

unfoldable pub end_op : M (Unit {0})
end_op s = ok tt (record s { ops = s.ops - 1 })

-- An operation on the inode in slot `i`.
unfoldable pub with_inode : {A : Type 0} → ℕ → (Inode → Fs → Option (A × Inode × Fs)) → M A
with_inode i f s = elim (get_elem? s.inodes i) [
  | none ↦ panic
  | some ip ↦ elim (f ip s.fs) [
    | none ↦ panic
    | some (a, ip', fs') ↦ ok a (record s { inodes = modify s.inodes i (λ _. ip'); fs = fs' })
  ]
]

-- A value of its fields.
unfoldable pub from_inode : {A : Type 0} → ℕ → (Inode → A) → M A
from_inode i f s = elim (get_elem? s.inodes i) [ none ↦ panic | some ip ↦ ok (f ip) s ]

unfoldable pub iget_at : ℕ → ℕ → M ℕ
iget_at dev inum s = elim (iget dev inum s.inodes) [
  | none ↦ panic
  | some (i, inodes') ↦ ok i (record s { inodes = inodes' })
]

unfoldable pub idup_at : ℕ → M ℕ
idup_at i s = ok i (record s { inodes = idup i s.inodes })

abbrev pub locked : Inode → Fs → Option (Unit {0} × Inode × Fs)
locked ip fs = elim (ilock fs ip) [ none ↦ none | some ip' ↦ some (tt, ip', fs) ]

unfoldable pub hold : ℕ → M (Unit {0})
hold i s = ok tt (record s { held = i ∷ s.held })

-- `ilock`: a reference is needed before the lock is asked for.
unfoldable pub ilock_at : ℕ → M (Unit {0})
unfolding with_inode from_inode hold
ilock_at i = do
  ref ← from_inode i (λ ip. ip.ref)
  held ← gets (λ s. s.held)
  when (ltb ref 1) fail (when (mem i held) (λ s. stuck) (do with_inode i locked; hold i))

unfoldable pub iunlock_at : ℕ → M (Unit {0})
unfolding with_inode from_inode
iunlock_at i = do
  ref ← from_inode i (λ ip. ip.ref)
  held ← gets (λ s. s.held)
  when (not (mem i held) || ltb ref 1) fail (λ s. ok tt (record s { held = without i s.held }))

abbrev pub dropped : Inode → Fs → Option (Unit {0} × Inode × Fs)
dropped ip fs = elim (iput ip fs) [ none ↦ none | some (ip', fs') ↦ some (tt, ip', fs') ]

-- `iput` takes the sleep lock of the inode for a time.
unfoldable pub iput_at : ℕ → M (Unit {0})
unfolding with_inode from_inode
iput_at i = do held ← gets (λ s. s.held); when (mem i held) (λ s. stuck) (with_inode i dropped)

unfoldable pub iunlockput_at : ℕ → M (Unit {0})
unfolding iunlock_at iput_at
iunlockput_at i = do iunlock_at i; iput_at i

-- The changed inode is written to the disk.
abbrev pub updated : (Inode → Inode) → Inode → Fs → Option (Unit {0} × Inode × Fs)
updated f ip fs = some (tt, f ip, iupdate (f ip) fs)

-- `ialloc` with the `iget` at its end.
unfoldable pub ialloc_at : ℕ → ℕ → M ℕ
unfolding iget_at
ialloc_at dev type s = elim (ialloc type s.fs) [
  | none ↦ panic
  | some (inum, fs') ↦ iget_at dev inum (record s { fs = fs' })
]
