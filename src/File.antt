-- ===== src/File.antt =====
-- file.c: the system's table of open files, with a reference count for each.
-- `ftable.lock` makes each operation one atomic step. `none` is a panic.
pub mod Refs
mod Tests
use sofinal_project.Prelude.{
  ℕ, ◌+◌, ◌-◌, Bool, true, false, Option, none, some, List, ltb, ◌==◌, if◌then◌else◌, get_elem?,
  modify, find_first,
}

pub data FileType : Type 0 where
  fd_none fd_pipe fd_inode : FileType

-- `struct file`. `pipe` is an address, `ip` a slot of the inode cache.
pub record File : Type 0 where
  pub type : FileType
  pub ref : ℕ
  pub readable : Bool
  pub writable : Bool
  pub pipe : ℕ
  pub ip : ℕ
  pub off : ℕ

abbrev pub is_free : File → Bool
is_free f = f.ref == 0

-- Returns the slot of the new file, or nothing where the code returns 0.
unfoldable pub filealloc : List File → Option ℕ × List File
filealloc fs = elim (find_first is_free fs) [
  | none ↦ (none, fs)
  | some i ↦ (some i, modify fs i (λ f. record f { ref = 1 }))
]

unfoldable pub filedup : ℕ → List File → Option (List File)
filedup i fs = elim (get_elem? fs i) [
  | none ↦ none
  | some f ↦ if ltb f.ref 1 then none else some (modify fs i (λ f. record f { ref = f.ref + 1 }))
]

-- What `fileclose` still has to do after it has released the table's lock.
pub data Closing : Type 0 where
  nothing : Closing
  pipe_close : (pipe : ℕ) → (writable : Bool) → Closing
  inode_put : (ip : ℕ) → Closing

abbrev pub closing : File → Closing
closing f = elim (f.type) [
  | fd_pipe ↦ pipe_close f.pipe f.writable
  | fd_inode ↦ inode_put f.ip
  | fd_none ↦ nothing
]

unfoldable pub fileclose : ℕ → List File → Option (Closing × List File)
fileclose i fs = elim (get_elem? fs i) [
  | none ↦ none
  | some f ↦
      if ltb f.ref 1
      then none
      else if ltb 0 (f.ref - 1)
      then some (nothing, modify fs i (λ f. record f { ref = f.ref - 1 }))
      else some (closing f, modify fs i (λ f. record f { ref = 0; type = fd_none }))
]
