-- ===== src/Fs/Dirs.antt =====
-- Directories of fs.c: `dirlookup` and `dirlink`.
use sofinal_project.Prelude.{
  ℕ, zero, suc, ◌+◌, ◌*◌, ◌/◌, ◌%◌, ◌^◌, Option, none, some, List, [], ◌∷◌, ltb, ◌==◌,
  if◌then◌else◌, drop, length,
}
use sofinal_project.Inode.{Inode}
use sofinal_project.CString.{strncpy}
use sofinal_project.Path.{namecmp, dirsiz}
use sofinal_project.Fs.{Fs}
use sofinal_project.Fs.Data.{readi, writei}

abbrev pub t_dir : ℕ
t_dir = 1

-- sizeof(struct dirent)
abbrev pub entry_size : ℕ
entry_size = 16

-- `de.inum` and `de.name` of the bytes of an entry.
abbrev pub entry_inum : List ℕ → ℕ
entry_inum (lo ∷ hi ∷ name) = lo + 2 ^ 8 * hi
entry_inum bytes = 0

abbrev pub entry_name : List ℕ → List ℕ
entry_name bytes = drop 2 bytes

-- `readi` of the entry at `off`. It panics when it does not get a whole entry.
unfoldable pub read_entry : ℕ → Inode → Fs → Option (List ℕ × Inode × Fs)
read_entry off dp fs = elim (readi none off entry_size dp fs) [
  | none ↦ none
  | some (none, dp', fs') ↦ none
  | some (some bytes, dp', fs') ↦
      if length bytes == entry_size then some (bytes, dp', fs') else none
]

-- The entry's number and its offset.
abbrev pub Lookup : Type 0
Lookup = Option (Option (ℕ × ℕ) × Inode × Fs)

unfoldable pub dirlookup_loop : ℕ → ℕ → List ℕ → Inode → Fs → Lookup
unfolding read_entry
dirlookup_loop zero off name dp fs = some (none, dp, fs)
dirlookup_loop (suc f) off name dp fs =
    let go : Lookup = elim (read_entry off dp fs) [
      | none ↦ none
      | some (bytes, dp', fs') ↦
          let later : Lookup = dirlookup_loop f (off + entry_size) name dp' fs' in
          if entry_inum bytes == 0
          then later
          else if namecmp name (entry_name bytes) == 0
          then some (some (entry_inum bytes, off), dp', fs')
          else later
    ] in
    if ltb off dp.size then go else some (none, dp, fs)

-- `iget` of the number follows.
unfoldable pub dirlookup : List ℕ → Inode → Fs → Lookup
unfolding dirlookup_loop
dirlookup name dp fs =
    if dp.type == t_dir then dirlookup_loop (dp.size / entry_size + 1) 0 name dp fs else none

-- The loop of `dirlink`: the offset of the first empty entry, or the end.
unfoldable pub empty_entry : ℕ → ℕ → Inode → Fs → Option (ℕ × Inode × Fs)
unfolding read_entry
empty_entry zero off dp fs = some (off, dp, fs)
empty_entry (suc f) off dp fs =
    let go : Option (ℕ × Inode × Fs) = elim (read_entry off dp fs) [
      | none ↦ none
      | some (bytes, dp', fs') ↦
          let later : Option (ℕ × Inode × Fs) = empty_entry f (off + entry_size) dp' fs' in
          if entry_inum bytes == 0 then some (off, dp', fs') else later
    ] in
    if ltb off dp.size then go else some (off, dp, fs)

-- The name is there already, and the inode with this number, which `dirlookup` has taken a reference to,
-- is given to `iput` before the return of -1; or the entry is written.
pub data Linked : Type 0 where
  taken : ℕ → Linked
  linked : Linked

-- `strncpy` fills the whole name of the new entry.
abbrev pub new_entry : List ℕ → ℕ → List ℕ
new_entry name inum =
    inum % 2 ^ 8
    ∷ inum / 2 ^ 8 % 2 ^ 8
    ∷ strncpy (0 ∷ 0 ∷ 0 ∷ 0 ∷ 0 ∷ 0 ∷ 0 ∷ 0 ∷ 0 ∷ 0 ∷ 0 ∷ 0 ∷ 0 ∷ 0 ∷ []) name dirsiz

unfoldable pub dirlink : List ℕ → ℕ → Inode → Fs → Option (Linked × Inode × Fs)
unfolding dirlookup empty_entry
dirlink name inum dp fs = elim (dirlookup name dp fs) [
  | none ↦ none
  | some (some (i, off), dp1, fs1) ↦ some (taken i, dp1, fs1)
  | some (none, dp1, fs1) ↦ elim (empty_entry (dp1.size / entry_size + 1) 0 dp1 fs1) [
    | none ↦ none
    | some (off, dp2, fs2) ↦ elim (writei none off (new_entry name inum) dp2 fs2) [
      | none ↦ none
      | some (none, dp3, fs3) ↦ none
      | some (some n, dp3, fs3) ↦ if n == entry_size then some (linked, dp3, fs3) else none
    ]
  ]
]
