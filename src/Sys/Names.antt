-- ===== src/Sys/Names.antt =====
-- fs.c: directories and path names on the table of inodes: `dirlookup` and `dirlink` with their calls of
-- `iget` and `iput`, and `namex`.
use sofinal_project.Prelude.{
  ℕ, zero, suc, Bool, true, false, ◌&&◌, not, Option, none, some, List, [], ◌∷◌, ◌==◌, length,
}
use sofinal_project.Path.{slash, skipelem}
use sofinal_project.Fs.Dirs.{t_dir, Linked, taken, linked, dirlookup, dirlink}
use sofinal_project.Sys.{
  M, pure, ◌>>=◌, ◌>>◌, gets, maybe, when, with_inode, from_inode, iget_at, idup_at, ilock_at,
  iunlock_at, iput_at, iunlockput_at,
}

-- The slot of the inode and the offset of the entry.
unfoldable pub dirlookup_at : ℕ → List ℕ → M (Option (ℕ × ℕ))
unfolding with_inode from_inode iget_at
dirlookup_at dp name = do
  dev ← from_inode dp (λ ip. ip.dev)
  found ← with_inode dp (dirlookup name)
  maybe found (pure none) (λ entry. do i ← iget_at dev entry.0; pure (some (i, entry.1)))

-- `true` stands for 0, `false` for -1.
abbrev pub put_taken : ℕ → Linked → M Bool
put_taken dev linked = pure true
put_taken dev (taken inum) = do i ← iget_at dev inum; iput_at i; pure false

unfoldable pub dirlink_at : ℕ → List ℕ → ℕ → M Bool
unfolding with_inode from_inode iget_at iput_at
dirlink_at dp name inum = do
  dev ← from_inode dp (λ ip. ip.dev)
  done ← with_inode dp (dirlink name inum)
  put_taken dev done

abbrev pub is_nil : List ℕ → Bool
is_nil [] = true
is_nil (c ∷ path) = false

-- The inode's slot, with the name buffer.
abbrev pub Found : Type 0
Found = Option (ℕ × List ℕ)

-- `iunlockput(ip); return 0`
abbrev pub give_up : ℕ → M Found
give_up i = do iunlockput_at i; pure none

-- What `namex` does when no element is left.
abbrev pub at_end : Bool → List ℕ → ℕ → M Found
at_end true name i = do iput_at i; pure none
at_end false name i = pure (some (i, name))

-- The loop of `namex` for at most `f` elements.
unfoldable pub namex_loop : ℕ → Bool → List ℕ → List ℕ → ℕ → M Found
unfolding with_inode from_inode ilock_at iunlock_at iunlockput_at dirlookup_at
namex_loop zero parent path name i = pure none
namex_loop (suc f) parent path name i = maybe (skipelem path name) (at_end parent name i) (λ elem.
    do
      ilock_at i
      type ← from_inode i (λ ip. ip.type)
      when (not (type == t_dir)) (give_up i) (
          when (parent && is_nil elem.0) (do iunlock_at i; pure (some (i, elem.1)))
            (do
              found ← dirlookup_at i elem.1
              maybe found (give_up i)
                  (λ next. do iunlockput_at i; namex_loop f parent elem.0 elem.1 next.0))))

abbrev pub is_absolute : List ℕ → Bool
is_absolute [] = false
is_absolute (c ∷ path) = c == slash

-- ROOTDEV and ROOTINO are 1.
unfoldable pub namex : Bool → List ℕ → List ℕ → M Found
unfolding namex_loop iget_at idup_at
namex parent path name = do
  cwd ← gets (λ s. s.cwd)
  i ← when (is_absolute path) (iget_at 1 1) (idup_at cwd)
  namex_loop (suc (length path)) parent path name i

-- An uninitialised name buffer.
abbrev pub no_name : List ℕ
no_name = 0 ∷ 0 ∷ 0 ∷ 0 ∷ 0 ∷ 0 ∷ 0 ∷ 0 ∷ 0 ∷ 0 ∷ 0 ∷ 0 ∷ 0 ∷ 0 ∷ []

unfoldable pub namei : List ℕ → M (Option ℕ)
unfolding namex
namei path = do found ← namex false path no_name; maybe found (pure none) (λ f. pure (some f.0))

unfoldable pub nameiparent : List ℕ → M Found
unfolding namex
nameiparent path = namex true path no_name
