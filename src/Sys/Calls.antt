-- ===== src/Sys/Calls.antt =====
-- The calls of sysfile.c on paths. A path is what `argstr` has fetched, a number what `argint` has, and
-- nothing where that failed. The result is `none` for -1.
use sofinal_project.Prelude.{
  ℕ, zero, suc, ◌+◌, ◌-◌, ◌*◌, ◌/◌, ◌%◌, ◌^◌, Bool, true, false, ◌||◌, not, Option, none, some,
  List, [], ◌∷◌, leb, ltb, ◌==◌, if◌then◌else◌,
}
use sofinal_project.Inode.{Inode}
use sofinal_project.Path.{namecmp}
use sofinal_project.Fs.{Fs}
use sofinal_project.Fs.Data.{writei}
use sofinal_project.Fs.Dirs.{t_dir, entry_size, entry_inum, read_entry}
use sofinal_project.Sys.{
  M, pure, ◌>>=◌, ◌>>◌, fail, maybe, when, begin_op, end_op, with_inode, from_inode, ilock_at,
  iunlock_at, iput_at, iunlockput_at, updated,
}
use sofinal_project.Sys.Names.{dirlookup_at, dirlink_at, namei, nameiparent}

abbrev pub Code : Type 0
Code = Option ℕ

abbrev pub failed : Code
failed = none

-- `end_op(); return -1`
abbrev pub end_failed : M Code
end_failed = do end_op; pure failed

-- `iunlockput(ip); end_op(); return -1`
abbrev pub put_failed : ℕ → M Code
put_failed i = do iunlockput_at i; end_failed

-- `nlink` is a short: its 16 bits are kept, and the numbers from 2 ^ 15 on are the negative ones.
abbrev pub add_link : Inode → Inode
add_link ip = record ip { nlink = (ip.nlink + 1) % 2 ^ 16 }

abbrev pub drop_link : Inode → Inode
drop_link ip = record ip { nlink = (ip.nlink + (2 ^ 16 - 1)) % 2 ^ 16 }

-- `bad:` of `sys_link`
unfoldable pub unlinked : ℕ → M Code
unfolding with_inode from_inode ilock_at iunlockput_at end_op
unlinked i = do ilock_at i; with_inode i (updated drop_link); put_failed i

-- `dp->dev != ip->dev || dirlink(dp, name, ip->inum) < 0`, as its negation.
abbrev pub linked_in : ℕ → List ℕ → ℕ → M Bool
linked_in d name i = do
  dev ← from_inode d (λ ip. ip.dev)
  dev' ← from_inode i (λ ip. ip.dev)
  inum ← from_inode i (λ ip. ip.inum)
  when (not (dev == dev')) (pure false) (dirlink_at d name inum)

-- `sys_link` from the lookup of the new path's parent on.
unfoldable pub link_to : ℕ → List ℕ → M Code
unfolding unlinked nameiparent iput_at dirlink_at
link_to i new = do
  found ← nameiparent new
  maybe found (unlinked i) (λ parent. do
    let (d, name) = parent
    ilock_at d
    done ← linked_in d name i
    iunlockput_at d
    when (not done) (unlinked i) (do iput_at i; end_op; pure (some 0)))

unfoldable pub sys_link : Option (List ℕ) → Option (List ℕ) → M Code
unfolding link_to namei begin_op end_op with_inode from_inode ilock_at iunlock_at iunlockput_at
sys_link old new = maybe old (pure failed) (λ old. maybe new (pure failed) (λ new. do
  begin_op
  found ← namei old
  maybe found end_failed (λ i. do
    ilock_at i
    type ← from_inode i (λ ip. ip.type)
    when (type == t_dir) (put_failed i)
        (do with_inode i (updated add_link); iunlock_at i; link_to i new))))

-- The loop of `isdirempty` from `off` on, for at most `f` rounds.
unfoldable pub isdirempty_loop : ℕ → ℕ → Inode → Fs → Option (Bool × Inode × Fs)
unfolding read_entry
isdirempty_loop zero off dp fs = some (true, dp, fs)
isdirempty_loop (suc f) off dp fs =
    let go : Option (Bool × Inode × Fs) = elim (read_entry off dp fs) [
      | none ↦ none
      | some (bytes, dp', fs') ↦
          let later : Option (Bool × Inode × Fs) = isdirempty_loop f (off + entry_size) dp' fs' in
          if entry_inum bytes == 0 then later else some (false, dp', fs')
    ] in
    if ltb off dp.size then go else some (true, dp, fs)

unfoldable pub isdirempty : Inode → Fs → Option (Bool × Inode × Fs)
unfolding isdirempty_loop
isdirempty dp fs = isdirempty_loop (dp.size / entry_size + 1) (2 * entry_size) dp fs

-- `writei` of an empty entry at `off`, which panics if it is not written whole.
unfoldable pub clear_entry : ℕ → Inode → Fs → Option (Unit {0} × Inode × Fs)
clear_entry off dp fs =
    elim (writei none off (0 ∷ 0 ∷ 0 ∷ 0 ∷ 0 ∷ 0 ∷ 0 ∷ 0 ∷ 0 ∷ 0 ∷ 0 ∷ 0 ∷ 0 ∷ 0 ∷ 0 ∷ 0 ∷ []) dp
      fs) [
        | none ↦ none
        | some (none, dp', fs') ↦ none
        | some (some n, dp', fs') ↦ if n == entry_size then some (tt, dp', fs') else none
      ]

-- "." and ".."
abbrev pub is_dots : List ℕ → Bool
is_dots name = namecmp name (46 ∷ []) == 0 || namecmp name (46 ∷ 46 ∷ []) == 0

abbrev pub is_full_dir : ℕ → M Bool
is_full_dir i = do
  type ← from_inode i (λ ip. ip.type)
  when (not (type == t_dir)) (pure false) (do empty ← with_inode i isdirempty; pure (not empty))

-- `ip->nlink < 1`
abbrev pub has_no_link : ℕ → Bool
has_no_link nlink = ltb nlink 1 || leb (2 ^ 15) nlink

-- `sys_unlink` with the directory `d`, and then also the inode `i` of its entry at `off`, locked.
unfoldable pub unlink_entry : ℕ → ℕ → ℕ → M Code
unfolding with_inode from_inode iunlockput_at end_op isdirempty clear_entry
unlink_entry d i off = do
  nlink ← from_inode i (λ ip. ip.nlink)
  full ← when (has_no_link nlink) fail (is_full_dir i)
  when full (do iunlockput_at i; put_failed d)
      (do
        with_inode d (clear_entry off)
        type ← from_inode i (λ ip. ip.type)
        when (type == t_dir) (with_inode d (updated drop_link)) (pure tt)
        iunlockput_at d
        with_inode i (updated drop_link)
        iunlockput_at i
        end_op
        pure (some 0))

unfoldable pub sys_unlink : Option (List ℕ) → M Code
unfolding unlink_entry begin_op nameiparent ilock_at dirlookup_at
sys_unlink path = maybe path (pure failed) (λ path. do
  begin_op
  found ← nameiparent path
  maybe found end_failed (λ parent. do
    let (d, name) = parent
    ilock_at d
    when (is_dots name) (put_failed d) (do
      entry ← dirlookup_at d name
      maybe entry (put_failed d) (λ e. do ilock_at e.0; unlink_entry d e.0 e.1))))
