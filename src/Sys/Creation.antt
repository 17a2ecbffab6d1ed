-- ===== src/Sys/Creation.antt =====
-- `create` of sysfile.c, and the calls that open, make and enter files.
use sofinal_project.Prelude.{
  ℕ, ◌/◌, ◌%◌, ◌^◌, Bool, ◌&&◌, ◌||◌, not, Option, none, some, List, [], ◌∷◌, ◌==◌, modify,
}
use sofinal_project.Inode.{Inode}
use sofinal_project.File.{File, fd_inode}
use sofinal_project.Fs.Data.{t_dev}
use sofinal_project.Fs.Dirs.{t_dir}
use sofinal_project.Sys.{
  ok, M, pure, ◌>>=◌, ◌>>◌, fail, gets, maybe, when, begin_op, end_op, with_inode, from_inode,
  ilock_at, iunlock_at, iput_at, iunlockput_at, updated, ialloc_at,
}
use sofinal_project.Sys.Names.{dirlookup_at, dirlink_at, namei, nameiparent}
use sofinal_project.Sys.Calls.{Code, failed, end_failed, put_failed, add_link}
use sofinal_project.Sys.Tables.{alloc_file, alloc_fd, close_file}

abbrev pub t_file : ℕ
t_file = 2

-- The inode of the entry that `create` has found, with its directory locked.
unfoldable pub existing : ℕ → ℕ → ℕ → M (Option ℕ)
unfolding with_inode from_inode ilock_at iunlockput_at
existing d type i = do
  iunlockput_at d
  ilock_at i
  type' ← from_inode i (λ ip. ip.type)
  when (type == t_file && type' == t_file) (pure (some i)) (do iunlockput_at i; pure none)

abbrev pub must : M Bool → M (Unit {0})
must m = do done ← m; when done (pure tt) fail

-- The entries . and .. of the new directory in slot `i`, with `..` counted in `d`.
unfoldable pub make_dots : ℕ → ℕ → M (Unit {0})
unfolding with_inode from_inode dirlink_at
make_dots d i = do
  with_inode d (updated add_link)
  inum ← from_inode i (λ ip. ip.inum)
  must (dirlink_at i (46 ∷ []) inum)
  parent ← from_inode d (λ ip. ip.inum)
  must (dirlink_at i (46 ∷ 46 ∷ []) parent)

abbrev pub set_device : ℕ → ℕ → Inode → Inode
set_device major minor ip = record ip { major = major; minor = minor; nlink = 1 }

-- A new inode with an entry in `d`, which is locked.
unfoldable pub make_inode : ℕ → List ℕ → ℕ → ℕ → ℕ → M (Option ℕ)
unfolding with_inode from_inode ialloc_at ilock_at make_dots dirlink_at iunlockput_at
make_inode d name type major minor = do
  dev ← from_inode d (λ ip. ip.dev)
  i ← ialloc_at dev type
  ilock_at i
  with_inode i (updated (set_device major minor))
  when (type == t_dir) (make_dots d i) (pure tt)
  inum ← from_inode i (λ ip. ip.inum)
  must (dirlink_at d name inum)
  iunlockput_at d
  pure (some i)

-- The inode is returned locked.
unfoldable pub create : List ℕ → ℕ → ℕ → ℕ → M (Option ℕ)
unfolding nameiparent ilock_at dirlookup_at existing make_inode
create path type major minor = do
  found ← nameiparent path
  maybe found (pure none) (λ parent. do
    let (d, name) = parent
    ilock_at d
    entry ← dirlookup_at d name
    maybe entry (make_inode d name type major minor) (λ e. existing d type e.0))

-- Bit `k` of the mode: 9 for O_CREATE, 0 for O_WRONLY, 1 for O_RDWR.
abbrev pub mode_bit : ℕ → ℕ → Bool
mode_bit k omode = omode / 2 ^ k % 2 == 1

abbrev pub open_file : ℕ → ℕ → File → File
open_file omode i f = record f {
  type = fd_inode;
  ip = i;
  off = 0;
  readable = not (mode_bit 0 omode);
  writable = mode_bit 0 omode || mode_bit 1 omode;
}

abbrev pub set_file : ℕ → (File → File) → M (Unit {0})
set_file f g s = ok tt (record s { files = modify s.files f g })

-- `sys_open` with the inode `i`, which is locked.
unfoldable pub open_inode : ℕ → ℕ → M Code
unfolding alloc_file alloc_fd close_file iunlock_at iunlockput_at end_op
open_inode omode i = do
  slot ← alloc_file
  maybe slot (put_failed i) (λ f. do
    fd ← alloc_fd f
    maybe fd (do close_file f; put_failed i)
        (λ fd. do iunlock_at i; end_op; set_file f (open_file omode i); pure (some fd)))

-- `sys_open` of a file that exists.
unfoldable pub open_existing : ℕ → List ℕ → M Code
unfolding namei ilock_at with_inode from_inode open_inode
open_existing omode path = do
  found ← namei path
  maybe found end_failed (λ i. do
    ilock_at i
    type ← from_inode i (λ ip. ip.type)
    when (type == t_dir && not (omode == 0)) (put_failed i) (open_inode omode i))

unfoldable pub open_new : ℕ → List ℕ → M Code
unfolding create open_inode
open_new omode path = do made ← create path t_file 0 0; maybe made end_failed (open_inode omode)

unfoldable pub sys_open : Option (List ℕ) → Option ℕ → M Code
unfolding begin_op open_existing open_new
sys_open path omode = maybe path (pure failed) (λ path. maybe omode (pure failed) (λ omode. do
  begin_op
  when (mode_bit 9 omode) (open_new omode path) (open_existing omode path)))

-- `create`, after which the inode is given back.
unfoldable pub make_and_put : List ℕ → ℕ → ℕ → ℕ → M Code
unfolding create iunlockput_at end_op
make_and_put path type major minor = do
  made ← create path type major minor
  maybe made end_failed (λ i. do iunlockput_at i; end_op; pure (some 0))

unfoldable pub sys_mkdir : Option (List ℕ) → M Code
unfolding begin_op make_and_put
sys_mkdir path = do begin_op; maybe path end_failed (λ path. make_and_put path t_dir 0 0)

-- The device's numbers are kept in 16 bits.
unfoldable pub sys_mknod : Option (List ℕ) → Option ℕ → Option ℕ → M Code
unfolding begin_op make_and_put
sys_mknod path major minor = do
  begin_op
  maybe path end_failed (λ path. maybe major end_failed (λ major.
      maybe minor end_failed (λ minor. make_and_put path t_dev (major % 2 ^ 16) (minor % 2 ^ 16))))

abbrev pub set_cwd : ℕ → M (Unit {0})
set_cwd i s = ok tt (record s { cwd = i })

unfoldable pub sys_chdir : Option (List ℕ) → M Code
unfolding begin_op end_op namei ilock_at iunlock_at iput_at with_inode from_inode
sys_chdir path = do
  begin_op
  maybe path end_failed (λ path. do
    found ← namei path
    maybe found end_failed (λ i. do
      ilock_at i
      type ← from_inode i (λ ip. ip.type)
      when (not (type == t_dir)) (put_failed i) (do
        iunlock_at i
        old ← gets (λ s. s.cwd)
        iput_at old
        end_op
        set_cwd i
        pure (some 0))))
