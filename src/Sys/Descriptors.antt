-- ===== src/Sys/Descriptors.antt =====
-- The calls of sysfile.c on descriptors. A descriptor is what `argint` has fetched, and a count `n` or the
-- bytes of a buffer are there when `argint` and `argptr` have not failed. What a pipe or a device does
-- is an argument.
use sofinal_project.Prelude.{
  ℕ, zero, suc, ◌+◌, ◌/◌, Bool, true, false, not, Option, none, some, List, ◌==◌, if◌then◌else◌,
  length, get_elem?, take, drop, min,
}
use sofinal_project.Inode.{Stat, stati}
use sofinal_project.Kalloc.{Kmem}
use sofinal_project.Pipe.{NewPipe, pipealloc}
use sofinal_project.File.{File, fd_none, fd_pipe, fd_inode}
use sofinal_project.Fs.Data.{readi, writei}
use sofinal_project.Fs.Files.{max_write, advance}
use sofinal_project.Sys.{
  ok, panic, M, pure, ◌>>=◌, ◌>>◌, fail, maybe, when, begin_op, end_op, with_inode, from_inode,
  ilock_at, iunlock_at,
}
use sofinal_project.Sys.Calls.{Code, failed}
use sofinal_project.Sys.Tables.{alloc_fd, clear_fd, dup_file, close_file}
use sofinal_project.Sys.Creation.{set_file}

-- `argfd`: the descriptor and its file.
unfoldable pub find_fd : Option ℕ → M (Option (ℕ × ℕ))
find_fd none s = ok none s
find_fd (some fd) s = elim (get_elem? s.ofile fd) [
  | none ↦ ok none s
  | some none ↦ ok none s
  | some (some f) ↦ ok (some (fd, f)) s
]

unfoldable pub file_at : ℕ → M File
file_at f s = elim (get_elem? s.files f) [ none ↦ panic | some file ↦ ok file s ]

unfoldable pub sys_dup : Option ℕ → M Code
unfolding find_fd alloc_fd dup_file
sys_dup num = do
  old ← find_fd num
  maybe old (pure failed)
      (λ o. do new ← alloc_fd o.1; maybe new (pure failed) (λ fd. do dup_file o.1; pure (some fd)))

unfoldable pub sys_close : Option ℕ → M Code
unfolding find_fd clear_fd close_file
sys_close num = do
  old ← find_fd num
  maybe old (pure failed) (λ o. do clear_fd o.0; close_file o.1; pure (some 0))

-- The offset behind the bytes that were read.
abbrev pub read_on : ℕ → Option (List ℕ) → M (Unit {0})
read_on f none = pure tt
read_on f (some bytes) = set_file f (advance (length bytes))

-- `fileread` of an inode's file.
unfoldable pub read_inode : Option (List ℕ) → ℕ → ℕ → File → M (Option (List ℕ))
unfolding ilock_at iunlock_at with_inode from_inode
read_inode device n f file = do
  ilock_at file.ip
  bytes ← with_inode file.ip (readi device file.off n)
  read_on f bytes
  iunlock_at file.ip
  pure bytes

unfoldable pub fileread_at : Option (List ℕ) → Option (List ℕ) → ℕ → ℕ → M (Option (List ℕ))
unfolding file_at read_inode
fileread_at piped device n f = do
  file ← file_at f
  when (not file.readable) (pure none) (elim file.type [
    | fd_pipe ↦ pure piped
    | fd_inode ↦ read_inode device n f file
    | fd_none ↦ fail
  ])

-- The bytes that are read, or -1.
unfoldable pub sys_read :
    Option (List ℕ) → Option (List ℕ) → Option ℕ → Option ℕ → M (Option (List ℕ))
unfolding find_fd fileread_at
sys_read piped device num n = do
  fd ← find_fd num
  maybe fd (pure none) (λ o. maybe n (pure none) (λ n. fileread_at piped device n o.1))

-- One round of `filewrite`: the result of `writei`.
unfoldable pub write_round : Option ℕ → List ℕ → ℕ → M (Option ℕ)
unfolding file_at begin_op end_op ilock_at iunlock_at with_inode from_inode
write_round device cs f = do
  file ← file_at f
  begin_op
  ilock_at file.ip
  r ← with_inode file.ip (writei device file.off cs)
  maybe r (pure tt) (λ r. set_file f (advance r))
  iunlock_at file.ip
  end_op
  pure r

-- The loop of `filewrite` with the bytes that are left, for at most `k` rounds.
unfoldable pub write_loop : ℕ → (ℕ → Option ℕ) → List ℕ → ℕ → M Bool
unfolding write_round
write_loop zero device cs f = pure true
write_loop (suc k) device cs f =
    let n1 = min (length cs) max_write in
    when (length cs == 0) (pure true) (do
      r ← write_round (device n1) (take n1 cs) f
      maybe r (pure false) (λ r. when (not (r == n1)) fail (write_loop k device (drop n1 cs) f)))

unfoldable pub filewrite_at : Option ℕ → (ℕ → Option ℕ) → List ℕ → ℕ → M Code
unfolding file_at write_loop
filewrite_at piped device cs f = do
  file ← file_at f
  when (not file.writable) (pure failed) (elim file.type [
    | fd_pipe ↦ pure piped
    | fd_inode ↦ (do
      done ← write_loop (length cs / max_write + 1) device cs f
      pure (if done then some (length cs) else failed))
    | fd_none ↦ fail
  ])

unfoldable pub sys_write : Option ℕ → (ℕ → Option ℕ) → Option ℕ → Option (List ℕ) → M Code
unfolding find_fd filewrite_at
sys_write piped device num cs = do
  fd ← find_fd num
  maybe fd (pure failed) (λ o. maybe cs (pure failed) (λ cs. filewrite_at piped device cs o.1))

unfoldable pub filestat_at : ℕ → M (Option Stat)
unfolding file_at ilock_at iunlock_at with_inode from_inode
filestat_at f = do
  file ← file_at f
  elim file.type [
    | fd_inode ↦ (do
      ilock_at file.ip
      st ← from_inode file.ip stati
      iunlock_at file.ip
      pure (some st))
    | fd_none ↦ pure none
    | fd_pipe ↦ pure none
  ]

-- `st` says whether `argptr` has found room for the result.
unfoldable pub sys_fstat : Option ℕ → Bool → M (Option Stat)
unfolding find_fd filestat_at
sys_fstat num st = do
  fd ← find_fd num
  maybe fd (pure none) (λ o. when (not st) (pure none) (filestat_at o.1))

-- `pipealloc`, with the allocator's state before and after it.
unfoldable pub alloc_pipe : Kmem → M (Option NewPipe × Kmem)
alloc_pipe k s = elim (pipealloc s.files k) [
  | none ↦ panic
  | some (made, files', k') ↦ ok (made, k') (record s { files = files' })
]

-- The end of `sys_pipe` where there is no descriptor for an end of the pipe.
unfoldable pub drop_pipe : NewPipe → M (Option (ℕ × ℕ))
unfolding close_file
drop_pipe p = do close_file p.reader; close_file p.writer; pure none

unfoldable pub pipe_fds : NewPipe → M (Option (ℕ × ℕ))
unfolding alloc_fd clear_fd drop_pipe
pipe_fds p = do
  fd0 ← alloc_fd p.reader
  maybe fd0 (drop_pipe p) (λ fd0. do
    fd1 ← alloc_fd p.writer
    maybe fd1 (do clear_fd fd0; drop_pipe p) (λ fd1. pure (some (fd0, fd1))))

-- The two descriptors, or -1. `room` says whether `argptr` has found room for them.
unfoldable pub sys_pipe : Bool → Kmem → M (Option (ℕ × ℕ) × Kmem)
unfolding alloc_pipe pipe_fds
sys_pipe room k = when (not room) (pure (none, k)) (do
  made ← alloc_pipe k
  maybe made.0 (pure (none, made.1)) (λ p. do fds ← pipe_fds p; pure (fds, made.1)))
