-- ===== src/Sys/Tables.antt =====
-- The tables of files and of descriptors, as the calls of sysfile.c use them.
use sofinal_project.Prelude.{ℕ, Option, none, some, ◌∷◌, modify}
use sofinal_project.File.{filealloc, filedup, fileclose, Closing, nothing, pipe_close, inode_put}
use sofinal_project.Fd.{fdalloc}
use sofinal_project.Sys.{ok, panic, M, pure, ◌>>=◌, ◌>>◌, begin_op, end_op, iput_at}

unfoldable pub alloc_file : M (Option ℕ)
alloc_file s = let (slot, files') = filealloc s.files in ok slot (record s { files = files' })

unfoldable pub alloc_fd : ℕ → M (Option ℕ)
alloc_fd f s = elim (fdalloc f s.ofile) [
  | none ↦ ok none s
  | some (fd, ofile') ↦ ok (some fd) (record s { ofile = ofile' })
]

-- `myproc()->ofile[fd] = 0`
unfoldable pub clear_fd : ℕ → M (Unit {0})
clear_fd fd s = ok tt (record s { ofile = modify s.ofile fd (λ _. none) })

unfoldable pub dup_file : ℕ → M (Unit {0})
dup_file f s = elim (filedup f s.files) [
  | none ↦ panic
  | some files' ↦ ok tt (record s { files = files' })
]

-- What `fileclose` does after it has released the table's lock.
unfoldable pub finish_close : Closing → M (Unit {0})
unfolding begin_op iput_at end_op
finish_close nothing = pure tt
finish_close (pipe_close p w) = λ s. ok tt (record s { closed_pipes = (p, w) ∷ s.closed_pipes })
finish_close (inode_put i) = do begin_op; iput_at i; end_op

unfoldable pub close_entry : ℕ → M Closing
close_entry f s = elim (fileclose f s.files) [
  | none ↦ panic
  | some (c, files') ↦ ok c (record s { files = files' })
]

unfoldable pub close_file : ℕ → M (Unit {0})
unfolding close_entry finish_close
close_file f = do c ← close_entry f; finish_close c
