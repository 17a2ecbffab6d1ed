-- ===== src/Sys/DescriptorLocks.antt =====
-- The calls on descriptors give back their locks and end their operations.
use sofinal_project.Prelude.{
  ℕ, zero, suc, ◌+◌, ◌/◌, inl, inr, Bool, true, false, not, Option, none, some, List, ◌∷◌, length,
  get_elem?, ◌==◌, if◌then◌else◌, take, drop, min, Option-cases,
}
use sofinal_project.File.{File, FileType, fd_none, fd_pipe, fd_inode, filedup}
use sofinal_project.Inode.{stati}
use sofinal_project.Kalloc.{Kmem}
use sofinal_project.Pipe.{NewPipe, pipealloc}
use sofinal_project.Fs.Data.{readi, writei}
use sofinal_project.Fs.Files.{max_write, advance}
use sofinal_project.Sys.{M}
use sofinal_project.Sys.Locks.{
  Ctx, After, Takes, bind-Takes, when-Takes, maybe-Takes, pure-Takes, fail-Takes, begin_op-Takes,
  end_op-Takes, with_inode-Takes, from_inode-Takes, ilock_at-Takes, iunlock_at-Takes,
}
use sofinal_project.Sys.Tables.{clear_fd, dup_file}
use sofinal_project.Sys.Calls.{failed}
use sofinal_project.Sys.Descriptors.{
  find_fd, file_at, sys_dup, sys_close, read_on, read_inode, fileread_at, sys_read, write_round,
  write_loop, filewrite_at, sys_write, filestat_at, sys_fstat, alloc_pipe, drop_pipe, pipe_fds,
  sys_pipe,
}
use sofinal_project.Sys.OpenLocks.{alloc_fd-Takes, set_file-Takes, close_file-Takes}

find_fd-Takes : (c : Ctx) (num : Option ℕ) → Takes c (find_fd num) (λ x. c)
unfolding find_fd
find_fd-Takes c none = record { after = λ s e. e }
find_fd-Takes c (some fd) = record {
  after = λ s e. elim (Option-cases (get_elem? s.ofile fd)) [
    | inl outside ↦ rw (After, outside) e
    | inr (none, closed) ↦ rw (After, closed) e
    | inr (some f, opened) ↦ rw (After, opened) e
  ];
}

file_at-Takes : (c : Ctx) (f : ℕ) → Takes c (file_at f) (λ x. c)
unfolding file_at
file_at-Takes c f = record {
  after = λ s e. elim (Option-cases (get_elem? s.files f)) [
    | inl outside ↦ rw (After, outside) tt
    | inr (file, there) ↦ rw (After, there) e
  ];
}

clear_fd-Takes : (c : Ctx) (fd : ℕ) → Takes c (clear_fd fd) (λ x. c)
unfolding clear_fd
clear_fd-Takes c fd = record { after = λ s e. e }

dup_file-Takes : (c : Ctx) (f : ℕ) → Takes c (dup_file f) (λ x. c)
unfolding dup_file
dup_file-Takes c f = record {
  after = λ s e. elim (Option-cases (filedup f s.files)) [
    | inl panics ↦ rw (After, panics) tt
    | inr (files', dups) ↦ rw (After, dups) e
  ];
}

pub sys_dup-Takes : (c : Ctx) (num : Option ℕ) → Takes c (sys_dup num) (λ x. c)
unfolding sys_dup
sys_dup-Takes c num = bind-Takes (find_fd-Takes c num) (λ old.
    maybe-Takes old (pure-Takes c failed) (λ o. bind-Takes (alloc_fd-Takes c o.1) (λ new.
      maybe-Takes new (pure-Takes c failed)
        (λ fd. bind-Takes (dup_file-Takes c o.1) (λ u. pure-Takes c (some fd))))))

pub sys_close-Takes : (c : Ctx) (num : Option ℕ) → Takes c (sys_close num) (λ x. c)
unfolding sys_close
sys_close-Takes c num = bind-Takes (find_fd-Takes c num) (λ old.
    maybe-Takes old (pure-Takes c failed) (λ o.
      bind-Takes (clear_fd-Takes c o.0)
        (λ u. bind-Takes (close_file-Takes c o.1) (λ u. pure-Takes c (some 0)))))

read_on-Takes : (c : Ctx) (f : ℕ) (bytes : Option (List ℕ)) → Takes c (read_on f bytes) (λ x. c)
read_on-Takes c f none = pure-Takes c tt
read_on-Takes c f (some bytes) = set_file-Takes c f (advance (length bytes))

read_inode-Takes :
    (c : Ctx) (device : Option (List ℕ)) (n f : ℕ) (file : File)
    → Takes c (read_inode device n f file) (λ x. c)
unfolding read_inode
read_inode-Takes (h, k) device n f file =
    let c : Ctx = (file.ip ∷ h, k) in
    bind-Takes (ilock_at-Takes h k file.ip) (λ u.
      bind-Takes (with_inode-Takes c file.ip (readi device file.off n)) (λ bytes.
        bind-Takes (read_on-Takes c f bytes)
          (λ u. bind-Takes (iunlock_at-Takes h k file.ip) (λ u. pure-Takes (h, k) bytes))))

by_type-Takes :
    {A : Type 0} {c : Ctx} {d : A → Ctx} {p i n : M A} (t : FileType)
    → Takes c p d
    → Takes c i d
    → Takes c n d
    → Takes c (elim t [ fd_pipe ↦ p | fd_inode ↦ i | fd_none ↦ n ]) d
by_type-Takes fd_pipe h k l = h
by_type-Takes fd_inode h k l = k
by_type-Takes fd_none h k l = l

fileread_at-Takes :
    (c : Ctx) (piped device : Option (List ℕ)) (n f : ℕ)
    → Takes c (fileread_at piped device n f) (λ x. c)
unfolding fileread_at
fileread_at-Takes c piped device n f = bind-Takes (file_at-Takes c f) (λ file.
    when-Takes (not file.readable) (pure-Takes c none) (
      by_type-Takes file.type (pure-Takes c piped) (read_inode-Takes c device n f file)
        (fail-Takes c (λ x. c))))

pub sys_read-Takes :
    (c : Ctx) (piped device : Option (List ℕ)) (num n : Option ℕ)
    → Takes c (sys_read piped device num n) (λ x. c)
unfolding sys_read
sys_read-Takes c piped device num n = bind-Takes (find_fd-Takes c num) (λ fd.
    maybe-Takes fd (pure-Takes c none)
      (λ o. maybe-Takes n (pure-Takes c none) (λ n. fileread_at-Takes c piped device n o.1)))

write_round-Takes :
    (c : Ctx) (device : Option ℕ) (cs : List ℕ) (f : ℕ) → Takes c (write_round device cs f) (λ x. c)
unfolding write_round
write_round-Takes (h, k) device cs f = bind-Takes (file_at-Takes (h, k) f) (λ file.
    let c : Ctx = (file.ip ∷ h, k + 1) in
    bind-Takes (begin_op-Takes h k) (λ u. bind-Takes (ilock_at-Takes h (k + 1) file.ip) (λ u.
      bind-Takes (with_inode-Takes c file.ip (writei device file.off cs)) (λ r.
        bind-Takes (maybe-Takes r (pure-Takes c tt) (λ r. set_file-Takes c f (advance r))) (λ u.
          bind-Takes (iunlock_at-Takes h (k + 1) file.ip)
            (λ u. bind-Takes (end_op-Takes h k) (λ u. pure-Takes (h, k) r)))))))

write_loop-Takes :
    (k : ℕ) (c : Ctx) (device : ℕ → Option ℕ) (cs : List ℕ) (f : ℕ)
    → Takes c (write_loop k device cs f) (λ x. c)
unfolding write_loop
write_loop-Takes zero c device cs f = pure-Takes c true
write_loop-Takes (suc k) c device cs f =
    let n1 = min (length cs) max_write in
    when-Takes (length cs == 0) (pure-Takes c true) (
      bind-Takes (write_round-Takes c (device n1) (take n1 cs) f) (λ r.
        maybe-Takes r (pure-Takes c false) (λ r.
          when-Takes (not (r == n1)) (fail-Takes c (λ x. c))
            (write_loop-Takes k c device (drop n1 cs) f))))

filewrite_at-Takes :
    (c : Ctx) (piped : Option ℕ) (device : ℕ → Option ℕ) (cs : List ℕ) (f : ℕ)
    → Takes c (filewrite_at piped device cs f) (λ x. c)
unfolding filewrite_at
filewrite_at-Takes c piped device cs f = bind-Takes (file_at-Takes c f) (λ file.
    when-Takes (not file.writable) (pure-Takes c failed) (
      by_type-Takes file.type (pure-Takes c piped)
        (bind-Takes (write_loop-Takes (length cs / max_write + 1) c device cs f)
          (λ done. pure-Takes c (if done then some (length cs) else failed)))
        (fail-Takes c (λ x. c))))

pub sys_write-Takes :
    (c : Ctx) (piped : Option ℕ) (device : ℕ → Option ℕ) (num : Option ℕ) (cs : Option (List ℕ))
    → Takes c (sys_write piped device num cs) (λ x. c)
unfolding sys_write
sys_write-Takes c piped device num cs = bind-Takes (find_fd-Takes c num) (λ fd.
    maybe-Takes fd (pure-Takes c failed)
      (λ o. maybe-Takes cs (pure-Takes c failed) (λ cs. filewrite_at-Takes c piped device cs o.1)))

filestat_at-Takes : (c : Ctx) (f : ℕ) → Takes c (filestat_at f) (λ x. c)
unfolding filestat_at
filestat_at-Takes (h, k) f = bind-Takes (file_at-Takes (h, k) f) (λ file.
    by_type-Takes file.type (pure-Takes (h, k) none)
      (bind-Takes (ilock_at-Takes h k file.ip) (λ u.
        bind-Takes (from_inode-Takes (file.ip ∷ h, k) file.ip stati)
          (λ st. bind-Takes (iunlock_at-Takes h k file.ip) (λ u. pure-Takes (h, k) (some st)))))
      (pure-Takes (h, k) none))

pub sys_fstat-Takes : (c : Ctx) (num : Option ℕ) (st : Bool) → Takes c (sys_fstat num st) (λ x. c)
unfolding sys_fstat
sys_fstat-Takes c num st = bind-Takes (find_fd-Takes c num) (λ fd.
    maybe-Takes fd (pure-Takes c none)
      (λ o. when-Takes (not st) (pure-Takes c none) (filestat_at-Takes c o.1)))

alloc_pipe-Takes : (c : Ctx) (k : Kmem) → Takes c (alloc_pipe k) (λ x. c)
unfolding alloc_pipe
alloc_pipe-Takes c k = record {
  after = λ s e. elim (Option-cases (pipealloc s.files k)) [
    | inl panics ↦ rw (After, panics) tt
    | inr (r, returns) ↦ rw (After, returns) e
  ];
}

drop_pipe-Takes : (c : Ctx) (p : NewPipe) → Takes c (drop_pipe p) (λ x. c)
unfolding drop_pipe
drop_pipe-Takes c p =
    bind-Takes (close_file-Takes c p.reader)
      (λ u. bind-Takes (close_file-Takes c p.writer) (λ u. pure-Takes c none))

pipe_fds-Takes : (c : Ctx) (p : NewPipe) → Takes c (pipe_fds p) (λ x. c)
unfolding pipe_fds
pipe_fds-Takes c p = bind-Takes (alloc_fd-Takes c p.reader) (λ fd0.
    maybe-Takes fd0 (drop_pipe-Takes c p) (λ fd0. bind-Takes (alloc_fd-Takes c p.writer) (λ fd1.
      maybe-Takes fd1 (bind-Takes (clear_fd-Takes c fd0) (λ u. drop_pipe-Takes c p))
        (λ fd1. pure-Takes c (some (fd0, fd1))))))

pub sys_pipe-Takes : (c : Ctx) (room : Bool) (k : Kmem) → Takes c (sys_pipe room k) (λ x. c)
unfolding sys_pipe
sys_pipe-Takes c room k = when-Takes (not room) (pure-Takes c (none, k)) (
    bind-Takes (alloc_pipe-Takes c k) (λ made.
      maybe-Takes made.0 (pure-Takes c (none, made.1))
        (λ p. bind-Takes (pipe_fds-Takes c p) (λ fds. pure-Takes c (fds, made.1)))))
