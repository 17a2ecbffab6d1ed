-- ===== src/Sys/OpenLocks.antt =====
-- `create`, and the calls that use it, give back their locks and end their operations.
use sofinal_project.Prelude.{
  ℕ, ◌+◌, ◌%◌, ◌^◌, Bool, ◌&&◌, not, Option, none, some, List, [], ◌∷◌, ◌==◌, inl, inr,
  Option-cases,
}
use sofinal_project.Sys.{M, pure, ◌>>◌, maybe, updated, end_op, iunlockput_at}
use sofinal_project.Sys.Locks.{
  Ctx, After, Takes, bind-Takes, when-Takes, maybe-Takes, pure-Takes, fail-Takes, gets-Takes,
  begin_op-Takes, end_op-Takes, with_inode-Takes, from_inode-Takes, ialloc_at-Takes, ilock_at-Takes,
  iunlock_at-Takes, iput_at-Takes, iunlockput_at-Takes, iunlockput_at-below,
}
use sofinal_project.Sys.NameLocks.{
  dirlookup_at-Takes, dirlink_at-Takes, namei-Takes, nameiparent-Takes,
}
use sofinal_project.File.{File}
use sofinal_project.Fs.Data.{t_dev}
use sofinal_project.Fs.Dirs.{t_dir}
use sofinal_project.File.{Closing, nothing, pipe_close, inode_put, fileclose}
use sofinal_project.Fd.{fdalloc}
use sofinal_project.Sys.Calls.{Code, failed, end_failed, add_link}
use sofinal_project.Sys.Tables.{alloc_file, alloc_fd, close_file, close_entry, finish_close}
use sofinal_project.Sys.Creation.{
  t_file, existing, must, make_dots, set_device, make_inode, create, mode_bit, open_file, set_file,
  open_inode, open_existing, open_new, sys_open, make_and_put, sys_mkdir, sys_mknod, set_cwd,
  sys_chdir,
}
use sofinal_project.Sys.LinkLocks.{Ends, end_failed-Ends, put_failed-Ends, done-Ends}

pub alloc_file-Takes : (c : Ctx) → Takes c alloc_file (λ x. c)
unfolding alloc_file
alloc_file-Takes c = record { after = λ s e. e }

pub alloc_fd-Takes : (c : Ctx) (f : ℕ) → Takes c (alloc_fd f) (λ x. c)
unfolding alloc_fd
alloc_fd-Takes c f = record {
  after = λ s e. elim (Option-cases (fdalloc f s.ofile)) [
    | inl full ↦ rw (After, full) e
    | inr (r, found) ↦ rw (After, found) e
  ];
}

pub set_file-Takes : (c : Ctx) (f : ℕ) (g : File → File) → Takes c (set_file f g) (λ x. c)
set_file-Takes c f g = record { after = λ s e. e }

close_entry-Takes : (c : Ctx) (f : ℕ) → Takes c (close_entry f) (λ x. c)
unfolding close_entry
close_entry-Takes c f = record {
  after = λ s e. elim (Option-cases (fileclose f s.files)) [
    | inl panics ↦ rw (After, panics) tt
    | inr (r, closes) ↦ rw (After, closes) e
  ];
}

finish_close-Takes : (c : Ctx) (k : Closing) → Takes c (finish_close k) (λ x. c)
unfolding finish_close
finish_close-Takes c nothing = pure-Takes c tt
finish_close-Takes c (pipe_close p w) = record { after = λ s e. e }
finish_close-Takes (h, n) (inode_put i) =
    bind-Takes (begin_op-Takes h n)
      (λ u. bind-Takes (iput_at-Takes (h, n + 1) i) (λ u. end_op-Takes h n))

pub close_file-Takes : (c : Ctx) (f : ℕ) → Takes c (close_file f) (λ x. c)
unfolding close_file
close_file-Takes c f = bind-Takes (close_entry-Takes c f) (λ k. finish_close-Takes c k)

-- An inode that is returned is locked.
abbrev Holding : List ℕ → ℕ → Option ℕ → Ctx
Holding h n none = (h, n)
Holding h n (some i) = (i ∷ h, n)

pure_as : {A : Type 0} (d : A → Ctx) (a : A) → Takes (d a) (pure a) d
pure_as d a = record { after = λ s e. e }

existing-Takes : (h : List ℕ) (n d type i : ℕ) → Takes (d ∷ h, n) (existing d type i) (Holding h n)
unfolding existing
existing-Takes h n d type i = bind-Takes (iunlockput_at-Takes h n d) (λ u.
    bind-Takes (ilock_at-Takes h n i) (λ u.
      bind-Takes (from_inode-Takes (i ∷ h, n) i (λ ip. ip.type)) (λ type'.
        when-Takes (type == t_file && type' == t_file) (pure_as (Holding h n) (some i))
          (bind-Takes (iunlockput_at-Takes h n i) (λ u. pure_as (Holding h n) none)))))

must-Takes : {c : Ctx} {m : M Bool} → Takes c m (λ x. c) → Takes c (must m) (λ x. c)
must-Takes {c} h = bind-Takes h (λ done. when-Takes done (pure-Takes c tt) (fail-Takes c (λ x. c)))

make_dots-Takes : (c : Ctx) (d i : ℕ) → Takes c (make_dots d i) (λ x. c)
unfolding make_dots
make_dots-Takes c d i = bind-Takes (with_inode-Takes c d (updated add_link)) (λ u.
    bind-Takes (from_inode-Takes c i (λ ip. ip.inum)) (λ inum.
      bind-Takes (must-Takes (dirlink_at-Takes c i (46 ∷ []) inum)) (λ u.
        bind-Takes (from_inode-Takes c d (λ ip. ip.inum))
          (λ parent. must-Takes (dirlink_at-Takes c i (46 ∷ 46 ∷ []) parent)))))

make_inode-Takes :
    (h : List ℕ) (n d : ℕ) (name : List ℕ) (type major minor : ℕ)
    → Takes (d ∷ h, n) (make_inode d name type major minor) (Holding h n)
unfolding make_inode
make_inode-Takes h n d name type major minor =
    bind-Takes (from_inode-Takes (d ∷ h, n) d (λ ip. ip.dev)) (λ dev.
      bind-Takes (ialloc_at-Takes (d ∷ h, n) dev type) (λ i.
        bind-Takes (ilock_at-Takes (d ∷ h) n i) (λ u.
          bind-Takes (with_inode-Takes (i ∷ d ∷ h, n) i (updated (set_device major minor))) (λ u.
            bind-Takes
              (when-Takes (type == t_dir) (make_dots-Takes (i ∷ d ∷ h, n) d i)
                (pure-Takes (i ∷ d ∷ h, n) tt))
              (λ u. bind-Takes (from_inode-Takes (i ∷ d ∷ h, n) i (λ ip. ip.inum)) (λ inum.
                bind-Takes (must-Takes (dirlink_at-Takes (i ∷ d ∷ h, n) d name inum)) (λ u.
                  bind-Takes (iunlockput_at-below h n d i)
                    (λ u. pure_as (Holding h n) (some i)))))))))

create-Takes :
    (h : List ℕ) (n : ℕ) (path : List ℕ) (type major minor : ℕ)
    → Takes (h, n) (create path type major minor) (Holding h n)
unfolding create
create-Takes h n path type major minor = bind-Takes (nameiparent-Takes h n path) (λ found.
    maybe-Takes found (pure_as (Holding h n) none) (λ parent.
      bind-Takes (ilock_at-Takes h n parent.0) (λ u.
        bind-Takes (dirlookup_at-Takes (parent.0 ∷ h, n) parent.0 parent.1) (λ entry.
          maybe-Takes entry (make_inode-Takes h n parent.0 parent.1 type major minor)
            (λ e. existing-Takes h n parent.0 type e.0)))))

open_inode-Ends : (h : List ℕ) (n omode i : ℕ) → Ends (i ∷ h) n h (open_inode omode i)
unfolding open_inode
open_inode-Ends h n omode i = bind-Takes (alloc_file-Takes (i ∷ h, n + 1)) (λ slot.
    maybe-Takes slot (put_failed-Ends h n i) (λ f.
      bind-Takes (alloc_fd-Takes (i ∷ h, n + 1) f) (λ fd.
        maybe-Takes fd (bind-Takes (close_file-Takes (i ∷ h, n + 1) f) (λ u. put_failed-Ends h n i))
          (λ fd. bind-Takes (iunlock_at-Takes h (n + 1) i) (λ u. bind-Takes (end_op-Takes h n) (λ u.
            bind-Takes (set_file-Takes (h, n) f (open_file omode i))
              (λ u. pure-Takes (h, n) (some fd))))))))

open_existing-Ends :
    (h : List ℕ) (n omode : ℕ) (path : List ℕ) → Ends h n h (open_existing omode path)
unfolding open_existing
open_existing-Ends h n omode path = bind-Takes (namei-Takes h (n + 1) path) (λ found.
    maybe-Takes found (end_failed-Ends h n) (λ i. bind-Takes (ilock_at-Takes h (n + 1) i) (λ u.
      bind-Takes (from_inode-Takes (i ∷ h, n + 1) i (λ ip. ip.type)) (λ type.
        when-Takes (type == t_dir && not (omode == 0)) (put_failed-Ends h n i)
          (open_inode-Ends h n omode i)))))

-- What follows `create`: nothing is held without an inode, and with one its lock is.
created-Ends :
    (h : List ℕ) (n : ℕ) (f : ℕ → M Code)
    → ((i : ℕ) → Ends (i ∷ h) n h (f i))
    → (made : Option ℕ) → Takes (Holding h (n + 1) made) (maybe made end_failed f) (λ x. (h, n))
created-Ends h n f k none = end_failed-Ends h n
created-Ends h n f k (some i) = k i

open_new-Ends : (h : List ℕ) (n omode : ℕ) (path : List ℕ) → Ends h n h (open_new omode path)
unfolding open_new
open_new-Ends h n omode path =
    bind-Takes (create-Takes h (n + 1) path t_file 0 0)
      (created-Ends h n (open_inode omode) (open_inode-Ends h n omode))

pub sys_open-Takes :
    (c : Ctx) (path : Option (List ℕ)) (omode : Option ℕ) → Takes c (sys_open path omode) (λ x. c)
unfolding sys_open
sys_open-Takes (h, n) path omode = maybe-Takes path (pure-Takes (h, n) failed) (λ path.
    maybe-Takes omode (pure-Takes (h, n) failed) (λ omode. bind-Takes (begin_op-Takes h n) (λ u.
      when-Takes (mode_bit 9 omode) (open_new-Ends h n omode path)
        (open_existing-Ends h n omode path))))

make_and_put-Ends :
    (h : List ℕ) (n : ℕ) (path : List ℕ) (type major minor : ℕ)
    → Ends h n h (make_and_put path type major minor)
unfolding make_and_put
make_and_put-Ends h n path type major minor =
    bind-Takes (create-Takes h (n + 1) path type major minor) (
      created-Ends h n (λ i. do iunlockput_at i; end_op; pure (some 0))
        (λ i. bind-Takes (iunlockput_at-Takes h (n + 1) i) (λ u. done-Ends h n (some 0))))

pub sys_mkdir-Takes : (c : Ctx) (path : Option (List ℕ)) → Takes c (sys_mkdir path) (λ x. c)
unfolding sys_mkdir
sys_mkdir-Takes (h, n) path =
    bind-Takes (begin_op-Takes h n)
      (λ u. maybe-Takes path (end_failed-Ends h n) (λ path. make_and_put-Ends h n path t_dir 0 0))

pub sys_mknod-Takes :
    (c : Ctx) (path : Option (List ℕ)) (major minor : Option ℕ)
    → Takes c (sys_mknod path major minor) (λ x. c)
unfolding sys_mknod
sys_mknod-Takes (h, n) path major minor = bind-Takes (begin_op-Takes h n) (λ u.
    maybe-Takes path (end_failed-Ends h n) (λ path.
      maybe-Takes major (end_failed-Ends h n) (λ major.
        maybe-Takes minor (end_failed-Ends h n)
          (λ minor. make_and_put-Ends h n path t_dev (major % 2 ^ 16) (minor % 2 ^ 16)))))

set_cwd-Takes : (c : Ctx) (i : ℕ) → Takes c (set_cwd i) (λ x. c)
set_cwd-Takes c i = record { after = λ s e. e }

pub sys_chdir-Takes : (c : Ctx) (path : Option (List ℕ)) → Takes c (sys_chdir path) (λ x. c)
unfolding sys_chdir
sys_chdir-Takes (h, n) path = bind-Takes (begin_op-Takes h n) (λ u.
    maybe-Takes path (end_failed-Ends h n) (λ path.
      bind-Takes (namei-Takes h (n + 1) path) (λ found.
        maybe-Takes found (end_failed-Ends h n) (λ i. bind-Takes (ilock_at-Takes h (n + 1) i) (λ u.
          bind-Takes (from_inode-Takes (i ∷ h, n + 1) i (λ ip. ip.type)) (λ type.
            when-Takes (not (type == t_dir)) (put_failed-Ends h n i) (
              bind-Takes (iunlock_at-Takes h (n + 1) i) (λ u.
                bind-Takes (gets-Takes (h, n + 1) (λ s. s.cwd)) (λ old.
                  bind-Takes (iput_at-Takes (h, n + 1) old) (λ u.
                    bind-Takes (end_op-Takes h n) (λ u.
                      bind-Takes (set_cwd-Takes (h, n) i)
                        (λ u. pure-Takes (h, n) (some 0)))))))))))))
