-- ===== src/Sys/NameLocks.antt =====
-- The lookup of path names gives back the sleep locks that it takes.
use sofinal_project.Prelude.{
  ℕ, zero, suc, Bool, true, false, ◌&&◌, not, none, some, List, ◌∷◌, length, ◌==◌,
}
use sofinal_project.Path.{skipelem}
use sofinal_project.Fs.Dirs.{t_dir, Linked, taken, linked, dirlookup, dirlink}
use sofinal_project.Sys.Names.{
  dirlookup_at, put_taken, dirlink_at, is_nil, give_up, at_end, namex_loop, is_absolute, namex,
  no_name, namei, nameiparent,
}
use sofinal_project.Sys.Locks.{
  Ctx, Takes, bind-Takes, when-Takes, maybe-Takes, pure-Takes, gets-Takes, with_inode-Takes,
  from_inode-Takes, iget_at-Takes, idup_at-Takes, ilock_at-Takes, iunlock_at-Takes, iput_at-Takes,
  iunlockput_at-Takes,
}

pub dirlookup_at-Takes :
    (c : Ctx) (dp : ℕ) (name : List ℕ) → Takes c (dirlookup_at dp name) (λ x. c)
unfolding dirlookup_at
dirlookup_at-Takes c dp name = bind-Takes (from_inode-Takes c dp (λ ip. ip.dev)) (λ dev.
    bind-Takes (with_inode-Takes c dp (dirlookup name)) (λ found.
      maybe-Takes found (pure-Takes c none) (λ entry.
        bind-Takes (iget_at-Takes c dev entry.0) (λ i. pure-Takes c (some (i, entry.1))))))

put_taken-Takes : (c : Ctx) (dev : ℕ) (done : Linked) → Takes c (put_taken dev done) (λ x. c)
put_taken-Takes c dev linked = pure-Takes c true
put_taken-Takes c dev (taken inum) =
    bind-Takes (iget_at-Takes c dev inum)
      (λ i. bind-Takes (iput_at-Takes c i) (λ u. pure-Takes c false))

pub dirlink_at-Takes :
    (c : Ctx) (dp : ℕ) (name : List ℕ) (inum : ℕ) → Takes c (dirlink_at dp name inum) (λ x. c)
unfolding dirlink_at
dirlink_at-Takes c dp name inum = bind-Takes (from_inode-Takes c dp (λ ip. ip.dev)) (λ dev.
    bind-Takes (with_inode-Takes c dp (dirlink name inum)) (λ done. put_taken-Takes c dev done))

give_up-Takes : (h : List ℕ) (n i : ℕ) → Takes (i ∷ h, n) (give_up i) (λ x. (h, n))
give_up-Takes h n i = bind-Takes (iunlockput_at-Takes h n i) (λ u. pure-Takes (h, n) none)

at_end-Takes :
    (c : Ctx) (parent : Bool) (name : List ℕ) (i : ℕ) → Takes c (at_end parent name i) (λ x. c)
at_end-Takes c true name i = bind-Takes (iput_at-Takes c i) (λ u. pure-Takes c none)
at_end-Takes c false name i = pure-Takes c (some (i, name))

namex_loop-Takes :
    (f : ℕ) (h : List ℕ) (n : ℕ) (parent : Bool) (path name : List ℕ) (i : ℕ)
    → Takes (h, n) (namex_loop f parent path name i) (λ x. (h, n))
unfolding namex_loop
namex_loop-Takes zero h n parent path name i = pure-Takes (h, n) none
namex_loop-Takes (suc f) h n parent path name i =
    maybe-Takes (skipelem path name) (at_end-Takes (h, n) parent name i) (λ elem.
      bind-Takes (ilock_at-Takes h n i) (λ u.
        bind-Takes (from_inode-Takes (i ∷ h, n) i (λ ip. ip.type)) (λ type.
          when-Takes (not (type == t_dir)) (give_up-Takes h n i) (
            when-Takes (parent && is_nil elem.0)
              (bind-Takes (iunlock_at-Takes h n i) (λ u. pure-Takes (h, n) (some (i, elem.1))))
              (bind-Takes (dirlookup_at-Takes (i ∷ h, n) i elem.1) (λ found.
                maybe-Takes found (give_up-Takes h n i) (λ next.
                  bind-Takes (iunlockput_at-Takes h n i)
                    (λ u. namex_loop-Takes f h n parent elem.0 elem.1 next.0))))))))

pub namex-Takes :
    (h : List ℕ) (n : ℕ) (parent : Bool) (path name : List ℕ)
    → Takes (h, n) (namex parent path name) (λ x. (h, n))
unfolding namex
namex-Takes h n parent path name = bind-Takes (gets-Takes (h, n) (λ s. s.cwd)) (λ cwd.
    bind-Takes (when-Takes (is_absolute path) (iget_at-Takes (h, n) 1 1) (idup_at-Takes (h, n) cwd))
      (λ i. namex_loop-Takes (suc (length path)) h n parent path name i))

pub namei-Takes : (h : List ℕ) (n : ℕ) (path : List ℕ) → Takes (h, n) (namei path) (λ x. (h, n))
unfolding namei
namei-Takes h n path =
    bind-Takes (namex-Takes h n false path no_name)
      (λ found. maybe-Takes found (pure-Takes (h, n) none) (λ f. pure-Takes (h, n) (some f.0)))

pub nameiparent-Takes :
    (h : List ℕ) (n : ℕ) (path : List ℕ) → Takes (h, n) (nameiparent path) (λ x. (h, n))
unfolding nameiparent
nameiparent-Takes h n path = namex-Takes h n true path no_name
