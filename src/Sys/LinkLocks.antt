-- ===== src/Sys/LinkLocks.antt =====
-- `sys_link` and `sys_unlink` give back their locks and end their operations.
use sofinal_project.Prelude.{ℕ, ◌+◌, false, not, Option, some, List, ◌∷◌, ◌==◌}
use sofinal_project.Sys.{M, pure, ◌>>◌, updated, end_op}
use sofinal_project.Sys.Locks.{
  Ctx, Takes, bind-Takes, when-Takes, maybe-Takes, pure-Takes, fail-Takes, begin_op-Takes,
  end_op-Takes, with_inode-Takes, from_inode-Takes, ilock_at-Takes, iunlock_at-Takes, iput_at-Takes,
  iunlockput_at-Takes, iunlockput_at-below,
}
use sofinal_project.Sys.NameLocks.{
  dirlookup_at-Takes, dirlink_at-Takes, namei-Takes, nameiparent-Takes,
}
use sofinal_project.Fs.Dirs.{t_dir}
use sofinal_project.Sys.Calls.{
  Code, failed, end_failed, put_failed, add_link, drop_link, unlinked, linked_in, link_to, sys_link,
  isdirempty, clear_entry, is_dots, is_full_dir, has_no_link, unlink_entry, sys_unlink,
}

-- No lock is held, and the process is in the operation that it has begun last.
abbrev pub Ends : List ℕ → ℕ → List ℕ → M Code → Type 0
Ends held n h m = Takes (held, n + 1) m (λ x. (h, n))

pub end_failed-Ends : (h : List ℕ) (n : ℕ) → Ends h n h end_failed
end_failed-Ends h n = bind-Takes (end_op-Takes h n) (λ u. pure-Takes (h, n) failed)

pub put_failed-Ends : (h : List ℕ) (n i : ℕ) → Ends (i ∷ h) n h (put_failed i)
put_failed-Ends h n i = bind-Takes (iunlockput_at-Takes h (n + 1) i) (λ u. end_failed-Ends h n)

-- The end of a call that has succeeded.
pub done-Ends : (h : List ℕ) (n : ℕ) (c : Code) → Ends h n h (do end_op; pure c)
done-Ends h n c = bind-Takes (end_op-Takes h n) (λ u. pure-Takes (h, n) c)

unlinked-Ends : (h : List ℕ) (n i : ℕ) → Ends h n h (unlinked i)
unfolding unlinked
unlinked-Ends h n i = bind-Takes (ilock_at-Takes h (n + 1) i) (λ u.
    bind-Takes (with_inode-Takes (i ∷ h, n + 1) i (updated drop_link)) (λ u. put_failed-Ends h n i))

linked_in-Takes : (c : Ctx) (d : ℕ) (name : List ℕ) (i : ℕ) → Takes c (linked_in d name i) (λ x. c)
linked_in-Takes c d name i = bind-Takes (from_inode-Takes c d (λ ip. ip.dev)) (λ dev.
    bind-Takes (from_inode-Takes c i (λ ip. ip.dev)) (λ dev'.
      bind-Takes (from_inode-Takes c i (λ ip. ip.inum)) (λ inum.
        when-Takes (not (dev == dev')) (pure-Takes c false) (dirlink_at-Takes c d name inum))))

link_to-Ends : (h : List ℕ) (n i : ℕ) (new : List ℕ) → Ends h n h (link_to i new)
unfolding link_to
link_to-Ends h n i new = bind-Takes (nameiparent-Takes h (n + 1) new) (λ found.
    maybe-Takes found (unlinked-Ends h n i) (λ parent.
      bind-Takes (ilock_at-Takes h (n + 1) parent.0) (λ u.
        bind-Takes (linked_in-Takes (parent.0 ∷ h, n + 1) parent.0 parent.1 i) (λ done.
          bind-Takes (iunlockput_at-Takes h (n + 1) parent.0) (λ u.
            when-Takes (not done) (unlinked-Ends h n i)
              (bind-Takes (iput_at-Takes (h, n + 1) i) (λ u. done-Ends h n (some 0))))))))

pub sys_link-Takes : (c : Ctx) (old new : Option (List ℕ)) → Takes c (sys_link old new) (λ x. c)
unfolding sys_link
sys_link-Takes (h, n) old new = maybe-Takes old (pure-Takes (h, n) failed) (λ old.
    maybe-Takes new (pure-Takes (h, n) failed) (λ new. bind-Takes (begin_op-Takes h n) (λ u.
      bind-Takes (namei-Takes h (n + 1) old) (λ found. maybe-Takes found (end_failed-Ends h n) (λ i.
        bind-Takes (ilock_at-Takes h (n + 1) i) (λ u.
          bind-Takes (from_inode-Takes (i ∷ h, n + 1) i (λ ip. ip.type)) (λ type.
            when-Takes (type == t_dir) (put_failed-Ends h n i) (
              bind-Takes (with_inode-Takes (i ∷ h, n + 1) i (updated add_link)) (λ u.
                bind-Takes (iunlock_at-Takes h (n + 1) i) (λ u. link_to-Ends h n i new))))))))))

is_full_dir-Takes : (c : Ctx) (i : ℕ) → Takes c (is_full_dir i) (λ x. c)
is_full_dir-Takes c i = bind-Takes (from_inode-Takes c i (λ ip. ip.type)) (λ type.
    when-Takes (not (type == t_dir)) (pure-Takes c false)
      (bind-Takes (with_inode-Takes c i isdirempty) (λ empty. pure-Takes c (not empty))))

unlink_entry-Ends : (h : List ℕ) (n d i off : ℕ) → Ends (i ∷ d ∷ h) n h (unlink_entry d i off)
unfolding unlink_entry
unlink_entry-Ends h n d i off =
    let c : Ctx = (i ∷ d ∷ h, n + 1) in
    bind-Takes (from_inode-Takes c i (λ ip. ip.nlink)) (λ nlink.
      bind-Takes (when-Takes (has_no_link nlink) (fail-Takes c (λ x. c)) (is_full_dir-Takes c i))
        (λ full.
          when-Takes full
            (bind-Takes (iunlockput_at-Takes (d ∷ h) (n + 1) i) (λ u. put_failed-Ends h n d))
            (bind-Takes (with_inode-Takes c d (clear_entry off)) (λ u.
              bind-Takes (from_inode-Takes c i (λ ip. ip.type)) (λ type.
                bind-Takes
                  (when-Takes (type == t_dir) (with_inode-Takes c d (updated drop_link))
                    (pure-Takes c tt))
                  (λ u. bind-Takes (iunlockput_at-below h (n + 1) d i) (λ u.
                    bind-Takes (with_inode-Takes (i ∷ h, n + 1) i (updated drop_link)) (λ u.
                      bind-Takes (iunlockput_at-Takes h (n + 1) i)
                        (λ u. done-Ends h n (some 0))))))))))

pub sys_unlink-Takes : (c : Ctx) (path : Option (List ℕ)) → Takes c (sys_unlink path) (λ x. c)
unfolding sys_unlink
sys_unlink-Takes (h, n) path = maybe-Takes path (pure-Takes (h, n) failed) (λ path.
    bind-Takes (begin_op-Takes h n) (λ u. bind-Takes (nameiparent-Takes h (n + 1) path) (λ found.
      maybe-Takes found (end_failed-Ends h n) (λ parent.
        bind-Takes (ilock_at-Takes h (n + 1) parent.0) (λ u.
          when-Takes (is_dots parent.1) (put_failed-Ends h n parent.0) (
            bind-Takes (dirlookup_at-Takes (parent.0 ∷ h, n + 1) parent.0 parent.1) (λ entry.
              maybe-Takes entry (put_failed-Ends h n parent.0) (λ e.
                bind-Takes (ilock_at-Takes (parent.0 ∷ h) (n + 1) e.0)
                  (λ u. unlink_entry-Ends h n parent.0 e.0 e.1)))))))))
