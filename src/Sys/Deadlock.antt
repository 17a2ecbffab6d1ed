-- ===== src/Sys/Deadlock.antt =====
-- `dirlink` of a name that stands in the directory for the directory itself.
use sofinal_project.Prelude.{ℕ, ◌≡◌, refl, ap, ◌∙◌, true, Option, some, List, get_elem?, modify}
use sofinal_project.Inode.{Inode, iget}
use sofinal_project.Fs.{Fs}
use sofinal_project.Fs.Dirs.{dirlookup, dirlink, taken}
use sofinal_project.Sys.{
  Sys, ok, stuck, when, ◌>>=◌, from_inode, continue, mem, with_inode, from_inode, iget_at, iput_at,
}
use sofinal_project.Sys.Names.{dirlink_at, put_taken}

from_inode-at :
    {A : Type 0} (i : ℕ) (f : Inode → A) (s : Sys) (ip : Inode)
    → get_elem? s.inodes i ≡ some ip
    → from_inode i f s ≡ ok (f ip) s
unfolding from_inode
from_inode-at i f s ip there = rw (from_inode, there) refl

with_inode-at :
    {A : Type 0} (i : ℕ) (f : Inode → Fs → Option (A × Inode × Fs)) (s : Sys) (ip : Inode) (a : A)
    (ip' : Inode) (fs' : Fs)
    → get_elem? s.inodes i ≡ some ip
    → f ip s.fs ≡ some (a, ip', fs')
    → with_inode i f s ≡ ok a (record s { inodes = modify s.inodes i (λ _. ip'); fs = fs' })
unfolding with_inode
with_inode-at i f s ip a ip' fs' there e = rw (with_inode, there, e) refl

dirlink-taken :
    (name : List ℕ) (inum i off : ℕ) (dp dp' : Inode) (fs fs' : Fs)
    → dirlookup name dp fs ≡ some (some (i, off), dp', fs')
    → dirlink name inum dp fs ≡ some (taken i, dp', fs')
unfolding dirlink
dirlink-taken name inum i off dp dp' fs fs' e = rw (dirlink, e) refl

put_taken-stuck :
    (s : Sys) (dev inum i : ℕ) (inodes' : List Inode)
    → iget dev inum s.inodes ≡ some (i, inodes')
    → mem i s.held ≡ true
    → put_taken dev (taken inum) s ≡ stuck
unfolding iget_at iput_at
put_taken-stuck s dev inum i inodes' gets holds = rw (gets, continue, when, holds) refl

-- `dirlink` never returns when the name is there already with the number of the directory itself, as is `.`: it
-- waits for the sleep lock of the directory, which its own process holds. The directory stands in slot `d`, where
-- `iget` finds it.
pub dirlink_at-stuck :
    (s : Sys) (d : ℕ) (dp dp' : Inode) (fs' : Fs) (inodes' : List Inode) (name : List ℕ)
    (inum off : ℕ)
    → get_elem? s.inodes d ≡ some dp
    → mem d s.held ≡ true
    → dirlookup name dp s.fs ≡ some (some (dp.inum, off), dp', fs')
    → iget dp.dev dp.inum (modify s.inodes d (λ _. dp')) ≡ some (d, inodes')
    → dirlink_at d name inum s ≡ stuck
unfolding dirlink_at
dirlink_at-stuck s d dp dp' fs' inodes' name inum off there holds found gets =
    ap (continue (λ dev. with_inode d (dirlink name inum) >>= put_taken dev))
      (from_inode-at d (λ ip. ip.dev) s dp there)
    ∙ ap (continue (put_taken dp.dev)) (
        with_inode-at d (dirlink name inum) s dp (taken dp.inum) dp' fs' there
          (dirlink-taken name inum dp.inum off dp dp' s.fs fs' found))
    ∙ put_taken-stuck (record s { inodes = modify s.inodes d (λ _. dp'); fs = fs' }) dp.dev dp.inum
        d inodes' gets holds
