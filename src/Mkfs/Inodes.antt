-- ===== src/Mkfs/Inodes.antt =====
-- The inodes that mkfs.c writes, as the kernel's `ilock` loads them.
use sofinal_project.Prelude.{◌≡◌, refl, true, false, some}
use sofinal_project.Inode.{Inode}
use sofinal_project.Fs.Inodes.{iupdate, ilock}
use sofinal_project.Fs.Layout.{IsInode, ilock-iupdate}
use sofinal_project.Mkfs.{Image, Dinode, put_dinode, winode}

-- The part of an inode that is on the disk.
abbrev pub dinode_of : Inode → Dinode
dinode_of ip = record {
  type = ip.type;
  major = ip.major;
  minor = ip.minor;
  nlink = ip.nlink;
  size = ip.size;
  addrs = ip.addrs;
}

winode-iupdate :
    (ip : Inode) (img : Image) → (winode ip.inum (dinode_of ip) img).fs ≡ iupdate ip img.fs
unfolding winode put_dinode iupdate
winode-iupdate ip img = refl

-- What mkfs writes as an inode, the kernel loads with the same fields when it locks an entry of its cache
-- that is not valid, for a type other than 0, fields that fit their places and 13 addresses.
pub ilock-winode :
    (ip : Inode) (img : Image)
    → IsInode ip
    → ilock (winode ip.inum (dinode_of ip) img).fs (record ip { valid = false })
      ≡ some (record ip { valid = true })
ilock-winode ip img h = rw (winode-iupdate ip img) (ilock-iupdate ip img.fs h)
