-- ===== src/Sys/Tests.antt =====
-- A file system with an empty root directory, and calls on it.
use sofinal_project.Prelude.{
  ℕ, ◌≡◌, refl, true, false, Option, none, some, List, [], ◌∷◌, ◌==◌, if◌then◌else◌,
}
use sofinal_project.Inode.{Inode}
use sofinal_project.File.{File, fd_none}
use sofinal_project.Fs.{Fs}
use sofinal_project.Path.{skipelem}
use sofinal_project.Inode.{idup, iget}
use sofinal_project.Fs.Inodes.{ilock, iupdate, ialloc, bmap, bmap_indirect, iput}
use sofinal_project.Fs.{balloc, balloc_blocks, balloc_bits, mark_used, bzero, bfree}
use sofinal_project.Fs.Dirs.{dirlookup, dirlink}
use sofinal_project.Fs.Data.{readi, writei, grow}
use sofinal_project.CString.{strncmp, strncpy}
use sofinal_project.File.{filealloc, fileclose}
use sofinal_project.Fd.{fdalloc}
use sofinal_project.Sys.{Sys, Run, ok, panic, stuck, M, ◌>>◌}
use sofinal_project.Sys.Names.{dirlink_at, namex_loop, no_name}
use sofinal_project.Sys.NameRounds.{namex_loop-enough}
use sofinal_project.Prelude.{arith}
use sofinal_project.Sys.Deadlock.{dirlink_at-stuck}
use sofinal_project.Sys.Calls.{sys_link, sys_unlink}
use sofinal_project.Sys.Creation.{sys_open, sys_mkdir}
use sofinal_project.Sys.Descriptors.{sys_write, sys_close}
use sofinal_project.Sys.Balance.{
  Call, link, unlink, open_path, mkdir, close, write, calls, calls-balanced,
}

-- Blocks 0 to 9 are in use: the inodes are in block 3, the free map is block 2.
abbrev disk : Fs
disk = record {
  blocks = λ b i.
      if b == 2
      then (if i == 0 then 255 else if i == 1 then 3 else 0)
      else if b == 3
      then (if i == 64 then 1 else if i == 70 then 1 else 0)
      else 0;
  size = 40;
  ninodes = 8;
  inodestart = 3;
  bmapstart = 2;
}

abbrev empty_slot : Inode
empty_slot = record {
  dev = 0;
  inum = 0;
  ref = 0;
  valid = false;
  type = 0;
  major = 0;
  minor = 0;
  nlink = 0;
  size = 0;
  addrs = [];
}

-- The process is in the root directory.
abbrev root : Inode
root = record empty_slot { dev = 1; inum = 1; ref = 1 }

abbrev free_file : File
free_file = record {
  type = fd_none;
  ref = 0;
  readable = false;
  writable = false;
  pipe = 0;
  ip = 0;
  off = 0;
}

abbrev booted : Sys
booted = record {
  inodes = root ∷ empty_slot ∷ empty_slot ∷ empty_slot ∷ [];
  fs = disk;
  files = free_file ∷ free_file ∷ [];
  ofile = none ∷ none ∷ [];
  cwd = 0;
  held = [];
  ops = 0;
  closed_pipes = [];
}

-- mkdir("d"); open("d/f", O_CREATE | O_RDWR); write; close; link("d/f", "/g"); unlink("d/f"); open("g")
abbrev session : List Call
session =
    mkdir (some (100 ∷ []))
    ∷ open_path (some (100 ∷ 47 ∷ 102 ∷ [])) (some 0x202)
    ∷ write none (λ n. none) (some 0) (some (104 ∷ 105 ∷ []))
    ∷ close (some 0)
    ∷ link (some (100 ∷ 47 ∷ 102 ∷ [])) (some (47 ∷ 103 ∷ []))
    ∷ unlink (some (100 ∷ 47 ∷ 102 ∷ []))
    ∷ open_path (some (103 ∷ [])) (some 0)
    ∷ []

abbrev state_of : Run (Unit {0}) → Sys
state_of (ok a s) = s
state_of panic = booted
state_of stuck = booted

abbrev after_session : Sys
after_session = state_of (calls session booted)

session_ends : calls session booted ≡ ok tt after_session
unfolding sys_link sys_unlink sys_open sys_mkdir sys_write sys_close skipelem idup iget ilock
    iupdate ialloc bmap bmap_indirect iput balloc balloc_blocks balloc_bits mark_used bzero bfree
    dirlookup dirlink readi writei grow strncmp strncpy filealloc fileclose fdalloc
session_ends = refl

calls-balanced_example : (after_session.held ≡ []) × (after_session.ops ≡ 0)
calls-balanced_example = calls-balanced session booted after_session session_ends

-- link("g", "d/.")
link_of_itself : M (Option ℕ)
link_of_itself = do calls session; sys_link (some (103 ∷ [])) (some (100 ∷ 47 ∷ 46 ∷ []))

waits_for_itself : link_of_itself booted ≡ stuck
unfolding link_of_itself sys_link sys_unlink sys_open sys_mkdir sys_write sys_close skipelem idup
    iget ilock iupdate ialloc bmap bmap_indirect iput balloc balloc_blocks balloc_bits mark_used
    bzero bfree dirlookup dirlink readi writei grow strncmp strncpy filealloc fileclose fdalloc
waits_for_itself = refl

-- A directory in block 10 whose only entry is `.`, locked.
abbrev own_entry : Fs
own_entry = record disk {
  blocks = λ b i. if b == 10 then (if i == 0 then 1 else if i == 2 then 46 else 0) else 0;
}

abbrev own_dir : Inode
own_dir = record root {
  valid = true;
  type = 1;
  nlink = 1;
  size = 16;
  addrs = 10 ∷ 0 ∷ 0 ∷ 0 ∷ 0 ∷ 0 ∷ 0 ∷ 0 ∷ 0 ∷ 0 ∷ 0 ∷ 0 ∷ 0 ∷ [];
}

abbrev locked_dir : Sys
locked_dir = record booted { inodes = own_dir ∷ empty_slot ∷ []; fs = own_entry; held = 0 ∷ [] }

dot_found : dirlookup (46 ∷ []) own_dir own_entry ≡ some (some (1, 0), own_dir, own_entry)
unfolding dirlookup readi bmap strncmp
dot_found = refl

slot_found :
    iget 1 1 (own_dir ∷ empty_slot ∷ []) ≡ some (0, record own_dir { ref = 2 } ∷ empty_slot ∷ [])
unfolding iget
slot_found = refl

dirlink_at-stuck_example : dirlink_at 0 (46 ∷ []) 5 locked_dir ≡ stuck
dirlink_at-stuck_example =
    dirlink_at-stuck locked_dir 0 own_dir own_dir own_entry
      (record own_dir { ref = 2 } ∷ empty_slot ∷ []) (46 ∷ []) 5 0 refl refl dot_found slot_found

namex_loop-enough_example :
    namex_loop 9 false (100 ∷ 47 ∷ 102 ∷ []) no_name 0
    ≡ namex_loop 4 false (100 ∷ 47 ∷ 102 ∷ []) no_name 0
namex_loop-enough_example =
    namex_loop-enough 9 4 false (100 ∷ 47 ∷ 102 ∷ []) no_name 0 (omega arith) (omega arith)
