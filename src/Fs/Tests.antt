-- ===== src/Fs/Tests.antt =====
-- A file system of 100 blocks whose free map is block 2, and a file of 1000 bytes in blocks 5 and 6.
use mathlib.Core.Path.{subst}
use sofinal_project.Prelude.{
  ℕ, zero, suc, ◌+◌, ◌*◌, ◌<◌, ◌≡◌, ◌≢◌, refl, true, false, Option, none, some, [], ◌∷◌, arith,
  ◌==◌, if◌then◌else◌,
}
use sofinal_project.Inode.{Inode}
use sofinal_project.Fs.{
  Fs, balloc, balloc_blocks, balloc_bits, bfree, bzero, mark_used, bsize, bblock,
}
use sofinal_project.Fs.Inodes.{iupdate, put_addrs, ilock, itrunc, free_direct, free_indirect, bmap}
use sofinal_project.CString.{strncmp, strncpy, pad_zero}
use sofinal_project.Fs.Data.{readi, writei, readi_loop, bytes_from, writei_loop, put_bytes, grow}
use sofinal_project.Fs.Dirs.{dirlookup, dirlookup_loop, read_entry, empty_entry, dirlink}
use sofinal_project.Fs.Bitmap.{flag, taken}
use sofinal_project.Fs.Release.{bfree-balloc}
use sofinal_project.Fs.Layout.{IsInode, ilock-iupdate}
use sofinal_project.Fs.Contents.{IsFile, block_at, byte_at, content, readi-content}
use sofinal_project.File.{File, fd_inode}
use sofinal_project.Fs.Allocation.{Allocates, balloc-Allocates}
use sofinal_project.Fs.Files.{filewrite}
use sofinal_project.Fs.Rounds.{filewrite-Written}
use sofinal_project.Fs.Writing.{Written, readi-writei}

abbrev disk : Fs
disk = record {
  blocks = λ b i. if b == 2 then if i == 0 then 127 else 0 else b + i;
  size = 100;
  ninodes = 16;
  inodestart = 3;
  bmapstart = 2;
}

abbrev file : Inode
file = record {
  dev = 1;
  inum = 9;
  ref = 1;
  valid = true;
  type = 2;
  major = 0;
  minor = 0;
  nlink = 1;
  size = 1000;
  addrs = 5 ∷ 6 ∷ 0 ∷ 0 ∷ 0 ∷ 0 ∷ 0 ∷ 0 ∷ 0 ∷ 0 ∷ 0 ∷ 0 ∷ 0 ∷ [];
}

first_free : balloc disk ≡ some (7, taken 7 disk)
unfolding balloc balloc_blocks balloc_bits
first_free = refl

disk_owned : (x : ℕ) → x < 100 → flag disk (bblock disk x) ≢ 0
disk_owned x h e =
    let in_block : bblock disk x ≡ 2 = omega (arith, h) in
    let set : flag disk 2 ≡ 0 = subst (λ b. flag disk b ≡ 0) in_block e in omega (arith, set)

balloc-Allocates_example : Allocates disk (balloc disk)
balloc-Allocates_example = balloc-Allocates disk disk_owned

bfree-balloc_example : bfree 7 (taken 7 disk) ≡ some (bzero 7 disk)
bfree-balloc_example = bfree-balloc disk 7 (taken 7 disk) disk_owned first_free

file-IsInode : IsInode file
file-IsInode = record {
  type_in = omega arith;
  type_ne = λ e. omega (arith, e);
  major_in = omega arith;
  minor_in = omega arith;
  nlink_in = omega arith;
  size_in = omega arith;
  addrs_in = (
    omega arith,
    (
      omega arith,
      (
        omega arith,
        (
          omega arith,
          (
            omega arith,
            (
              omega arith,
              (
                omega arith,
                (
                  omega arith,
                  (omega arith, (omega arith, (omega arith, (omega arith, (omega arith, tt))))),
                ),
              ),
            ),
          ),
        ),
      ),
    ),
  );
  thirteen = refl;
  held = omega arith;
}

ilock-iupdate_example : ilock (iupdate file disk) (record file { valid = false }) ≡ some file
ilock-iupdate_example = ilock-iupdate file disk file-IsInode

file-mapped : (bn : ℕ) → bn * bsize < 1000 → block_at file disk bn ≢ 0
file-mapped zero h e = omega (arith, e)
file-mapped (suc zero) h e = omega (arith, e)
file-mapped (suc (suc bn)) h e = omega (arith, h)

file-apart :
    (bn bn' : ℕ)
    → bn * bsize < 1000
    → bn' * bsize < 1000
    → block_at file disk bn ≡ block_at file disk bn'
    → bn ≡ bn'
file-apart zero zero h h' e = refl
file-apart zero (suc zero) h h' e = absurd (omega (arith, e))
file-apart (suc zero) zero h h' e = absurd (omega (arith, e))
file-apart (suc zero) (suc zero) h h' e = refl
file-apart (suc (suc bn)) bn' h h' e = absurd (omega (arith, h))
file-apart zero (suc (suc bn')) h h' e = absurd (omega (arith, h'))
file-apart (suc zero) (suc (suc bn')) h h' e = absurd (omega (arith, h'))

file-IsFile : IsFile file disk
file-IsFile = record {
  not_device = λ e. omega (arith, e);
  small = omega arith;
  mapped = file-mapped;
  indirect = λ l. omega (arith, l);
  apart = file-apart;
  indirect_apart = λ bn h l. absurd (omega (arith, l));
}

readi-content_example :
    readi none 510 700 file disk ≡ some (some (content (byte_at file disk) 510 490), file, disk)
readi-content_example = readi-content none 510 700 file disk file-IsFile (omega arith) (omega arith)

readi-writei_example :
    (fs' : Fs) × (writei none 511 (1 ∷ 2 ∷ []) file disk ≡ some (some 2, file, fs'))
    × (readi none 511 2 file fs' ≡ some (some (1 ∷ 2 ∷ []), file, fs'))
readi-writei_example = readi-writei none none 511 (1 ∷ 2 ∷ []) file disk file-IsFile (omega arith)

-- An empty directory in the inode `file`, and what `dirlink` and `dirlookup` make of it.
abbrev folder : Inode
folder = record file { type = 1; size = 0 }

abbrev linked_twice : Option (Option (ℕ × ℕ))
linked_twice = elim (dirlink (97 ∷ []) 11 folder disk) [
  | none ↦ none
  | some (r, dp, fs) ↦ elim (dirlink (98 ∷ []) 12 dp fs) [
    | none ↦ none
    | some (r', dp', fs') ↦ elim (dirlookup (98 ∷ []) dp' fs') [
      | none ↦ none
      | some (where_, dp'', fs'') ↦ some where_
    ]
  ]
]

linked_twice_lem : linked_twice ≡ some (some (12, 16))
unfolding dirlink dirlookup dirlookup_loop read_entry empty_entry readi readi_loop bytes_from writei
    writei_loop put_bytes grow bmap balloc balloc_blocks balloc_bits mark_used bzero iupdate
    put_addrs strncmp strncpy pad_zero
linked_twice_lem = refl

abbrev truncated : Option (ℕ × ℕ)
truncated = elim (itrunc file disk) [ none ↦ none | some (ip, fs) ↦ some (ip.size, fs.blocks 2 0) ]

truncated_lem : truncated ≡ some (0, 31)
unfolding itrunc free_direct free_indirect bfree iupdate
truncated_lem = refl

abbrev opened : File
opened = record {
  type = fd_inode;
  ref = 1;
  readable = true;
  writable = true;
  pipe = 0;
  ip = 0;
  off = 511;
}

filewrite-Written_example :
    (fs' : Fs) × (filewrite none (λ n. none) (1 ∷ 2 ∷ []) opened file disk
      ≡ some (some 2, record opened { off = 513 }, file, fs'))
    × Written file 511 (1 ∷ 2 ∷ []) disk fs'
filewrite-Written_example =
    filewrite-Written none (λ n. none) (1 ∷ 2 ∷ []) opened file disk refl refl (omega arith, refl)
      file-IsFile (omega arith)
