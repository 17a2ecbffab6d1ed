-- ===== src/Mkfs.antt =====
-- mkfs.c: the program that builds the first file system image. The image is the kernel's disk (Fs), with the next
-- free inode and block. `none` is a failed assertion. What the host's calls read are arguments; its writes
-- of whole sectors are taken to succeed.
pub mod Bitmap
pub mod Inodes
mod Tests
use sofinal_project.Prelude.{
  ℕ, zero, suc, ◌+◌, ◌-◌, ◌*◌, ◌/◌, ◌%◌, ◌^◌, Bool, true, false, ◌||◌, Option, none, some, List, [],
  ◌∷◌, ltb, ◌==◌, if◌then◌else◌, update, get_elem?, modify, take, drop, length, min,
}
use sofinal_project.Inode.{Inode}
use sofinal_project.CString.{strncpy}
use sofinal_project.Path.{dirsiz}
use sofinal_project.Fs.{
  Block, Fs, bsize, bpb, ndirect, nindirect, put_block, bit, half_at, word_at, put_half, put_word,
  addr_of, set_addr,
}
use sofinal_project.Fs.Inodes.{iblock, dinode_at, put_addrs, get_addrs}
use sofinal_project.Fs.Data.{max_file, put_bytes}
use sofinal_project.Fs.Dirs.{new_entry}

-- FSSIZE and NINODES
abbrev pub fs_size : ℕ
fs_size = 1000

abbrev pub n_inodes : ℕ
n_inodes = 200

abbrev pub nlog : ℕ
nlog = 30

abbrev pub nbitmap : ℕ
nbitmap = fs_size / bpb + 1

abbrev pub ninodeblocks : ℕ
ninodeblocks = n_inodes / 8 + 1

abbrev pub nmeta : ℕ
nmeta = 2 + nlog + ninodeblocks + nbitmap

pub record Image : Type 0 where
  pub fs : Fs
  pub freeinode : ℕ
  pub freeblock : ℕ

-- `struct dinode`
pub record Dinode : Type 0 where
  pub type : ℕ
  pub major : ℕ
  pub minor : ℕ
  pub nlink : ℕ
  pub size : ℕ
  pub addrs : List ℕ

abbrev pub wsect : ℕ → Block → Image → Image
wsect sec buf img = record img { fs = put_block sec buf img.fs }

-- `xshort` and `xint` give the order of the bytes that `put_half` and `put_word` write.
unfoldable pub put_dinode : Block → ℕ → Dinode → Block
unfolding put_addrs
put_dinode d a din =
    put_addrs
      (put_word
        (put_half (put_half (put_half (put_half d a din.type) (a + 2) din.major) (a + 4) din.minor)
          (a + 6) din.nlink)
        (a + 8) din.size)
      (a + 12) din.addrs

unfoldable pub winode : ℕ → Dinode → Image → Image
unfolding put_dinode
winode inum din img =
    let bn = iblock img.fs inum in wsect bn (put_dinode (img.fs.blocks bn) (dinode_at inum) din) img

unfoldable pub rinode : ℕ → Image → Dinode
unfolding get_addrs
rinode inum img =
    let d = img.fs.blocks (iblock img.fs inum) in
    let a = dinode_at inum in
    record {
      type = half_at d a;
      major = half_at d (a + 2);
      minor = half_at d (a + 4);
      nlink = half_at d (a + 6);
      size = word_at d (a + 8);
      addrs = get_addrs d (a + 12) 13;
    }

abbrev pub no_addrs : List ℕ
no_addrs = 0 ∷ 0 ∷ 0 ∷ 0 ∷ 0 ∷ 0 ∷ 0 ∷ 0 ∷ 0 ∷ 0 ∷ 0 ∷ 0 ∷ 0 ∷ []

unfoldable pub ialloc : ℕ → Image → ℕ × Image
unfolding winode
ialloc type img = (
  img.freeinode,
  winode img.freeinode
      (record { type = type; major = 0; minor = 0; nlink = 1; size = 0; addrs = no_addrs })
      (record img { freeinode = img.freeinode + 1 }),
)

-- `x | (0x1 << k)`
abbrev pub with_bit : ℕ → ℕ → ℕ
with_bit k x = if bit k x == 0 then x + 2 ^ k else x

-- The loop of `balloc` for `n` bits from `i` on.
unfoldable pub mark_bits : ℕ → ℕ → Block → Block
mark_bits zero i buf = buf
mark_bits (suc n) i buf = mark_bits n (i + 1) (update buf (i / 8) (with_bit (i % 8) (buf (i / 8))))

unfoldable pub balloc : ℕ → Image → Option Image
unfolding mark_bits
balloc used img =
    if ltb used (bsize * 8)
    then some (wsect img.fs.bmapstart (mark_bits used 0 (λ i. 0)) img)
    else none

abbrev pub daddr : Dinode → ℕ → ℕ
daddr din i = elim (get_elem? din.addrs i) [ none ↦ 0 | some a ↦ a ]

-- `din.addrs[i]`, which gets the next free block if it has none.
abbrev pub take_addr : ℕ → Dinode → Image → ℕ × Dinode × Image
take_addr i din img =
    if daddr din i == 0
    then (
      img.freeblock,
      record din { addrs = modify din.addrs i (λ _. img.freeblock) },
      record img { freeblock = img.freeblock + 1 },
    )
    else (daddr din i, din, img)

-- The same for an entry of the indirect block `ind`.
abbrev pub take_entry : ℕ → ℕ → Image → ℕ × Image
take_entry ind i img =
    let d = img.fs.blocks ind in
    if word_at d (4 * i) == 0
    then (
      img.freeblock,
      wsect ind (put_word d (4 * i) img.freeblock) (record img { freeblock = img.freeblock + 1 }),
    )
    else (word_at d (4 * i), img)

-- The block `x` for the file's block `fbn`.
unfoldable pub find_block : ℕ → Dinode → Image → ℕ × Dinode × Image
find_block fbn din img =
    let (ind, din', img') = take_addr ndirect din img in
    let (x, img'') = take_entry ind (fbn - ndirect) img' in
    if ltb fbn ndirect then take_addr fbn din img else (x, din', img'')

-- The loop of `iappend` with the bytes `p` left to write at `off`, for at most `f` rounds.
unfoldable pub iappend_loop : ℕ → ℕ → List ℕ → Dinode → Image → Option (ℕ × Dinode × Image)
unfolding find_block put_bytes
iappend_loop zero off p din img = some (off, din, img)
iappend_loop (suc f) off p din img =
    let fbn = off / bsize in
    let (x, din', img') = find_block fbn din img in
    let n1 = min (length p) ((fbn + 1) * bsize - off) in
    let go =
      iappend_loop f (off + n1) (drop n1 p) din'
        (wsect x (put_bytes (img'.fs.blocks x) (off - fbn * bsize) (take n1 p)) img') in
    if length p == 0 then some (off, din, img) else if ltb fbn max_file then go else none

unfoldable pub iappend : ℕ → List ℕ → Image → Option Image
unfolding rinode iappend_loop winode
iappend inum p img =
    elim (iappend_loop (length p / bsize + 2) (rinode inum img).size p (rinode inum img) img) [
      | none ↦ none
      | some (off, din, img') ↦ some (winode inum (record din { size = off }) img')
    ]

-- The superblock's fields and the sectors, all zero but sector 1.
abbrev pub empty_image : Image
empty_image = record {
  fs = record {
    blocks = λ b. λ i. 0;
    size = fs_size;
    ninodes = n_inodes;
    inodestart = 2 + nlog;
    bmapstart = 2 + nlog + ninodeblocks;
  };
  freeinode = 1;
  freeblock = nmeta;
}

abbrev pub super_block : Block
super_block =
    put_word
      (put_word
        (put_word
          (put_word
            (put_word (put_word (put_word (λ i. 0) 0 fs_size) 4 (fs_size - nmeta)) 8 n_inodes) 12
            nlog)
          16 2)
        20 (2 + nlog))
      24 (2 + nlog + ninodeblocks)

-- The pieces that `read` returns, appended to the file.
unfoldable pub append_all : ℕ → List (List ℕ) → Image → Option Image
unfolding iappend
append_all inum [] img = some img
append_all inum (p ∷ ps) img = elim (iappend inum p img) [
  | none ↦ none
  | some img' ↦ append_all inum ps img'
]

-- Skips a leading _ of the name.
abbrev pub plain_name : List ℕ → List ℕ
plain_name [] = []
plain_name (c ∷ name) = if c == 95 then name else c ∷ name

-- `index(name, '/') != 0`
abbrev pub has_slash : List ℕ → Bool
has_slash [] = false
has_slash (c ∷ name) = c == 47 || has_slash name

-- A file, given by its name and the pieces that `read` returns, with its entry in the root directory.
unfoldable pub add_file : List ℕ → List (List ℕ) → Image → Option Image
unfolding ialloc iappend append_all
add_file name pieces img =
    let (inum, img1) = ialloc 2 img in
    if has_slash name then none else elim (iappend 1 (new_entry (plain_name name) inum) img1) [
      | none ↦ none
      | some img2 ↦ append_all inum pieces img2
    ]

unfoldable pub add_files : List (List ℕ × List (List ℕ)) → Image → Option Image
unfolding add_file
add_files [] img = some img
add_files ((name, pieces) ∷ files) img = elim (add_file name pieces img) [
  | none ↦ none
  | some img' ↦ add_files files img'
]

-- The root directory with `.` and `..`.
unfoldable pub make_root : Image → Option Image
unfolding ialloc iappend
make_root img =
    let (rootino, img1) = ialloc 1 img in
    elim (iappend rootino (new_entry (46 ∷ []) rootino) img1) [
      | none ↦ none
      | some img2 ↦ iappend rootino (new_entry (46 ∷ 46 ∷ []) rootino) img2
    ]

-- The size of the root directory is rounded up, by a whole block where it is a multiple of one.
unfoldable pub fix_root : Image → Image
unfolding rinode winode
fix_root img =
    let din = rinode 1 img in winode 1 (record din { size = (din.size / bsize + 1) * bsize }) img

-- `main`, with the files that it is given.
unfoldable pub make_image : List (List ℕ × List (List ℕ)) → Option Image
unfolding make_root add_files fix_root balloc
make_image files = elim (make_root (wsect 1 super_block empty_image)) [
  | none ↦ none
  | some img ↦ elim (add_files files img) [
    | none ↦ none
    | some img' ↦ let img'' = fix_root img' in balloc img''.freeblock img''
  ]
]
