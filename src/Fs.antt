-- ===== src/Fs.antt =====
-- The data path of fs.c, over the contents that blocks have in the buffer cache: a changed block is passed to
-- `log_write`, and from then on `bread` returns it as changed (Log, Bcache). A block is a function from
-- the index of a byte to the byte. `none` is a panic. There is one disk.
pub mod Inodes
pub mod Data
pub mod Dirs
pub mod Files
pub mod Layout
pub mod Bitmap
pub mod Release
pub mod Allocation
pub mod Contents
pub mod Writing
pub mod Rounds
mod Tests
use sofinal_project.Prelude.{
  ℕ, zero, suc, ◌+◌, ◌-◌, ◌*◌, ◌/◌, ◌%◌, ◌^◌, Bool, true, false, ◌&&◌, ◌||◌, not, Option, none,
  some, List, ltb, leb, ◌==◌, if◌then◌else◌, update, get_elem?, modify,
}
use sofinal_project.Inode.{Inode}

abbrev pub bsize : ℕ
bsize = 512

-- Bitmap bits per block, BSIZE*8.
abbrev pub bpb : ℕ
bpb = 4096

abbrev pub ndirect : ℕ
ndirect = 12

-- BSIZE / sizeof(uint)
abbrev pub nindirect : ℕ
nindirect = 128

abbrev pub Block : Type 0
Block = ℕ → ℕ

-- The blocks, and the fields of the superblock that the code uses.
pub record Fs : Type 0 where
  pub blocks : ℕ → Block
  pub size : ℕ
  pub ninodes : ℕ
  pub inodestart : ℕ
  pub bmapstart : ℕ

-- `log_write` of block `b` with new contents.
abbrev pub put_block : ℕ → Block → Fs → Fs
put_block b d fs = record fs { blocks = update fs.blocks b d }

-- `BBLOCK(b, sb)`
abbrev pub bblock : Fs → ℕ → ℕ
bblock fs b = b / bpb + fs.bmapstart

-- `x & m` for `m = 1 << k`, as 0 or 1.
abbrev pub bit : ℕ → ℕ → ℕ
bit k x = x / 2 ^ k % 2

unfoldable pub bzero : ℕ → Fs → Fs
bzero bno fs = put_block bno (λ i. 0) fs

-- The block's bit is set: `bp->data[bi/8] |= m`, where it was clear.
unfoldable pub mark_used : ℕ → ℕ → Fs → Fs
mark_used bno bi fs =
    put_block bno (update (fs.blocks bno) (bi / 8) (fs.blocks bno (bi / 8) + 2 ^ (bi % 8))) fs

-- The inner loop of `balloc` from bit `bi` on, for at most `n` rounds.
unfoldable pub balloc_bits : ℕ → ℕ → ℕ → Fs → Option (ℕ × Fs)
unfolding mark_used bzero
balloc_bits zero b bi fs = none
balloc_bits (suc n) b bi fs =
    let later = balloc_bits n b (bi + 1) fs in
    if ltb bi bpb && ltb (b + bi) fs.size
    then if bit (bi % 8) (fs.blocks (bblock fs b) (bi / 8)) == 0
      then some (b + bi, bzero (b + bi) (mark_used (bblock fs b) bi fs))
      else later
    else none

-- The outer loop, for at most `n` rounds.
unfoldable pub balloc_blocks : ℕ → ℕ → Fs → Option (ℕ × Fs)
balloc_blocks zero b fs = none
balloc_blocks (suc n) b fs =
    let later = balloc_blocks n (b + bpb) fs in
    if ltb b fs.size
    then elim (balloc_bits bpb b 0 fs) [ some found ↦ some found | none ↦ later ]
    else none

unfoldable pub balloc : Fs → Option (ℕ × Fs)
unfolding balloc_blocks
balloc fs = balloc_blocks (fs.size / bpb + 1) 0 fs

unfoldable pub bfree : ℕ → Fs → Option Fs
bfree b fs =
    let bno = bblock fs b in
    let bi = b % bpb in
    if bit (bi % 8) (fs.blocks bno (bi / 8)) == 0
    then none
    else some
        (put_block bno (update (fs.blocks bno) (bi / 8) (fs.blocks bno (bi / 8) - 2 ^ (bi % 8))) fs)

-- A `uint` and a `ushort` in a block, the low byte first.
abbrev pub word_at : Block → ℕ → ℕ
word_at d a = d a + 2 ^ 8 * d (a + 1) + 2 ^ 16 * d (a + 2) + 2 ^ 24 * d (a + 3)

abbrev pub half_at : Block → ℕ → ℕ
half_at d a = d a + 2 ^ 8 * d (a + 1)

abbrev pub put_half : Block → ℕ → ℕ → Block
put_half d a v = update (update d a (v % 2 ^ 8)) (a + 1) (v / 2 ^ 8 % 2 ^ 8)

abbrev pub put_word : Block → ℕ → ℕ → Block
put_word d a v = put_half (put_half d a v) (a + 2) (v / 2 ^ 16)

-- `ip->addrs[i]`
abbrev pub addr_of : Inode → ℕ → ℕ
addr_of ip i = elim (get_elem? ip.addrs i) [ none ↦ 0 | some a ↦ a ]

abbrev pub set_addr : ℕ → ℕ → Inode → Inode
set_addr i a ip = record ip { addrs = modify ip.addrs i (λ _. a) }
