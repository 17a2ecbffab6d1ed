-- ===== src/Fs/Inodes.antt =====
-- Inodes of fs.c on the disk, their blocks, and reading and writing through them.
use sofinal_project.Prelude.{
  ℕ, zero, suc, ◌+◌, ◌-◌, ◌*◌, ◌/◌, ◌%◌, true, false, ◌&&◌, Option, none, some, List, [], ◌∷◌, ltb,
  leb, ◌==◌, if◌then◌else◌,
}
use sofinal_project.Inode.{Inode}
use sofinal_project.Fs.{
  Block, Fs, ndirect, nindirect, put_block, balloc, bfree, word_at, half_at, put_half, put_word,
  addr_of, set_addr,
}

-- `IBLOCK` and the offset of the inode in it: eight inodes of 64 bytes to a block.
abbrev pub iblock : Fs → ℕ → ℕ
iblock fs inum = inum / 8 + fs.inodestart

abbrev pub dinode_at : ℕ → ℕ
dinode_at inum = inum % 8 * 64

-- `memmove(dip->addrs, ip->addrs, ...)` for the entries from `i` on.
unfoldable pub put_addrs : Block → ℕ → List ℕ → Block
put_addrs d a [] = d
put_addrs d a (x ∷ xs) = put_addrs (put_word d a x) (a + 4) xs

unfoldable pub get_addrs : Block → ℕ → ℕ → List ℕ
get_addrs d a zero = []
get_addrs d a (suc n) = word_at d a ∷ get_addrs d (a + 4) n

unfoldable pub iupdate : Inode → Fs → Fs
unfolding put_addrs
iupdate ip fs =
    let a = dinode_at ip.inum in
    let d = fs.blocks (iblock fs ip.inum) in
    let d' =
      put_word
        (put_half (put_half (put_half (put_half d a ip.type) (a + 2) ip.major) (a + 4) ip.minor)
          (a + 6) ip.nlink)
        (a + 8) ip.size in
    put_block (iblock fs ip.inum) (put_addrs d' (a + 12) ip.addrs) fs

-- `ilock` on an entry that its caller holds a reference to, with the sleep lock taken.
unfoldable pub ilock : Fs → Inode → Option Inode
unfolding get_addrs
ilock fs ip =
    let a = dinode_at ip.inum in
    let d = fs.blocks (iblock fs ip.inum) in
    if ltb ip.ref 1
    then none
    else if ip.valid
    then some ip
    else if half_at d a == 0
    then none
    else some (record ip {
      type = half_at d a;
      major = half_at d (a + 2);
      minor = half_at d (a + 4);
      nlink = half_at d (a + 6);
      size = word_at d (a + 8);
      addrs = get_addrs d (a + 12) 13;
      valid = true;
    })

-- The loop of `ialloc` from `inum` on, for at most `n` rounds: the inode's number. `iget` follows.
unfoldable pub ialloc_loop : ℕ → ℕ → ℕ → Fs → Option (ℕ × Fs)
ialloc_loop zero type inum fs = none
ialloc_loop (suc n) type inum fs =
    let a = dinode_at inum in
    let d = fs.blocks (iblock fs inum) in
    let later = ialloc_loop n type (inum + 1) fs in
    let zeroed : Block = λ i. if leb a i && ltb i (a + 64) then 0 else d i in
    if ltb inum fs.ninodes
    then if half_at d a == 0
      then some (inum, put_block (iblock fs inum) (put_half zeroed a type) fs)
      else later
    else none

unfoldable pub ialloc : ℕ → Fs → Option (ℕ × Fs)
unfolding ialloc_loop
ialloc type fs = ialloc_loop fs.ninodes type 1 fs

-- The part of `bmap` for an indirect block: the entry's block, allocated if there is none.
unfoldable pub bmap_indirect : ℕ → ℕ → Fs → Option (ℕ × Fs)
bmap_indirect ind i fs =
    if word_at (fs.blocks ind) (4 * i) == 0
    then elim (balloc fs) [
      | none ↦ none
      | some (a, fs') ↦ some (a, put_block ind (put_word (fs'.blocks ind) (4 * i) a) fs')
    ]
    else some (word_at (fs.blocks ind) (4 * i), fs)

-- The block's number, with the inode and the blocks afterwards.
unfoldable pub bmap : ℕ → Inode → Fs → Option (ℕ × Inode × Fs)
bmap bn ip fs =
    if ltb bn ndirect
    then if addr_of ip bn == 0
      then elim (balloc fs) [ none ↦ none | some (a, fs') ↦ some (a, set_addr bn a ip, fs') ]
      else some (addr_of ip bn, ip, fs)
    else if ltb (bn - ndirect) nindirect
    then if addr_of ip ndirect == 0
      then elim (balloc fs) [
        | none ↦ none
        | some (a, fs') ↦ elim (bmap_indirect a (bn - ndirect) fs') [
          | none ↦ none
          | some (addr, fs'') ↦ some (addr, set_addr ndirect a ip, fs'')
        ]
      ]
      else elim (bmap_indirect (addr_of ip ndirect) (bn - ndirect) fs) [
        | none ↦ none
        | some (addr, fs') ↦ some (addr, ip, fs')
      ]
    else none

-- The first loop of `itrunc`, over the direct entries.
unfoldable pub free_direct : ℕ → ℕ → Inode → Fs → Option (Inode × Fs)
free_direct zero i ip fs = some (ip, fs)
free_direct (suc n) i ip fs =
    let kept = free_direct n (i + 1) ip fs in
    let freed : Option (Inode × Fs) = elim (bfree (addr_of ip i) fs) [
      | none ↦ none
      | some fs' ↦ free_direct n (i + 1) (set_addr i 0 ip) fs'
    ] in
    if addr_of ip i == 0 then kept else freed

-- The loop over the entries of the indirect block, which has been read before.
unfoldable pub free_entries : ℕ → ℕ → Block → Fs → Option Fs
free_entries zero j d fs = some fs
free_entries (suc n) j d fs =
    let kept = free_entries n (j + 1) d fs in
    let freed : Option Fs = elim (bfree (word_at d (4 * j)) fs) [
      | none ↦ none
      | some fs' ↦ free_entries n (j + 1) d fs'
    ] in
    if word_at d (4 * j) == 0 then kept else freed

unfoldable pub free_indirect : Inode → Fs → Option (Inode × Fs)
unfolding free_entries
free_indirect ip fs =
    if addr_of ip ndirect == 0
    then some (ip, fs)
    else elim (free_entries nindirect 0 (fs.blocks (addr_of ip ndirect)) fs) [
      | none ↦ none
      | some fs' ↦ elim (bfree (addr_of ip ndirect) fs') [
        | none ↦ none
        | some fs'' ↦ some (set_addr ndirect 0 ip, fs'')
      ]
    ]

unfoldable pub itrunc : Inode → Fs → Option (Inode × Fs)
unfolding free_direct free_indirect iupdate
itrunc ip fs = elim (free_direct ndirect 0 ip fs) [
  | none ↦ none
  | some (ip1, fs1) ↦ elim (free_indirect ip1 fs1) [
    | none ↦ none
    | some (ip2, fs2) ↦ some (record ip2 { size = 0 }, iupdate (record ip2 { size = 0 }) fs2)
  ]
]

unfoldable pub iput : Inode → Fs → Option (Inode × Fs)
unfolding itrunc
iput ip fs =
    if ip.valid && (ip.nlink == 0 && ip.ref == 1)
    then elim (itrunc ip fs) [
      | none ↦ none
      | some (ip1, fs1) ↦ some (
        record ip1 { type = 0; valid = false; ref = ip1.ref - 1 },
        iupdate (record ip1 { type = 0 }) fs1,
      )
    ]
    else some (record ip { ref = ip.ref - 1 }, fs)
