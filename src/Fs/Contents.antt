-- ===== src/Fs/Contents.antt =====
-- A file of fs.c as a sequence of bytes, and `readi` on it.
use sofinal_project.Prelude.{
  ℕ, zero, suc, ◌+◌, ◌-◌, ◌*◌, ◌/◌, ◌%◌, ◌^◌, ◌≤◌, ◌<◌, ◌≡◌, ◌≢◌, inl, inr, refl, ap, ◌∙◌, true,
  false, Option, some, List, [], ◌∷◌, ◌++◌, arith, ltb, ◌==◌, if◌then◌else◌, lt→ltb, min,
  Bool-cases,
}
use sofinal_project.Inode.{Inode}
use sofinal_project.Fs.{Block, Fs, bsize, ndirect, word_at, addr_of}
use sofinal_project.Fs.Inodes.{bmap, bmap_indirect}
use sofinal_project.Fs.Data.{t_dev, max_file, chunk, bytes_from, readi_loop, readi}

-- The block of a file's block `bn`, and the byte at offset `i`.
abbrev pub block_at : Inode → Fs → ℕ → ℕ
block_at ip fs bn =
    if ltb bn ndirect
    then addr_of ip bn
    else word_at (fs.blocks (addr_of ip ndirect)) (4 * (bn - ndirect))

abbrev pub byte_at : Inode → Fs → ℕ → ℕ
byte_at ip fs i = fs.blocks (block_at ip fs (i / bsize)) (i % bsize)

-- `n` bytes of a file from `off` on.
unfoldable pub content : (ℕ → ℕ) → ℕ → ℕ → List ℕ
content file off zero = []
content file off (suc n) = file off ∷ content file (off + 1) n

-- Every block below the size is there, no two are the same, and none is the indirect block.
pub record IsFile (ip : Inode) (fs : Fs) : Type 0 where
  pub not_device : ip.type ≢ t_dev
  pub small : ip.size ≤ max_file * bsize
  pub mapped : (bn : ℕ) → bn * bsize < ip.size → block_at ip fs bn ≢ 0
  pub indirect : ndirect * bsize < ip.size → addr_of ip ndirect ≢ 0
  pub apart :
      (bn bn' : ℕ)
      → bn * bsize < ip.size
      → bn' * bsize < ip.size
      → block_at ip fs bn ≡ block_at ip fs bn'
      → bn ≡ bn'
  pub indirect_apart :
      (bn : ℕ)
      → bn * bsize < ip.size
      → ndirect * bsize < ip.size
      → block_at ip fs bn ≢ addr_of ip ndirect

pub ne→== : (a b : ℕ) → a ≢ b → (a == b) ≡ false
ne→== a b h = ground (arith, h)

pub le→ltb : (a b : ℕ) → b ≤ a → ltb a b ≡ false
le→ltb a b h = ground (arith, h)

pub bmap-mapped :
    (ip : Inode) (fs : Fs) (bn : ℕ)
    → IsFile ip fs
    → bn * bsize < ip.size
    → bmap bn ip fs ≡ some (block_at ip fs bn, ip, fs)
unfolding bmap bmap_indirect
bmap-mapped ip fs bn h l = elim (Bool-cases (ltb bn ndirect)) [
  | inl direct ↦
      let there : (addr_of ip bn == 0) ≡ false = ne→== _ 0 (λ z. h.mapped bn l (rw direct z)) in
      rw (direct, there) refl
  | inr behind ↦
      let in_file : ltb (bn - ndirect) 128 ≡ true = lt→ltb _ _ (omega (arith, l, h.small)) in
      let large : ndirect * bsize < ip.size = ground (arith, behind, l) in
      let ind : (addr_of ip ndirect == 0) ≡ false = ne→== _ 0 (h.indirect large) in
      let there : (word_at (fs.blocks (addr_of ip ndirect)) (4 * (bn - ndirect)) == 0) ≡ false =
        ne→== _ 0 (λ z. h.mapped bn l (rw behind z)) in
      rw (behind, in_file, ind, there) refl
]

content_at : (file : ℕ → ℕ) (a b n n' : ℕ) → a ≡ b → n ≡ n' → content file a n ≡ content file b n'
content_at file a b n n' e e' = ap (λ x. content file x n) e ∙ ap (content file b) e'

pub content-append :
    (file : ℕ → ℕ) (off m n : ℕ)
    → content file off m ++ content file (off + m) n ≡ content file off (m + n)
unfolding content
content-append file off zero n = content_at file (off + 0) off n (0 + n) (omega arith) (omega arith)
content-append file off (suc m) n =
    rw
      (
        content_at file (off + suc m) (off + 1 + m) n n (omega arith) refl,
        content-append file (off + 1) m n,
      )
      (content_at file off off (suc (m + n)) (suc m + n) refl (omega arith))

-- Two files agree on `m` bytes, from `a` on in one and from `b` on in the other.
pub content_ext :
    (f g : ℕ → ℕ) (a b m : ℕ)
    → ((x y : ℕ) → a ≤ x → x < a + m → x + b ≡ y + a → f x ≡ g y)
    → content f a m ≡ content g b m
unfolding content
content_ext f g a b zero h = refl
content_ext f g a b (suc m) h =
    ap (λ c. c ∷ content f (a + 1) m) (h a b (omega arith) (omega arith) (omega arith))
    ∙ ap (λ cs. g b ∷ cs)
        (content_ext f g (a + 1) (b + 1) m
          (λ x y l u e. h x y (omega (arith, l)) (omega (arith, u)) (omega (arith, e))))

bytes_from-content : (d : Block) (a m : ℕ) → bytes_from d a m ≡ content d a m
unfolding bytes_from content
bytes_from-content d a zero = refl
bytes_from-content d a (suc m) = ap (λ cs. d a ∷ cs) (bytes_from-content d (a + 1) m)

-- The rest of one block of a file.
block-content :
    (ip : Inode) (fs : Fs) (off m : ℕ)
    → off % bsize + m ≤ bsize
    → bytes_from (fs.blocks (block_at ip fs (off / bsize))) (off % bsize) m
      ≡ content (byte_at ip fs) off m
block-content ip fs off m h =
    bytes_from-content _ (off % bsize) m
    ∙ content_ext (fs.blocks (block_at ip fs (off / bsize))) (byte_at ip fs) (off % bsize) off m
        (λ x y l u e.
          let same_block : off / bsize ≡ y / bsize = omega (arith, l, u, e, h) in
          let same_place : x ≡ y % bsize = omega (arith, l, u, e, h) in
          ap (λ q. fs.blocks (block_at ip fs q) x) same_block
          ∙ ap (fs.blocks (block_at ip fs (y / bsize))) same_place)

pub enough_after :
    (f off n m : ℕ)
    → m ≡ min n (bsize - off % bsize)
    → n ≤ suc f * bsize - off % bsize
    → n - m ≤ f * bsize - (off + m) % bsize
enough_after f off n m e h = omega (arith, e, h)

readi_loop-content :
    (f off left : ℕ) (ip : Inode) (fs : Fs)
    → IsFile ip fs
    → off + left ≤ ip.size
    → left ≤ f * bsize - off % bsize
    → readi_loop f off left ip fs ≡ some (content (byte_at ip fs) off left, ip, fs)
unfolding readi_loop content
readi_loop-content zero off zero ip fs h l enough = refl
readi_loop-content zero off (suc left) ip fs h l enough = absurd (omega (arith, enough))
readi_loop-content (suc f) off zero ip fs h l enough = refl
readi_loop-content (suc f) off (suc left) ip fs h l enough =
    let n = suc left in
    let m = chunk off n in
    rw
      (
        ne→== n 0 (λ z. omega (arith, z)),
        bmap-mapped ip fs (off / bsize) h (omega (arith, l)),
        readi_loop-content f (off + m) (n - m) ip fs h (omega (arith, l))
            (enough_after f off n m refl enough),
        block-content ip fs off m (omega arith),
      )
      (ap (λ bytes. some (bytes, ip, fs))
        (content-append (byte_at ip fs) off m (n - m)
          ∙ content_at (byte_at ip fs) off off (m + (n - m)) n refl (omega arith)))

-- `readi` of a file whose blocks are all there returns the bytes from `off` on, as many as asked for or as
-- there are before the file's end, and changes nothing.
pub readi-content :
    (device : Option (List ℕ)) (off n : ℕ) (ip : Inode) (fs : Fs)
    → IsFile ip fs
    → off ≤ ip.size
    → off + n < 2 ^ 32
    → readi device off n ip fs
      ≡ some (some (content (byte_at ip fs) off (min n (ip.size - off))), ip, fs)
unfolding readi
readi-content device off n ip fs h l u =
    let n' = if ltb ip.size (off + n) then ip.size - off else n in
    let is_min : n' ≡ min n (ip.size - off) = ground (arith, l) in
    rw
      (
        ne→== ip.type t_dev h.not_device,
        le→ltb ip.size off l,
        le→ltb ((off + n) % 2 ^ 32) off (omega (arith, u)),
        readi_loop-content (n' / bsize + 2) off n' ip fs h (omega (arith, is_min, l))
            (omega (arith, is_min)),
      )
      (ap (λ k. some (some (content (byte_at ip fs) off k), ip, fs)) is_min)
