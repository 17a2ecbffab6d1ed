-- ===== src/Fs/Layout.antt =====
-- An inode of fs.c on the disk: `iupdate` and `ilock`.
use mathlib.Core.Path.{subst}
use sofinal_project.Prelude.{
  ℕ, ◌+◌, ◌^◌, ◌≤◌, ◌<◌, ◌≡◌, ◌≢◌, ◌⊎◌, inl, refl, sym, ap, ◌∙◌, true, false, some, List, [], ◌∷◌,
  arith, update_self, length,
}
use sofinal_project.Inode.{Inode}
use sofinal_project.Fs.{Block, Fs, word_at, half_at, put_half, put_word}
use sofinal_project.Fs.Inodes.{iblock, dinode_at, put_addrs, get_addrs, iupdate, ilock}

put_half_other : (d : Block) (a v x : ℕ) → x ≢ a → x ≢ a + 1 → put_half d a v x ≡ d x
put_half_other d a v x h h' = ground arith

half_at-put_half : (d : Block) (a v : ℕ) → v < 2 ^ 16 → half_at (put_half d a v) a ≡ v
half_at-put_half d a v h = ground arith

half_at_other :
    (d : Block) (a b v : ℕ) → b + 2 ≤ a ⊎ a + 2 ≤ b → half_at (put_half d a v) b ≡ half_at d b
half_at_other d a b v h = ground arith

put_word_other : (d : Block) (a v x : ℕ) → x < a ⊎ a + 4 ≤ x → put_word d a v x ≡ d x
put_word_other d a v x h = ground arith

word_at-put_word : (d : Block) (a v : ℕ) → v < 2 ^ 32 → word_at (put_word d a v) a ≡ v
word_at-put_word d a v h = ground arith

put_addrs_below : (d : Block) (a : ℕ) (xs : List ℕ) (x : ℕ) → x < a → put_addrs d a xs x ≡ d x
unfolding put_addrs
put_addrs_below d a [] x h = refl
put_addrs_below d a (y ∷ ys) x h =
    put_addrs_below (put_word d a y) (a + 4) ys x (omega (arith, h))
    ∙ put_word_other d a y x (inl h)

-- The fields fit their places on the disk.
abbrev pub AreWords : List ℕ → Type 0
AreWords [] = Unit
AreWords (x ∷ xs) = x < 2 ^ 32 × AreWords xs

pub record IsInode (ip : Inode) : Type 0 where
  pub type_in : ip.type < 2 ^ 16
  pub type_ne : ip.type ≢ 0
  pub major_in : ip.major < 2 ^ 16
  pub minor_in : ip.minor < 2 ^ 16
  pub nlink_in : ip.nlink < 2 ^ 16
  pub size_in : ip.size < 2 ^ 32
  pub addrs_in : AreWords ip.addrs
  pub thirteen : length ip.addrs ≡ 13
  pub held : 0 < ip.ref

word_at-put_addrs :
    (d : Block) (a : ℕ) (xs : List ℕ) → word_at (put_addrs d (a + 4) xs) a ≡ word_at d a
word_at-put_addrs d a xs =
    rw
      (
        put_addrs_below d (a + 4) xs a (omega arith),
        put_addrs_below d (a + 4) xs (a + 1) (omega arith),
        put_addrs_below d (a + 4) xs (a + 2) (omega arith),
        put_addrs_below d (a + 4) xs (a + 3) (omega arith),
      )
      refl

get_addrs-put_addrs :
    (d : Block) (a : ℕ) (xs : List ℕ)
    → AreWords xs
    → get_addrs (put_addrs d a xs) a (length xs) ≡ xs
unfolding put_addrs get_addrs
get_addrs-put_addrs d a [] h = refl
get_addrs-put_addrs d a (x ∷ xs) (hx, hxs) =
    rw
      (word_at-put_addrs (put_word d a x) a xs, get_addrs-put_addrs (put_word d a x) (a + 4) xs hxs)
      (ap (λ w. w ∷ xs) (word_at-put_word d a x hx))

word_at_below :
    (d : Block) (a : ℕ) (xs : List ℕ) (b : ℕ)
    → b + 4 ≤ a
    → word_at (put_addrs d a xs) b ≡ word_at d b
word_at_below d a xs b h =
    rw
      (
        put_addrs_below d a xs b (omega (arith, h)),
        put_addrs_below d a xs (b + 1) (omega (arith, h)),
        put_addrs_below d a xs (b + 2) (omega (arith, h)),
        put_addrs_below d a xs (b + 3) (omega (arith, h)),
      )
      refl

half_at_below :
    (d : Block) (a : ℕ) (xs : List ℕ) (b : ℕ)
    → b + 2 ≤ a
    → half_at (put_addrs d a xs) b ≡ half_at d b
half_at_below d a xs b h =
    rw
      (
        put_addrs_below d a xs b (omega (arith, h)),
        put_addrs_below d a xs (b + 1) (omega (arith, h)),
      )
      refl

half_at-put_word : (d : Block) (a b v : ℕ) → b + 2 ≤ a → half_at (put_word d a v) b ≡ half_at d b
half_at-put_word d a b v h = ground arith

thirteen_addrs :
    (d : Block) (a : ℕ) (xs : List ℕ)
    → AreWords xs
    → length xs ≡ 13
    → get_addrs (put_addrs d a xs) a 13 ≡ xs
thirteen_addrs d a xs h e =
    subst (λ n. get_addrs (put_addrs d a xs) a n ≡ xs) e (get_addrs-put_addrs d a xs h)

-- The fields of an inode before its addresses.
abbrev halves : Block → ℕ → Inode → Block
halves d a ip =
    put_half (put_half (put_half (put_half d a ip.type) (a + 2) ip.major) (a + 4) ip.minor) (a + 6)
      ip.nlink

abbrev fields : Block → ℕ → Inode → Block
fields d a ip = put_word (halves d a ip) (a + 8) ip.size

fields-type :
    (d : Block) (a : ℕ) (ip : Inode) → ip.type < 2 ^ 16 → half_at (fields d a ip) a ≡ ip.type
fields-type d a ip h = ground arith

fields-major :
    (d : Block) (a : ℕ) (ip : Inode)
    → ip.major < 2 ^ 16
    → half_at (fields d a ip) (a + 2) ≡ ip.major
fields-major d a ip h = ground arith

fields-minor :
    (d : Block) (a : ℕ) (ip : Inode)
    → ip.minor < 2 ^ 16
    → half_at (fields d a ip) (a + 4) ≡ ip.minor
fields-minor d a ip h = ground arith

fields-nlink :
    (d : Block) (a : ℕ) (ip : Inode)
    → ip.nlink < 2 ^ 16
    → half_at (fields d a ip) (a + 6) ≡ ip.nlink
fields-nlink d a ip h = ground arith

-- The inode with the fields that are read from `d` at `a`.
abbrev read_at : Block → ℕ → Inode → Inode
read_at d a ip = record ip {
  type = half_at d a;
  major = half_at d (a + 2);
  minor = half_at d (a + 4);
  nlink = half_at d (a + 6);
  size = word_at d (a + 8);
  addrs = get_addrs d (a + 12) 13;
  valid = true;
}

read_at_lem :
    (d : Block) (a : ℕ) (ip : Inode)
    → IsInode ip
    → read_at (put_addrs (fields d a ip) (a + 12) ip.addrs) a ip ≡ record ip { valid = true }
read_at_lem d a ip h =
    rw
      (
        half_at_below (fields d a ip) (a + 12) ip.addrs a (omega arith),
        half_at_below (fields d a ip) (a + 12) ip.addrs (a + 2) (omega arith),
        half_at_below (fields d a ip) (a + 12) ip.addrs (a + 4) (omega arith),
        half_at_below (fields d a ip) (a + 12) ip.addrs (a + 6) (omega arith),
        word_at_below (fields d a ip) (a + 12) ip.addrs (a + 8) (omega arith),
        fields-type d a ip h.type_in,
        fields-major d a ip h.major_in,
        fields-minor d a ip h.minor_in,
        fields-nlink d a ip h.nlink_in,
        word_at-put_word (halves d a ip) (a + 8) ip.size h.size_in,
        thirteen_addrs (fields d a ip) (a + 12) ip.addrs h.addrs_in h.thirteen,
      )
      refl

iupdate-blocks :
    (ip : Inode) (fs : Fs)
    → (iupdate ip fs).blocks (iblock fs ip.inum)
      ≡ put_addrs
          (fields (fs.blocks (iblock fs ip.inum)) (dinode_at ip.inum) ip)
          (dinode_at ip.inum + 12)
          ip.addrs
unfolding iupdate
iupdate-blocks ip fs = update_self fs.blocks (iblock fs ip.inum) _

ilock-reads :
    (ip : Inode) (fs : Fs)
    → 0 < ip.ref
    → half_at (fs.blocks (iblock fs ip.inum)) (dinode_at ip.inum) ≢ 0
    → ilock fs (record ip { valid = false })
      ≡ some (read_at (fs.blocks (iblock fs ip.inum)) (dinode_at ip.inum) ip)
unfolding ilock
ilock-reads ip fs h h' = ground (arith, h, h')

-- Writing an inode's fields to the disk and reading them back into an entry of the cache that is not valid gives
-- the same fields, for a type other than 0, fields that fit their places and 13 addresses.
pub ilock-iupdate :
    (ip : Inode) (fs : Fs)
    → IsInode ip
    → ilock (iupdate ip fs) (record ip { valid = false }) ≡ some (record ip { valid = true })
unfolding iupdate
ilock-iupdate ip fs h =
    let a = dinode_at ip.inum in
    let d = fs.blocks (iblock fs ip.inum) in
    let back = ap (λ b. read_at b a ip) (iupdate-blocks ip fs) ∙ read_at_lem d a ip h in
    ilock-reads ip (iupdate ip fs) h.held (λ z. h.type_ne (sym (ap (λ r. r.type) back) ∙ z))
    ∙ ap some back
