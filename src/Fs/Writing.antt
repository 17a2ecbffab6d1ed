-- ===== src/Fs/Writing.antt =====
-- `writei` of fs.c on a file whose blocks are all there.
use sofinal_project.Prelude.{
  ℕ, zero, suc, ◌+◌, ◌-◌, ◌*◌, ◌/◌, ◌%◌, ◌^◌, ◌≤◌, ◌<◌, ◌≡◌, ◌≢◌, ◌⊎◌, inl, inr, refl, sym, ap, ◌∙◌,
  false, Option, some, List, [], ◌∷◌, arith, ltb, ◌==◌, ==→eq, min, length, take, drop, Bool-cases,
  length-take, length-drop, update, update_self, update_ne,
}
use mathlib.Core.Path.{subst}
use sofinal_project.Inode.{Inode}
use sofinal_project.Fs.{Fs, bsize, ndirect, word_at, addr_of, put_block}
use sofinal_project.Fs.Data.{t_dev, max_file, chunk, put_bytes, writei_loop, writei, grow, readi}
use sofinal_project.Fs.Contents.{
  block_at, byte_at, content, content_ext, IsFile, ne→==, le→ltb, bmap-mapped, enough_after,
  readi-content,
}

put_bytes_other :
    (f : ℕ → ℕ) (a : ℕ) (cs : List ℕ) (x : ℕ) → x < a ⊎ a + length cs ≤ x → put_bytes f a cs x ≡ f x
unfolding put_bytes
put_bytes_other f a [] x h = refl
put_bytes_other f a (c ∷ cs) x h =
    put_bytes_other (update f a c) (a + 1) cs x (omega (arith, h))
    ∙ update_ne f a x c (omega (arith, h))

-- The same bytes in two places.
pub put_bytes_shift :
    (f g : ℕ → ℕ) (a b : ℕ) (cs : List ℕ) (x y : ℕ)
    → x + b ≡ y + a
    → f x ≡ g y
    → put_bytes f a cs x ≡ put_bytes g b cs y
unfolding put_bytes
put_bytes_shift f g a b [] x y e h = h
put_bytes_shift f g a b (c ∷ cs) x y e h =
    put_bytes_shift (update f a c) (update g b c) (a + 1) (b + 1) cs x y (omega (arith, e))
      (ground (arith, e, h))

pub put_bytes_parts :
    (m : ℕ) (f : ℕ → ℕ) (a : ℕ) (cs : List ℕ)
    → put_bytes (put_bytes f a (take m cs)) (a + m) (drop m cs) ≡ put_bytes f a cs
unfolding put_bytes
put_bytes_parts zero f a cs = ap (λ x. put_bytes f x cs) (omega arith)
put_bytes_parts (suc m) f a [] = refl
put_bytes_parts (suc m) f a (c ∷ cs) =
    ap (λ x. put_bytes (put_bytes (update f a c) (a + 1) (take m cs)) x (drop m cs)) (omega arith)
    ∙ put_bytes_parts m (update f a c) (a + 1) cs

content-put_bytes :
    (f : ℕ → ℕ) (a : ℕ) (cs : List ℕ) → content (put_bytes f a cs) a (length cs) ≡ cs
unfolding put_bytes content
content-put_bytes f a [] = refl
content-put_bytes f a (c ∷ cs) =
    ap (λ b. b ∷ content (put_bytes (update f a c) (a + 1) cs) (a + 1) (length cs))
      (put_bytes_other (update f a c) (a + 1) cs a (inl (omega arith)) ∙ update_self f a c)
    ∙ ap (λ bs. c ∷ bs) (content-put_bytes (update f a c) (a + 1) cs)

==→not : (a b : ℕ) → (a == b) ≡ false → a ≢ b
==→not a b h = ground (arith, h)

-- The blocks after a write of `cs` at `off`, inside one block.
abbrev written : Inode → ℕ → List ℕ → Fs → Fs
written ip off cs fs =
    let b = block_at ip fs (off / bsize) in
    put_block b (put_bytes (fs.blocks b) (off % bsize) cs) fs

block_at-written :
    (ip : Inode) (off : ℕ) (cs : List ℕ) (fs : Fs) (bn : ℕ)
    → IsFile ip fs
    → off < ip.size
    → bn * bsize < ip.size
    → block_at ip (written ip off cs fs) bn ≡ block_at ip fs bn
block_at-written ip off cs fs bn h l u = elim (Bool-cases (ltb bn ndirect)) [
  | inl direct ↦ rw direct refl
  | inr behind ↦
      let ne : addr_of ip ndirect ≢ block_at ip fs (off / bsize) = λ e.
        h.indirect_apart (off / bsize) (omega (arith, l)) (ground (arith, behind, u)) (sym e) in
      rw behind (
        ap (λ d. word_at d (4 * (bn - ndirect)))
          (update_ne fs.blocks (block_at ip fs (off / bsize)) (addr_of ip ndirect) _ ne))
]

written-IsFile :
    (ip : Inode) (off : ℕ) (cs : List ℕ) (fs : Fs)
    → IsFile ip fs
    → off < ip.size
    → IsFile ip (written ip off cs fs)
written-IsFile ip off cs fs h l =
    let same : (bn : ℕ)
        → bn * bsize < ip.size
        → block_at ip (written ip off cs fs) bn ≡ block_at ip fs bn =
      λ bn u. block_at-written ip off cs fs bn h l u in
    record {
      not_device = h.not_device;
      small = h.small;
      mapped = λ bn u e. h.mapped bn u (sym (same bn u) ∙ e);
      indirect = h.indirect;
      apart = λ bn bn' u u' e. h.apart bn bn' u u' (sym (same bn u) ∙ e ∙ same bn' u');
      indirect_apart = λ bn u k e. h.indirect_apart bn u k (sym (same bn u) ∙ e);
    }

byte_at-written :
    (ip : Inode) (off : ℕ) (cs : List ℕ) (fs : Fs) (i : ℕ)
    → IsFile ip fs
    → off < ip.size
    → i < ip.size
    → off % bsize + length cs ≤ bsize
    → byte_at ip (written ip off cs fs) i ≡ put_bytes (byte_at ip fs) off cs i
byte_at-written ip off cs fs i h l u fits =
    let q = off / bsize in
    let b = block_at ip fs q in
    let d = put_bytes (fs.blocks b) (off % bsize) cs in
    let moved : byte_at ip (written ip off cs fs) i
        ≡ update fs.blocks b d (block_at ip fs (i / bsize)) (i % bsize) =
      ap (λ j. update fs.blocks b d j (i % bsize))
        (block_at-written ip off cs fs (i / bsize) h l (omega (arith, u))) in
    elim (Bool-cases (i / bsize == q)) [
      | inl same ↦
          let e : i / bsize ≡ q = ==→eq _ _ same in
          moved
          ∙ ap (λ r. update fs.blocks b d (block_at ip fs r) (i % bsize)) e
          ∙ ap (λ r. r (i % bsize)) (update_self fs.blocks b d)
          ∙ put_bytes_shift (fs.blocks b) (byte_at ip fs) (off % bsize) off cs (i % bsize) i
              (omega (arith, e)) (ap (λ r. fs.blocks (block_at ip fs r) (i % bsize)) (sym e))
      | inr other ↦
          let ne : i / bsize ≢ q = ==→not _ _ other in
          moved
          ∙ ap (λ r. r (i % bsize))
              (update_ne fs.blocks b (block_at ip fs (i / bsize)) d
                (λ e. ne (h.apart (i / bsize) q (omega (arith, u)) (omega (arith, l)) e)))
          ∙ sym (put_bytes_other (byte_at ip fs) off cs i (omega (arith, ne, fits)))
    ]

-- What a write of `cs` at `off` leaves.
abbrev pub Written : Inode → ℕ → List ℕ → Fs → Fs → Type 0
Written ip off cs fs fs' =
    IsFile ip fs' × ((i : ℕ) → i < ip.size → byte_at ip fs' i ≡ put_bytes (byte_at ip fs) off cs i)

-- A first part inside one block, and the rest.
Written-parts :
    (m : ℕ) (ip : Inode) (off : ℕ) (cs : List ℕ) (fs fs' : Fs)
    → IsFile ip fs
    → off < ip.size
    → off % bsize + length (take m cs) ≤ bsize
    → Written ip (off + m) (drop m cs) (written ip off (take m cs) fs) fs'
    → Written ip off cs fs fs'
Written-parts m ip off cs fs fs' h l fits (file, bytes) = (
  file,
  λ i u.
      bytes i u
      ∙ put_bytes_shift (byte_at ip (written ip off (take m cs) fs))
          (put_bytes (byte_at ip fs) off (take m cs)) (off + m) (off + m) (drop m cs) i i refl
          (byte_at-written ip off (take m cs) fs i h l u fits)
      ∙ ap (λ r. r i) (put_bytes_parts m (byte_at ip fs) off cs),
)

writei_loop-Written :
    (f off : ℕ) (cs : List ℕ) (ip : Inode) (fs : Fs)
    → IsFile ip fs
    → off + length cs ≤ ip.size
    → length cs ≤ f * bsize - off % bsize
    → (fs' : Fs) × (writei_loop f off cs ip fs ≡ some (off + length cs, ip, fs'))
      × Written ip off cs fs fs'
unfolding writei_loop put_bytes
writei_loop-Written zero off [] ip fs h l enough =
    (fs, ap (λ e. some (e, ip, fs)) (omega arith), (h, λ i u. refl))
writei_loop-Written zero off (c ∷ cs) ip fs h l enough = absurd (omega (arith, enough))
writei_loop-Written (suc f) off [] ip fs h l enough =
    (fs, ap (λ e. some (e, ip, fs)) (omega arith), (h, λ i u. refl))
writei_loop-Written (suc f) off (c ∷ cs) ip fs h l enough =
    let all = c ∷ cs in
    let n = length all in
    let m = chunk off n in
    let len : length (drop m all) ≡ n - m = length-drop m all in
    let inside : off < ip.size = omega (arith, l) in
    let (fs', ends, after) =
      writei_loop-Written f (off + m) (drop m all) ip (written ip off (take m all) fs)
        (written-IsFile ip off (take m all) fs h inside) (omega (arith, l, len))
        (subst (λ k. k ≤ f * bsize - (off + m) % bsize) (sym len)
          (enough_after f off n m refl enough)) in
    (
      fs',
      rw
          (
            ne→== n 0 (λ z. omega (arith, z)),
            bmap-mapped ip fs (off / bsize) h (omega (arith, inside)),
          )
          (ends ∙ ap (λ e. some (e, ip, fs')) (omega (arith, len))),
      Written-parts m ip off all fs fs' h inside (omega (arith, length-take m all)) after,
    )

grow-inside :
    (n end : ℕ) (ip : Inode) (fs : Fs) → end ≤ ip.size → grow n end ip fs ≡ some (some n, ip, fs)
unfolding grow
grow-inside n end ip fs h = ground (arith, h)

-- `writei` inside a file whose blocks are all there writes every byte: the file then has the new bytes from
-- `off` on and the old ones elsewhere, and its inode is as before.
pub writei-Written :
    (device : Option ℕ) (off : ℕ) (cs : List ℕ) (ip : Inode) (fs : Fs)
    → IsFile ip fs
    → off + length cs ≤ ip.size
    → (fs' : Fs) × (writei device off cs ip fs ≡ some (some (length cs), ip, fs'))
      × Written ip off cs fs fs'
unfolding writei grow
writei-Written device off cs ip fs h l =
    let n = length cs in
    let (fs', ends, after) = writei_loop-Written (n / bsize + 2) off cs ip fs h l (omega arith) in
    (
      fs',
      rw
          (
            ne→== ip.type t_dev h.not_device,
            le→ltb ip.size off (omega (arith, l)),
            le→ltb ((off + n) % 2 ^ 32) off (omega (arith, l, h.small)),
            le→ltb (max_file * bsize) (off + n) (omega (arith, l, h.small)),
            ends,
          )
          (grow-inside n (off + n) ip fs' l),
      after,
    )

-- What `writei` has written inside a file whose blocks are all there, `readi` reads back.
pub readi-writei :
    (device : Option (List ℕ)) (device' : Option ℕ) (off : ℕ) (cs : List ℕ) (ip : Inode) (fs : Fs)
    → IsFile ip fs
    → off + length cs ≤ ip.size
    → (fs' : Fs) × (writei device' off cs ip fs ≡ some (some (length cs), ip, fs'))
      × (readi device off (length cs) ip fs' ≡ some (some cs, ip, fs'))
readi-writei device device' off cs ip fs h l =
    let n = length cs in
    let (fs', writes, (file, bytes)) = writei-Written device' off cs ip fs h l in
    let reads =
      readi-content device off n ip fs' file (omega (arith, l)) (omega (arith, l, h.small)) in
    let all : content (byte_at ip fs') off (min n (ip.size - off)) ≡ cs =
      ap (content (byte_at ip fs') off) (omega (arith, l))
      ∙ content_ext (byte_at ip fs') (put_bytes (byte_at ip fs) off cs) off off n (λ x y low u e.
        bytes x (omega (arith, l, u)) ∙ ap (put_bytes (byte_at ip fs) off cs) (omega (arith, e)))
      ∙ content-put_bytes (byte_at ip fs) off cs in
    (fs', writes, reads ∙ ap (λ bs. some (some bs, ip, fs')) all)
