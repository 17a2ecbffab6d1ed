-- ===== src/Fs/Rounds.antt =====
-- `filewrite` of file.c writes in rounds what `writei` would write at once.
use sofinal_project.Prelude.{
  ℕ, zero, suc, ◌+◌, ◌-◌, ◌*◌, ◌/◌, ◌≤◌, ◌<◌, ◌≡◌, refl, ap, ◌∙◌, true, false, Option, some, List,
  [], ◌∷◌, arith, ◌==◌, take, drop, length, min, length-take, length-drop, eq→==,
}
use sofinal_project.File.{File, fd_inode}
use sofinal_project.Inode.{Inode}
use sofinal_project.Fs.{Fs}
use sofinal_project.Fs.Inodes.{ilock}
use sofinal_project.Fs.Data.{writei, put_bytes}
use sofinal_project.Fs.Files.{max_write, advance, filewrite_loop, filewrite}
use sofinal_project.Fs.Contents.{byte_at, IsFile, ne→==, le→ltb}
use sofinal_project.Fs.Writing.{Written, writei-Written, put_bytes_shift, put_bytes_parts}

-- One write behind another.
Written-then :
    (m : ℕ) (ip : Inode) (off : ℕ) (cs : List ℕ) (fs fs1 fs2 : Fs)
    → Written ip off (take m cs) fs fs1
    → Written ip (off + m) (drop m cs) fs1 fs2
    → Written ip off cs fs fs2
Written-then m ip off cs fs fs1 fs2 (file1, bytes1) (file2, bytes2) = (
  file2,
  λ i u.
      bytes2 i u
      ∙ put_bytes_shift (byte_at ip fs1) (put_bytes (byte_at ip fs) off (take m cs)) (off + m)
          (off + m) (drop m cs) i i refl (bytes1 i u)
      ∙ ap (λ r. r i) (put_bytes_parts m (byte_at ip fs) off cs),
)

-- The inode is in the cache.
abbrev pub IsHeld : Inode → Type 0
IsHeld ip = (0 < ip.ref) × (ip.valid ≡ true)

ilock-held : (ip : Inode) (fs : Fs) → IsHeld ip → ilock fs ip ≡ some ip
unfolding ilock
ilock-held ip fs (h, v) = rw (le→ltb ip.ref 1 h, v) refl

-- One round that writes all of its bytes.
filewrite_loop-round :
    (k : ℕ) (device : ℕ → Option ℕ) (cs : List ℕ) (f : File) (ip : Inode) (fs fs1 : Fs)
    → (length cs == 0) ≡ false
    → ilock fs ip ≡ some ip
    → writei (device (min (length cs) max_write)) f.off (take (min (length cs) max_write) cs) ip fs
      ≡ some (some (min (length cs) max_write), ip, fs1)
    → filewrite_loop (suc k) device cs f ip fs
      ≡ filewrite_loop k device
          (drop (min (length cs) max_write) cs)
          (advance (min (length cs) max_write) f)
          ip
          fs1
unfolding filewrite_loop
filewrite_loop-round k device cs f ip fs fs1 some_left locks writes =
    rw
      (some_left, locks, writes, eq→== (min (length cs) max_write) (min (length cs) max_write) refl)
      refl

filewrite-inode :
    (piped : Option ℕ) (device : ℕ → Option ℕ) (cs : List ℕ) (f f' : File) (ip ip' : Inode)
    (fs fs' : Fs)
    → f.writable ≡ true
    → f.type ≡ fd_inode
    → filewrite_loop (length cs / max_write + 1) device cs f ip fs ≡ some (true, f', ip', fs')
    → filewrite piped device cs f ip fs ≡ some (some (length cs), f', ip', fs')
unfolding filewrite
filewrite-inode piped device cs f f' ip ip' fs fs' w t e = simp (w, t, e) refl

filewrite_loop-Written :
    (k : ℕ) (device : ℕ → Option ℕ) (cs : List ℕ) (f : File) (ip : Inode) (fs : Fs)
    → IsHeld ip
    → IsFile ip fs
    → f.off + length cs ≤ ip.size
    → length cs ≤ k * max_write
    → (fs' : Fs) × (filewrite_loop k device cs f ip fs
        ≡ some (true, advance (length cs) f, ip, fs'))
      × Written ip f.off cs fs fs'
unfolding filewrite_loop put_bytes
filewrite_loop-Written zero device [] f ip fs held h l enough =
    (fs, ap (λ o. some (true, record f { off = o }, ip, fs)) (omega arith), (h, λ i u. refl))
filewrite_loop-Written zero device (c ∷ cs) f ip fs held h l enough = absurd (omega (arith, enough))
filewrite_loop-Written (suc k) device [] f ip fs held h l enough =
    (fs, ap (λ o. some (true, record f { off = o }, ip, fs)) (omega arith), (h, λ i u. refl))
filewrite_loop-Written (suc k) device (c ∷ cs) f ip fs held h l enough =
    let all = c ∷ cs in
    let n = length all in
    let m = min n max_write in
    let taken : length (take m all) ≡ m = length-take m all ∙ omega arith in
    let dropped : length (drop m all) ≡ n - m = length-drop m all in
    let (fs1, writes, written) =
      writei-Written (device m) f.off (take m all) ip fs h (omega (arith, l, taken)) in
    let (fs2, more, rest) =
      filewrite_loop-Written k device (drop m all) (advance m f) ip fs1 held written.0
        (omega (arith, l, dropped)) (omega (arith, enough, dropped)) in
    (
      fs2,
      filewrite_loop-round k device all f ip fs fs1 (ne→== n 0 (λ z. omega (arith, z)))
            (ilock-held ip fs held) (writes ∙ ap (λ r. some (some r, ip, fs1)) taken)
          ∙ more
          ∙ ap (λ o. some (true, record f { off = o }, ip, fs2)) (omega (arith, dropped)),
      Written-then m ip f.off all fs fs1 fs2 written rest,
    )

-- `filewrite` on an open file, inside a file whose blocks are all there, whose inode is in the cache: it writes
-- every byte, in as many rounds as it takes, moves the offset behind them, and changes no other byte of
-- the file.
pub filewrite-Written :
    (piped : Option ℕ) (device : ℕ → Option ℕ) (cs : List ℕ) (f : File) (ip : Inode) (fs : Fs)
    → f.writable ≡ true
    → f.type ≡ fd_inode
    → IsHeld ip
    → IsFile ip fs
    → f.off + length cs ≤ ip.size
    → (fs' : Fs) × (filewrite piped device cs f ip fs
        ≡ some (some (length cs), advance (length cs) f, ip, fs'))
      × Written ip f.off cs fs fs'
filewrite-Written piped device cs f ip fs w t held h l =
    let (fs', writes, written) =
      filewrite_loop-Written (length cs / max_write + 1) device cs f ip fs held h l (omega arith) in
    (
      fs',
      filewrite-inode piped device cs f (advance (length cs) f) ip ip fs fs' w t writes,
      written,
    )
