-- ===== src/Fs/Data.antt =====
-- Reading and writing through an inode of fs.c: `readi` and `writei`. The result is `some none` for -1.
-- What the driver of a device returns is the argument `device`, -1 where there is no driver.
use sofinal_project.Prelude.{
  ℕ, zero, suc, ◌+◌, ◌-◌, ◌*◌, ◌/◌, ◌%◌, ◌^◌, ◌&&◌, ◌||◌, Option, none, some, List, [], ◌∷◌, ◌++◌,
  ltb, ◌==◌, if◌then◌else◌, update, take, drop, length, min,
}
use sofinal_project.Inode.{Inode}
use sofinal_project.Fs.{Block, Fs, bsize, ndirect, nindirect, put_block}
use sofinal_project.Fs.Inodes.{bmap, iupdate}

abbrev pub t_dev : ℕ
t_dev = 3

-- MAXFILE, in blocks.
abbrev pub max_file : ℕ
max_file = ndirect + nindirect

-- `n` bytes of a block from `a` on.
unfoldable pub bytes_from : Block → ℕ → ℕ → List ℕ
bytes_from d a zero = []
bytes_from d a (suc n) = d a ∷ bytes_from d (a + 1) n

-- The bytes that a round of either loop moves, with `left` bytes to go from `off` on.
abbrev pub chunk : ℕ → ℕ → ℕ
chunk off left = min left (bsize - off % bsize)

-- The loop of `readi` with `left` bytes to go, for at most `f` rounds.
unfoldable pub readi_loop : ℕ → ℕ → ℕ → Inode → Fs → Option (List ℕ × Inode × Fs)
unfolding bytes_from
readi_loop zero off left ip fs = some ([], ip, fs)
readi_loop (suc f) off left ip fs =
    let m = chunk off left in
    let go : Option (List ℕ × Inode × Fs) = elim (bmap (off / bsize) ip fs) [
      | none ↦ none
      | some (b, ip', fs') ↦ elim (readi_loop f (off + m) (left - m) ip' fs') [
        | none ↦ none
        | some (more, ip'', fs'') ↦
            some (bytes_from (fs'.blocks b) (off % bsize) m ++ more, ip'', fs'')
      ]
    ] in
    if left == 0 then some ([], ip, fs) else go

unfoldable pub readi : Option (List ℕ) → ℕ → ℕ → Inode → Fs → Option (Option (List ℕ) × Inode × Fs)
unfolding readi_loop
readi device off n ip fs =
    let n' = if ltb ip.size (off + n) then ip.size - off else n in
    let file : Option (Option (List ℕ) × Inode × Fs) =
      elim (readi_loop (n' / bsize + 2) off n' ip fs) [
        | none ↦ none
        | some (bytes, ip', fs') ↦ some (some bytes, ip', fs')
      ] in
    if ip.type == t_dev
    then some (device, ip, fs)
    else if ltb ip.size off || ltb ((off + n) % 2 ^ 32) off
    then some (none, ip, fs)
    else file

unfoldable pub put_bytes : Block → ℕ → List ℕ → Block
put_bytes d a [] = d
put_bytes d a (c ∷ cs) = put_bytes (update d a c) (a + 1) cs

-- The loop of `writei` with the bytes that are left to write, for at most `f` rounds.
unfoldable pub writei_loop : ℕ → ℕ → List ℕ → Inode → Fs → Option (ℕ × Inode × Fs)
unfolding put_bytes
writei_loop zero off cs ip fs = some (off, ip, fs)
writei_loop (suc f) off cs ip fs =
    let m = chunk off (length cs) in
    let go : Option (ℕ × Inode × Fs) = elim (bmap (off / bsize) ip fs) [
      | none ↦ none
      | some (b, ip', fs') ↦
          writei_loop f (off + m) (drop m cs) ip'
            (put_block b (put_bytes (fs'.blocks b) (off % bsize) (take m cs)) fs')
    ] in
    if length cs == 0 then some (off, ip, fs) else go

-- The new size, if the file has grown, and the result.
unfoldable pub grow : ℕ → ℕ → Inode → Fs → Option (Option ℕ × Inode × Fs)
grow n off ip fs =
    if ltb 0 n && ltb ip.size off
    then some (some n, record ip { size = off }, iupdate (record ip { size = off }) fs)
    else some (some n, ip, fs)

unfoldable pub writei : Option ℕ → ℕ → List ℕ → Inode → Fs → Option (Option ℕ × Inode × Fs)
unfolding writei_loop grow
writei device off cs ip fs =
    let n = length cs in
    let file : Option (Option ℕ × Inode × Fs) = elim (writei_loop (n / bsize + 2) off cs ip fs) [
      | none ↦ none
      | some (end, ip', fs') ↦ grow n end ip' fs'
    ] in
    if ip.type == t_dev
    then some (device, ip, fs)
    else if ltb ip.size off || ltb ((off + n) % 2 ^ 32) off
    then some (none, ip, fs)
    else if ltb (max_file * bsize) (off + n)
    then some (none, ip, fs)
    else file
