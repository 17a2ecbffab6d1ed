-- ===== src/Fs/Files.antt =====
-- filestat, fileread and filewrite of file.c, on an open file and the entry of its inode. What a pipe
-- or a device does is an argument. `begin_op` and `end_op` around each round of `filewrite` are those of
-- Log; `iunlock` gives the sleep lock back.
use sofinal_project.Prelude.{
  ℕ, zero, suc, ◌+◌, ◌/◌, Bool, true, false, not, Option, none, some, List, ◌==◌, if◌then◌else◌,
  take, drop, length, min,
}
use sofinal_project.File.{File, fd_none, fd_pipe, fd_inode}
use sofinal_project.Inode.{Inode, Stat, stati}
use sofinal_project.Fs.{Fs}
use sofinal_project.Fs.Inodes.{ilock}
use sofinal_project.Fs.Data.{readi, writei}

-- `max`: ((MAXOPBLOCKS-1-1-2) / 2) * 512
abbrev pub max_write : ℕ
max_write = 1536

-- `some none` stands for -1.
unfoldable pub filestat : File → Inode → Fs → Option (Option Stat × Inode)
filestat f ip fs = elim f.type [
  | fd_inode ↦ elim (ilock fs ip) [ none ↦ none | some ip' ↦ some (some (stati ip'), ip') ]
  | fd_none ↦ some (none, ip)
  | fd_pipe ↦ some (none, ip)
]

-- The offset after a read or a write of `r` bytes.
abbrev pub advance : ℕ → File → File
advance r f = record f { off = f.off + r }

unfoldable pub fileread :
    Option (List ℕ)
    → Option (List ℕ)
    → ℕ
    → File
    → Inode
    → Fs
    → Option (Option (List ℕ) × File × Inode × Fs)
fileread piped device n f ip fs =
    let from_inode : Option (Option (List ℕ) × File × Inode × Fs) = elim (ilock fs ip) [
      | none ↦ none
      | some ip1 ↦ elim (readi device f.off n ip1 fs) [
        | none ↦ none
        | some (none, ip2, fs2) ↦ some (none, f, ip2, fs2)
        | some (some bytes, ip2, fs2) ↦ some (some bytes, advance (length bytes) f, ip2, fs2)
      ]
    ] in
    if not f.readable
    then some (none, f, ip, fs)
    else elim f.type [ fd_pipe ↦ some (piped, f, ip, fs) | fd_inode ↦ from_inode | fd_none ↦ none ]

-- The loop of `filewrite` with the bytes that are left, for at most `k` rounds. `true` is the end of
-- the bytes, `false` a write that failed.
unfoldable pub filewrite_loop :
    ℕ → (ℕ → Option ℕ) → List ℕ → File → Inode → Fs → Option (Bool × File × Inode × Fs)
filewrite_loop zero device cs f ip fs = some (true, f, ip, fs)
filewrite_loop (suc k) device cs f ip fs =
    let n1 = min (length cs) max_write in
    let go : Option (Bool × File × Inode × Fs) = elim (ilock fs ip) [
      | none ↦ none
      | some ip1 ↦ elim (writei (device n1) f.off (take n1 cs) ip1 fs) [
        | none ↦ none
        | some (none, ip2, fs2) ↦ some (false, f, ip2, fs2)
        | some (some r, ip2, fs2) ↦
            let more : Option (Bool × File × Inode × Fs) =
              filewrite_loop k device (drop n1 cs) (advance r f) ip2 fs2 in
            if r == n1 then more else none
      ]
    ] in
    if length cs == 0 then some (true, f, ip, fs) else go

unfoldable pub filewrite :
    Option ℕ → (ℕ → Option ℕ) → List ℕ → File → Inode → Fs → Option (Option ℕ × File × Inode × Fs)
unfolding filewrite_loop
filewrite piped device cs f ip fs =
    let to_inode : Option (Option ℕ × File × Inode × Fs) =
      elim (filewrite_loop (length cs / max_write + 1) device cs f ip fs) [
        | none ↦ none
        | some (true, f', ip', fs') ↦ some (some (length cs), f', ip', fs')
        | some (false, f', ip', fs') ↦ some (none, f', ip', fs')
      ] in
    if not f.writable
    then some (none, f, ip, fs)
    else elim f.type [ fd_pipe ↦ some (piped, f, ip, fs) | fd_inode ↦ to_inode | fd_none ↦ none ]
