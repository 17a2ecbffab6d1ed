-- ===== src/Ide.antt =====
-- ide.c: the queue of requests to the disk. A buffer is its number; `commands` collects what `idestart` writes to the
-- ports of the controller, `woken` the calls of `wakeup`. `none` is a panic. What the disk returns at an
-- interrupt is an argument; the loop of `idewait` is taken to end.
pub mod Order
mod Tests
use sofinal_project.Prelude.{
  ℕ, zero, suc, ◌*◌, ◌+◌, ◌/◌, ◌%◌, Bool, true, false, not, ◌&&◌, ◌||◌, Option, none, some, List,
  [], ◌∷◌, ◌++◌, ltb, ◌==◌, if◌then◌else◌,
}
use sofinal_project.Mkfs.{fs_size}

-- `B_VALID` and `B_DIRTY` are flags of their own; `locked` says whether the caller of `iderw` holds the lock.
pub record Buf : Type 0 where
  pub valid : Bool
  pub dirty : Bool
  pub dev : ℕ
  pub blockno : ℕ
  pub bytes : List ℕ
  pub locked : Bool

-- The bytes of the sector number, the drive, and the data of a write.
pub record Command : Type 0 where
  pub sector0 : ℕ
  pub sector1 : ℕ
  pub sector2 : ℕ
  pub drive : ℕ
  pub written : Option (List ℕ)

pub record Ide : Type 0 where
  pub bufs : ℕ → Buf
  pub queue : List ℕ
  pub commands : List Command
  pub woken : List ℕ
  pub havedisk1 : Bool

-- BSIZE is SECTOR_SIZE, so a sector is a block.
abbrev pub command_of : Buf → Command
command_of b = record {
  sector0 = b.blockno % 256;
  sector1 = b.blockno / 256 % 256;
  sector2 = b.blockno / 65536 % 256;
  drive = 224 + b.dev % 2 * 16 + b.blockno / 16777216 % 16;
  written = if b.dirty then some b.bytes else none;
}

abbrev pub set_buf : ℕ → Buf → (ℕ → Buf) → ℕ → Buf
set_buf i b bufs j = if j == i then b else bufs j

unfoldable pub idestart : ℕ → Ide → Option Ide
idestart b s =
    if not (ltb (s.bufs b).blockno fs_size)
    then none
    else some (record s { commands = s.commands ++ command_of (s.bufs b) ∷ [] })

-- The buffer behind its request. `insl` is `some` where `idewait` found no error.
abbrev pub finished : Option (List ℕ) → Buf → Buf
finished insl b =
    if b.dirty
    then record b { valid = true; dirty = false }
    else record b { valid = true; bytes = elim insl [ none ↦ b.bytes | some bytes ↦ bytes ] }

abbrev pub start_next : List ℕ → Ide → Option Ide
start_next [] s = some s
start_next (b ∷ rest) s = idestart b s

abbrev pub finish : Option (List ℕ) → List ℕ → Ide → Option Ide
finish insl [] s = some s
finish insl (b ∷ rest) s = start_next rest (record s {
  queue = rest;
  bufs = set_buf b (finished insl (s.bufs b)) s.bufs;
  woken = s.woken ++ b ∷ [];
})

unfoldable pub ideintr : Option (List ℕ) → Ide → Option Ide
unfolding idestart
ideintr insl s = finish insl s.queue s

-- `idequeue == b`, behind the append to an empty queue.
abbrev pub is_first : List ℕ → Bool
is_first [] = true
is_first (b ∷ queue) = false

-- `iderw` up to its sleep, which ends with `wakeup(b)`.
unfoldable pub iderw : ℕ → Ide → Option Ide
unfolding idestart
iderw b s =
    let c = s.bufs b in
    let s' = record s { queue = s.queue ++ b ∷ [] } in
    if not c.locked
    then none
    else if c.valid && not c.dirty
    then none
    else if not (c.dev == 0) && not s.havedisk1
    then none
    else if is_first s.queue
    then idestart b s'
    else some s'
