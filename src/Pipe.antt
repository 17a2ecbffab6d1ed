-- ===== src/Pipe.antt =====
-- pipe.c: a ring of 512 bytes between a reading and a writing end.
-- `p->lock` is held through each call but for its sleeps, so a call is one atomic step up to the
-- next sleep; it goes on with the same definition when it has been woken. Bytes are only moved.
pub mod Queue
pub mod Stream
pub mod Fifo
pub mod Alloc
mod Tests
use sofinal_project.Prelude.{
  ℕ, zero, suc, ◌+◌, ◌-◌, ◌%◌, ◌^◌, Bool, true, false, ◌&&◌, ◌||◌, not, Option, none, some, List,
  [], ◌∷◌, ◌==◌, if◌then◌else◌, modify, update,
}
use sofinal_project.Kalloc.{Kmem, kalloc, kfree}
use sofinal_project.File.{File, fd_pipe, filealloc, fileclose}

abbrev pub pipe_size : ℕ
pipe_size = 512

-- `struct pipe`. The two counts are `uint`s and wrap around.
pub record Pipe : Type 0 where
  pub bytes : ℕ → ℕ
  pub nread : ℕ
  pub nwrite : ℕ
  pub readopen : Bool
  pub writeopen : Bool

-- The two addresses that processes sleep on.
pub data PipeChan : Type 0 where
  on_read on_write : PipeChan

abbrev pub is_full : Pipe → Bool
is_full p = p.nwrite == (p.nread + pipe_size) % 2 ^ 32

abbrev pub is_drained : Pipe → Bool
is_drained p = p.nread == p.nwrite

-- `p->data[p->nwrite++ % PIPESIZE] = b`
abbrev pub put_byte : ℕ → Pipe → Pipe
put_byte b p = record p {
  bytes = update p.bytes (p.nwrite % pipe_size) b;
  nwrite = (p.nwrite + 1) % 2 ^ 32;
}

-- `p->data[p->nread++ % PIPESIZE]`
abbrev pub next_byte : Pipe → ℕ
next_byte p = p.bytes (p.nread % pipe_size)

abbrev pub skip_byte : Pipe → Pipe
skip_byte p = record p { nread = (p.nread + 1) % 2 ^ 32 }

-- How far `pipewrite` gets: to its end, to `return -1`, or to its sleep; the bytes still to be
-- written are those that are left.
pub data Wrote : Type 0 where
  finished : Wrote
  refused : (left : List ℕ) → Wrote
  sleeping : (left : List ℕ) → Wrote

-- The loops of `pipewrite`. `killed` is the caller's flag.
unfoldable pub write_loop : Bool → List ℕ → Pipe → Wrote × Pipe
write_loop killed [] p = (finished, p)
write_loop killed (b ∷ bs) p =
    let more = write_loop killed bs (put_byte b p) in
    if is_full p
    then if not p.readopen || killed then (refused (b ∷ bs), p) else (sleeping (b ∷ bs), p)
    else more

-- Readers are woken at the end and before a sleep.
abbrev pub write_wakes : Wrote → List PipeChan
write_wakes finished = on_read ∷ []
write_wakes (refused left) = []
write_wakes (sleeping left) = on_read ∷ []

unfoldable pub pipewrite : Bool → List ℕ → Pipe → Wrote × List PipeChan × Pipe
unfolding write_loop
pipewrite killed bs p =
    let (outcome, p') = write_loop killed bs p in (outcome, write_wakes outcome, p')

pub data Read : Type 0 where
  got : List ℕ → Read
  interrupted : Read
  waiting : Read

unfoldable pub read_loop : ℕ → Pipe → List ℕ × Pipe
read_loop zero p = ([], p)
read_loop (suc n) p =
    let (bs, p') = read_loop n (skip_byte p) in
    if is_drained p then ([], p) else (next_byte p ∷ bs, p')

unfoldable pub piperead : Bool → ℕ → Pipe → Read × List PipeChan × Pipe
unfolding read_loop
piperead killed n p =
    if is_drained p && p.writeopen
    then if killed then (interrupted, [], p) else (waiting, [], p)
    else let (bs, p') = read_loop n p in (got bs, on_write ∷ [], p')

-- Returns the channel woken, whether the page is to be freed, and the pipe.
unfoldable pub pipeclose : Bool → Pipe → PipeChan × Bool × Pipe
pipeclose writable p =
    let (woken, p') : PipeChan × Pipe =
      if writable
      then (on_read, record p { writeopen = false })
      else (on_write, record p { readopen = false }) in
    (woken, not p'.readopen && not p'.writeopen, p')

abbrev pub new_pipe : (ℕ → ℕ) → Pipe
new_pipe bytes = record { bytes = bytes; nread = 0; nwrite = 0; readopen = true; writeopen = true }

abbrev pub pipe_end : ℕ → Bool → File → File
pipe_end page writable f = record f {
  type = fd_pipe;
  readable = not writable;
  writable = writable;
  pipe = page;
}

-- The two file slots and the page of a new pipe.
pub record NewPipe : Type 0 where
  pub reader : ℕ
  pub writer : ℕ
  pub page : ℕ

-- `pipealloc`: nothing stands for -1, `none` for a panic. At `bad` no page has been allocated.
unfoldable pub pipealloc : List File → Kmem → Option (Option NewPipe × List File × Kmem)
pipealloc fs k =
    let (f0, fs0) = filealloc fs in
    let (f1, fs1) = filealloc fs0 in
    let (page, k') = kalloc k in
    elim f0 [
      | none ↦ some (none, fs0, k)
      | some a ↦ elim f1 [
        | none ↦ elim (fileclose a fs1) [ none ↦ none | some (c, gs) ↦ some (none, gs, k) ]
        | some b ↦
            if page == 0
            then elim (fileclose a fs1) [
              | none ↦ none
              | some (c, gs) ↦ elim (fileclose b gs) [
                | none ↦ none
                | some (d, hs) ↦ some (none, hs, k')
              ]
            ]
            else some (
              some (record { reader = a; writer = b; page = page }),
              modify (modify fs1 a (pipe_end page false)) b (pipe_end page true),
              k',
            )
      ]
    ]
