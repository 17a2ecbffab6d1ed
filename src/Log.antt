-- ===== src/Log.antt =====
-- log.c: the write-ahead log, over the part of the buffer cache that it relies on.
-- A block is read and written whole, as a function from the index of a 32-bit word to the word. A
-- clean buffer holds what its disk block holds, so the cache is modelled by its dirty buffers alone.
-- `power` is the number of block writes that the disk still carries out before the machine stops:
-- from then on nothing changes. The loops of the code run to `log.lh.n`.
pub mod Crash
pub mod Recovery
pub mod Committing
pub mod AllOrNothing
pub mod Reserve
pub mod Space
mod Tests
use sofinal_project.Prelude.{
  ℕ, zero, suc, ◌+◌, ◌-◌, ◌*◌, Bool, true, false, ◌&&◌, ◌||◌, not, Option, none, some, ltb, leb,
  ◌==◌, if◌then◌else◌, update,
}

abbrev pub log_size : ℕ
log_size = 30

abbrev pub max_op_blocks : ℕ
max_op_blocks = 10

abbrev pub Words : Type 0
Words = ℕ → ℕ

-- `log`, with the disk and the dirty buffers of its device.
pub record Log : Type 0 where
  pub disk : ℕ → Words
  pub dirty : ℕ → Option Words
  pub power : ℕ
  pub start : ℕ
  pub size : ℕ
  pub outstanding : ℕ
  pub committing : Bool
  pub n : ℕ
  pub block : ℕ → ℕ

abbrev pub cached_or : Option Words → Words → Words
cached_or none d = d
cached_or (some w) d = w

-- The contents that `bread` returns.
abbrev pub bread : ℕ → Log → Words
bread b l = cached_or (l.dirty b) (l.disk b)

-- `bwrite` of a buffer with the contents `w`. The buffer is clean afterwards.
abbrev pub bwrite : ℕ → Words → Log → Log
bwrite b w l =
    if l.power == 0
    then l
    else record l { disk = update l.disk b w; dirty = update l.dirty b none; power = l.power - 1 }

-- `install_trans` for `k` entries from `tail` on.
pub install_loop : ℕ → ℕ → Log → Log
install_loop zero tail l = l
install_loop (suc k) tail l =
    install_loop k (suc tail) (bwrite (l.block tail) (bread (l.start + tail + 1) l) l)

unfoldable pub install_trans : Log → Log
unfolding install_loop
install_trans l = install_loop l.n 0 l

-- `log.lh.block[i] = lh->block[i]` for the first `k` entries. The array follows the count.
pub load_entries : ℕ → Words → (ℕ → ℕ) → ℕ → ℕ
load_entries zero w block = block
load_entries (suc k) w block = update (load_entries k w block) k (w (suc k))

unfoldable pub read_head : Log → Log
unfolding load_entries
read_head l =
    let head = bread l.start l in
    record l { n = head 0; block = load_entries (head 0) head l.block }

-- `hb->block[i] = log.lh.block[i]` for the first `k` entries.
pub store_entries : ℕ → (ℕ → ℕ) → Words → Words
store_entries zero block w = w
store_entries (suc k) block w = update (store_entries k block w) (suc k) (block k)

unfoldable pub write_head : Log → Log
unfolding store_entries
write_head l = bwrite l.start (store_entries l.n l.block (update (bread l.start l) 0 l.n)) l

unfoldable pub recover_from_log : Log → Log
unfolding read_head install_trans write_head
recover_from_log l = write_head (record (install_trans (read_head l)) { n = 0 })

-- `write_log` for `k` entries from `tail` on.
pub write_log_loop : ℕ → ℕ → Log → Log
write_log_loop zero tail l = l
write_log_loop (suc k) tail l =
    write_log_loop k (suc tail) (bwrite (l.start + tail + 1) (bread (l.block tail) l) l)

unfoldable pub write_log : Log → Log
unfolding write_log_loop
write_log l = write_log_loop l.n 0 l

unfoldable pub commit : Log → Log
unfolding write_log write_head install_trans
commit l =
    if ltb 0 l.n
    then write_head (record (install_trans (write_head (write_log l))) { n = 0 })
    else l

-- The machine starts again after a crash: the buffers are lost, and the disk works for `power`
-- writes.
abbrev pub reboot : ℕ → Log → Log
reboot power l = record l { dirty = λ b. none; power = power }

-- `initlog` after a restart: where the log lies comes from the superblock.
unfoldable pub initlog : ℕ → ℕ → Log → Log
unfolding recover_from_log
initlog logstart nlog l = recover_from_log (record l { start = logstart; size = nlog })

-- `begin_op`: the operation is admitted, or sleeps on the log until it is woken to try again.
pub data Begun : Type 0 where
  admitted waits : Begun

unfoldable pub begin_op : Log → Begun × Log
begin_op l =
    if l.committing
    then (waits, l)
    else if ltb log_size (l.n + (l.outstanding + 1) * max_op_blocks)
    then (waits, l)
    else (admitted, record l { outstanding = l.outstanding + 1 })

-- The first critical section of `end_op`: whether the caller has to commit. `none` is the panic.
-- Sleepers are woken here if it does not, and after the commit if it does. It is called by an operation
-- that has begun: `outstanding` is at least 1.
unfoldable pub leave_op : Log → Option (Bool × Log)
leave_op l =
    if l.committing
    then none
    else if l.outstanding == 1
    then some (true, record l { outstanding = l.outstanding - 1; committing = true })
    else some (false, record l { outstanding = l.outstanding - 1 })

unfoldable pub end_op : Log → Option Log
unfolding leave_op commit
end_op l = elim (leave_op l) [
  | none ↦ none
  | some (true, l') ↦ some (record (commit l') { committing = false })
  | some (false, l') ↦ some l'
]

-- The loop of `log_write`: the index of the entry for block `b`, or `n`.
pub find_entry : ℕ → ℕ → ℕ → (ℕ → ℕ) → ℕ
find_entry zero i b block = i
find_entry (suc k) i b block =
    let later = find_entry k (suc i) b block in if block i == b then i else later

-- `log_write` of a buffer that its caller has given the contents `w`. `none` is a panic.
unfoldable pub log_write : ℕ → Words → Log → Option Log
unfolding find_entry
log_write b w l =
    if leb log_size l.n || leb (l.size - 1) l.n
    then none
    else if ltb l.outstanding 1
    then none
    else let i = find_entry l.n 0 b l.block in
      some (record l {
        block = update l.block i b;
        n = if i == l.n then l.n + 1 else l.n;
        dirty = update l.dirty b (some w);
      })
