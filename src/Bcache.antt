-- ===== src/Bcache.antt =====
-- The buffer cache of bio.c. The circular list through prev and next is the list of its buffers from
-- head.next on, the most recently used first. A buffer's contents and its sleep lock
-- are left out: `brelse` is called by the process that holds the lock.
pub mod Lookup
mod Tests
use sofinal_project.Prelude.{
  ℕ, zero, suc, ◌+◌, ◌-◌, Bool, true, false, ◌&&◌, not, Option, none, some, List, [], ◌∷◌, ◌++◌,
  ◌==◌, if◌then◌else◌,
}

-- `slot` is the buffer's place in the array bcache.buf.
pub record Buf : Type 0 where
  pub slot : ℕ
  pub valid : Bool
  pub dirty : Bool
  pub dev : ℕ
  pub blockno : ℕ
  pub refcnt : ℕ

-- `binit` for `n` buffers: each is put in front of those before it.
unfoldable pub binit : ℕ → List Buf
binit zero = []
binit (suc n) =
    record { slot = n; valid = false; dirty = false; dev = 0; blockno = 0; refcnt = 0 } ∷ binit n

abbrev pub caches : ℕ → ℕ → Buf → Bool
caches dev blockno b = b.dev == dev && b.blockno == blockno

abbrev pub is_idle : Buf → Bool
is_idle b = b.refcnt == 0 && not b.dirty

-- The first loop of `bget`: the buffer found, with one more reference, and the list.
unfoldable pub bget_cached : ℕ → ℕ → List Buf → Option (Buf × List Buf)
bget_cached dev blockno [] = none
bget_cached dev blockno (b ∷ bs) =
    let later = bget_cached dev blockno bs in
    if caches dev blockno b
    then some (record b { refcnt = b.refcnt + 1 }, record b { refcnt = b.refcnt + 1 } ∷ bs)
    else elim later [ none ↦ none | some (c, cs) ↦ some (c, b ∷ cs) ]

abbrev pub recycled : ℕ → ℕ → Buf → Buf
recycled dev blockno b = record b {
  dev = dev;
  blockno = blockno;
  valid = false;
  dirty = false;
  refcnt = 1;
}

-- The second loop, which comes from the end of the list.
unfoldable pub bget_recycle : ℕ → ℕ → List Buf → Option (Buf × List Buf)
bget_recycle dev blockno [] = none
bget_recycle dev blockno (b ∷ bs) = elim (bget_recycle dev blockno bs) [
  | some (c, cs) ↦ some (c, b ∷ cs)
  | none ↦ if is_idle b then some (recycled dev blockno b, recycled dev blockno b ∷ bs) else none
]

-- `none` is the panic: every buffer is in use.
unfoldable pub bget : ℕ → ℕ → List Buf → Option (Buf × List Buf)
unfolding bget_cached bget_recycle
bget dev blockno bs = elim (bget_cached dev blockno bs) [
  | some found ↦ some found
  | none ↦ bget_recycle dev blockno bs
]

-- The buffer in a slot taken out of the list, and the others.
unfoldable pub unlink : ℕ → List Buf → Option (Buf × List Buf)
unlink slot [] = none
unlink slot (b ∷ bs) =
    let later = unlink slot bs in
    if b.slot == slot
    then some (b, bs)
    else elim later [ none ↦ none | some (c, cs) ↦ some (c, b ∷ cs) ]

-- A reference less for the buffer in a slot, where it stands.
unfoldable pub drop_ref : ℕ → List Buf → List Buf
drop_ref slot [] = []
drop_ref slot (b ∷ bs) =
    let later = drop_ref slot bs in
    if b.slot == slot then record b { refcnt = b.refcnt - 1 } ∷ bs else b ∷ later

-- A buffer without other users moves to the front.
unfoldable pub brelse : ℕ → List Buf → Option (List Buf)
unfolding unlink drop_ref
brelse slot bs = elim (unlink slot bs) [
  | none ↦ none
  | some (b, rest) ↦
      some
        (if b.refcnt - 1 == 0 then record b { refcnt = b.refcnt - 1 } ∷ rest else drop_ref slot bs)
]
