-- ===== src/Inode.antt =====
-- fs.c: the cache of in-memory inodes, with a reference count for each entry.
-- `icache.lock` makes each operation one atomic step. `none` is a panic. The sleep lock of an entry
-- is not part of this model.
pub mod Cache
mod Tests
use sofinal_project.Prelude.{
  ℕ, suc, ◌+◌, Bool, true, false, ◌&&◌, Option, none, some, List, [], ◌∷◌, ltb, ◌==◌, if◌then◌else◌,
  get_elem?, modify,
}

-- `struct inode`
pub record Inode : Type 0 where
  pub dev : ℕ
  pub inum : ℕ
  pub ref : ℕ
  pub valid : Bool
  pub type : ℕ
  pub major : ℕ
  pub minor : ℕ
  pub nlink : ℕ
  pub size : ℕ
  pub addrs : List ℕ

-- `struct stat`
pub record Stat : Type 0 where
  pub type : ℕ
  pub dev : ℕ
  pub ino : ℕ
  pub nlink : ℕ
  pub size : ℕ

pub data Scan : Type 0 where
  hit : ℕ → Scan
  miss : (empty : Option ℕ) → Scan

abbrev pub is_for : ℕ → ℕ → Inode → Bool
is_for dev inum ip = ltb 0 ip.ref && (ip.dev == dev && ip.inum == inum)

abbrev pub is_empty : Inode → Bool
is_empty ip = ip.ref == 0

-- `empty == 0 && ip->ref == 0`: the first empty slot is remembered.
abbrev pub remember : Option ℕ → ℕ → Inode → Option ℕ
remember none i ip = if is_empty ip then some i else none
remember (some e) i ip = some e

-- The loop of `iget` from slot `i` on.
pub iget_scan : ℕ → ℕ → ℕ → Option ℕ → List Inode → Scan
iget_scan dev inum i empty [] = miss empty
iget_scan dev inum i empty (ip ∷ ips) =
    let rest = iget_scan dev inum (suc i) (remember empty i ip) ips in
    if is_for dev inum ip then hit i else rest

-- Returns the slot of the entry.
unfoldable pub iget : ℕ → ℕ → List Inode → Option (ℕ × List Inode)
unfolding iget_scan
iget dev inum ips = elim (iget_scan dev inum 0 none ips) [
  | hit i ↦ some (i, modify ips i (λ ip. record ip { ref = ip.ref + 1 }))
  | miss none ↦ none
  | miss (some e) ↦
      some (e, modify ips e (λ ip. record ip { dev = dev; inum = inum; ref = 1; valid = false }))
]

unfoldable pub idup : ℕ → List Inode → List Inode
idup i ips = modify ips i (λ ip. record ip { ref = ip.ref + 1 })

-- `stati`
unfoldable pub stati : Inode → Stat
stati ip = record { type = ip.type; dev = ip.dev; ino = ip.inum; nlink = ip.nlink; size = ip.size }
