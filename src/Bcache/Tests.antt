-- ===== src/Bcache/Tests.antt =====
-- A cache of three buffers.
use sofinal_project.Prelude.{ℕ, ◌+◌, ◌≡◌, ◌≤◌, refl, true, false, some, List, [], ◌∷◌, arith}
use sofinal_project.Bcache.{Buf, bget, bget_cached, bget_recycle, brelse, unlink}
use sofinal_project.Bcache.Lookup.{copies, total_refs, bget_unique}

abbrev buf : ℕ → ℕ → ℕ → Buf
buf slot blockno refcnt = record {
  slot = slot;
  valid = true;
  dirty = false;
  dev = 1;
  blockno = blockno;
  refcnt = refcnt;
}

-- Block 6 was used least recently.
abbrev cache : List Buf
cache = buf 2 4 1 ∷ buf 0 5 0 ∷ buf 1 6 0 ∷ []

abbrev fetched : Buf
fetched = record (buf 1 9 1) { valid = false }

abbrev cache_then : List Buf
cache_then = buf 2 4 1 ∷ buf 0 5 0 ∷ fetched ∷ []

recycles_last : bget 1 9 cache ≡ some (fetched, cache_then)
unfolding bget bget_cached bget_recycle
recycles_last = refl

bget_unique_example :
    (fetched.dev ≡ 1)
    × (fetched.blockno ≡ 9)
    × (copies 1 9 cache_then ≤ 1)
    × (total_refs cache_then ≡ total_refs cache + 1)
unfolding copies
bget_unique_example = bget_unique 1 9 1 9 cache fetched cache_then recycles_last (omega arith)

moves_to_front :
    brelse 1 cache_then ≡ some (record fetched { refcnt = 0 } ∷ buf 2 4 1 ∷ buf 0 5 0 ∷ [])
unfolding brelse unlink
moves_to_front = refl
