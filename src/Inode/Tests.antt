-- ===== src/Inode/Tests.antt =====
-- The cache at two slots.
use sofinal_project.Prelude.{ℕ, ◌≡◌, refl, true, false, some, List, [], ◌∷◌, arith, zero, suc}
use sofinal_project.Inode.{Inode, iget}
use sofinal_project.Inode.Cache.{IsUnique, Cached, iget-IsUnique}

abbrev entry : ℕ → ℕ → Inode
entry inum ref = record {
  dev = 1;
  inum = inum;
  ref = ref;
  valid = true;
  type = 1;
  major = 0;
  minor = 0;
  nlink = 1;
  size = 0;
  addrs = [];
}

abbrev cache : List Inode
cache = entry 7 2 ∷ entry 0 0 ∷ []

cache-IsUnique : IsUnique cache
cache-IsUnique zero zero a b ga gb la lb d n = refl
cache-IsUnique zero (suc zero) a b ga gb la lb d n = absurd (ground arith)
cache-IsUnique (suc zero) zero a b ga gb la lb d n = absurd (ground arith)
cache-IsUnique (suc zero) (suc zero) a b ga gb la lb d n = refl
cache-IsUnique zero (suc (suc j)) a b ga gb la lb d n = cc
cache-IsUnique (suc zero) (suc (suc j)) a b ga gb la lb d n = cc
cache-IsUnique (suc (suc i)) j a b ga gb la lb d n = cc

slot_recycled : iget 1 9 cache ≡ some (1, entry 7 2 ∷ record (entry 9 1) { valid = false } ∷ [])
unfolding iget
slot_recycled = refl

iget-IsUnique_example :
    IsUnique (entry 7 2 ∷ record (entry 9 1) { valid = false } ∷ [])
    × ((a : Inode) × Cached 1 9 1 a (entry 7 2 ∷ record (entry 9 1) { valid = false } ∷ []))
iget-IsUnique_example =
    iget-IsUnique 1 9 1 cache (entry 7 2 ∷ record (entry 9 1) { valid = false } ∷ []) cache-IsUnique
      slot_recycled
