-- ===== src/Inode/Cache.antt =====
-- `iget` finds or makes the one entry of an inode.
use mathlib.Core.Option
use sofinal_project.Prelude.{
  ℕ, suc, ◌+◌, ◌<◌, ◌≡◌, ◌↔◌, refl, inl, inr, true, false, Option, none, some, List, [], ◌∷◌, arith,
  get_elem?, modify, find_first, find_first-some, find_first-none, find_first-exists, Option-cases,
  get_elem?-modify_self, get_elem?-modify-some, IsFirst,
}
use sofinal_project.Inode.{Inode, hit, miss, is_for, is_empty, remember, iget_scan, iget, idup}

-- The slot that the loop remembers for an inode that is not cached.
abbrev slot_after : Option ℕ → ℕ → Option ℕ → Option ℕ
slot_after (some e) i later = some e
slot_after none i later = Option.map (λ k. i + k) later

-- The loop of `iget` is two independent scans: one for the entry, one for an empty slot.
iget_scan-find :
    (dev inum i : ℕ) (empty : Option ℕ) (ips : List Inode)
    → iget_scan dev inum i empty ips ≡ elim (find_first (is_for dev inum) ips) [
      | some k ↦ hit (i + k)
      | none ↦ miss (slot_after empty i (find_first is_empty ips))
    ]
unfolding iget_scan find_first
iget_scan-find dev inum i none [] = refl
iget_scan-find dev inum i (some e) [] = refl
iget_scan-find dev inum i none (ip ∷ ips) =
    ground (arith, iget_scan-find dev inum (suc i) (remember none i ip) ips)
iget_scan-find dev inum i (some e) (ip ∷ ips) =
    ground (arith, iget_scan-find dev inum (suc i) (some e) ips)

-- Two live entries never stand for the same inode.
abbrev pub IsUnique : List Inode → Type 0
IsUnique ips =
    (i j : ℕ) (a b : Inode)
    → get_elem? ips i ≡ some a
    → get_elem? ips j ≡ some b
    → 0 < a.ref
    → 0 < b.ref
    → a.dev ≡ b.dev
    → a.inum ≡ b.inum
    → i ≡ j

-- The entry of a live inode, in slot `i`.
abbrev pub Cached : ℕ → ℕ → ℕ → Inode → List Inode → Type 0
Cached dev inum i a ips = (get_elem? ips i ≡ some a) × (0 < a.ref) × (a.dev ≡ dev) × (a.inum ≡ inum)

is_for-Cached :
    (dev inum k : ℕ) (b : Inode) (ips : List Inode)
    → IsFirst (is_for dev inum) ips k b
    → Cached dev inum k b ips
is_for-Cached dev inum k b ips first = (
  first.at,
  ground (arith, first.passes),
  ground (arith, first.passes),
  ground (arith, first.passes),
)

iget-find :
    (dev inum : ℕ) (ips : List Inode) (k : ℕ)
    → find_first (is_for dev inum) ips ≡ some k
    → iget dev inum ips ≡ some (k, idup k ips)
unfolding iget idup
iget-find dev inum ips k found = ground (arith, iget_scan-find dev inum 0 none ips)

iget-miss :
    (dev inum : ℕ) (ips : List Inode) (k : ℕ)
    → find_first (is_for dev inum) ips ≡ none
    → find_first is_empty ips ≡ some k
    → iget dev inum ips
      ≡ some (k, modify ips k (λ ip. record ip { dev = dev; inum = inum; ref = 1; valid = false }))
unfolding iget
iget-miss dev inum ips k absent found = ground (arith, iget_scan-find dev inum 0 none ips)

iget-full :
    (dev inum : ℕ) (ips : List Inode)
    → find_first (is_for dev inum) ips ≡ none
    → find_first is_empty ips ≡ none
    → iget dev inum ips ≡ none
unfolding iget
iget-full dev inum ips absent full = ground (arith, iget_scan-find dev inum 0 none ips)

-- For an inode that is cached, `iget` returns its entry, counts one reference more and changes
-- nothing else.
pub iget-Cached :
    (dev inum i : ℕ) (a : Inode) (ips : List Inode)
    → IsUnique ips
    → Cached dev inum i a ips
    → iget dev inum ips ≡ some (i, idup i ips)
iget-Cached dev inum i a ips unique (at, live, d, n) =
    let passes : is_for dev inum a ≡ true = ground arith in
    let (k, found) = find_first-exists (is_for dev inum) ips i a at passes in
    let (b, first) = find_first-some (is_for dev inum) ips k found in
    let live_b : (0 < b.ref) × (b.dev ≡ dev) × (b.inum ≡ inum) = ground (arith, first.passes) in
    let same : k ≡ i = unique k i b a first.at at live_b.0 live (ground arith) (ground arith) in
    rw (← same) (iget-find dev inum ips k found)

-- For one that is not cached, `iget` takes a slot that no reference names, and makes it the inode's
-- entry, with one reference and its contents still to be read.
pub iget-uncached :
    (dev inum : ℕ) (ips : List Inode)
    → ((i : ℕ) (a : Inode) → ¬ (Cached dev inum i a ips))
    → (j : ℕ) (e : Inode) → get_elem? ips j ≡ some e
    → e.ref ≡ 0
    → (k : ℕ) × (old : Inode) × (get_elem? ips k ≡ some old)
      × (old.ref ≡ 0)
      × (iget dev inum ips
          ≡ some (
            k,
            modify ips k (λ ip. record ip { dev = dev; inum = inum; ref = 1; valid = false }),
          ))
iget-uncached dev inum ips absent j e at z =
    elim (Option-cases (find_first (is_for dev inum) ips)) [
      | inr (k, found) ↦
          let (b, first) = find_first-some (is_for dev inum) ips k found in
          absurd (absent k b (is_for-Cached dev inum k b ips first))
      | inl none_found ↦
          let (k, found) = find_first-exists is_empty ips j e at (ground arith) in
          let (old, first) = find_first-some is_empty ips k found in
          (
            k,
            old,
            first.at,
            ground (arith, first.passes),
            iget-miss dev inum ips k none_found found,
          )
    ]

-- `iget` panics exactly when the inode is not cached and every slot is referenced.
pub iget-none_iff :
    (dev inum : ℕ) (ips : List Inode)
    → (iget dev inum ips ≡ none) ↔ (
        ((i : ℕ) (a : Inode)
          → get_elem? ips i ≡ some a
          → (0 < a.ref) × (¬ (Cached dev inum i a ips))))
iget-none_iff dev inum ips = (
  λ h i a at. elim (Option-cases (find_first (is_for dev inum) ips)) [
    | inr (k, found) ↦ absurd (ground (arith, iget-find dev inum ips k found))
    | inl absent ↦ elim (Option-cases (find_first is_empty ips)) [
      | inr (k, found) ↦ absurd (ground (arith, iget-miss dev inum ips k absent found))
      | inl full ↦ (
        ground (arith, find_first-none is_empty ips full i a at),
        λ c. ground (arith, find_first-none (is_for dev inum) ips absent i a at),
      )
    ]
  ],
  λ all. elim (Option-cases (find_first (is_for dev inum) ips)) [
    | inr (k, found) ↦
        let (b, first) = find_first-some (is_for dev inum) ips k found in
        absurd ((all k b first.at).1 (is_for-Cached dev inum k b ips first))
    | inl absent ↦ elim (Option-cases (find_first is_empty ips)) [
      | inr (k, found) ↦
          let (b, first) = find_first-some is_empty ips k found in
          absurd (ground (arith, first.passes, (all k b first.at).0))
      | inl full ↦ iget-full dev inum ips absent full
    ]
  ],
)

idup-IsUnique :
    (k : ℕ) (ips : List Inode)
    → IsUnique ips
    → ((a : Inode) → get_elem? ips k ≡ some a → 0 < a.ref)
    → IsUnique (idup k ips)
unfolding idup
idup-IsUnique k ips unique live i j a b ga gb la lb d n =
    let (x, gx, ex) = get_elem?-modify-some ips k i _ ga in
    let (y, gy, ey) = get_elem?-modify-some ips k j _ gb in
    ground (arith, unique i j x y gx gy, live x, live y)

recycle-IsUnique :
    (dev inum k : ℕ) (ips : List Inode)
    → IsUnique ips
    → find_first (is_for dev inum) ips ≡ none
    → IsUnique (modify ips k (λ ip. record ip { dev = dev; inum = inum; ref = 1; valid = false }))
recycle-IsUnique dev inum k ips unique absent i j a b ga gb la lb d n =
    let (x, gx, ex) = get_elem?-modify-some ips k i _ ga in
    let (y, gy, ey) = get_elem?-modify-some ips k j _ gb in
    ground (
      arith,
      unique i j x y gx gy,
      find_first-none (is_for dev inum) ips absent i x gx,
      find_first-none (is_for dev inum) ips absent j y gy,
    )

-- However `iget` ends, if it does not panic the cache still has at most one live entry for each
-- inode, and the slot returned holds one.
pub iget-IsUnique :
    (dev inum i : ℕ) (ips ips' : List Inode)
    → IsUnique ips
    → iget dev inum ips ≡ some (i, ips')
    → IsUnique ips' × ((a : Inode) × Cached dev inum i a ips')
unfolding idup
iget-IsUnique dev inum i ips ips' unique h =
    elim (Option-cases (find_first (is_for dev inum) ips)) [
      | inr (k, found) ↦
          let (b, first) = find_first-some (is_for dev inum) ips k found in
          let more : Inode → Inode = λ ip. record ip { ref = ip.ref + 1 } in
          let c : Cached dev inum k b ips = is_for-Cached dev inum k b ips first in
          let ek : k ≡ i = ground (arith, iget-find dev inum ips k found) in
          let el : idup k ips ≡ ips' = ground (arith, iget-find dev inum ips k found) in
          rw (← el, ← ek)
            (
              idup-IsUnique k ips unique (λ a at. ground arith),
              (
                record b { ref = b.ref + 1 },
                (rw (get_elem?-modify_self ips k more, c.0) refl, omega arith, c.2, c.3),
              ),
            )
      | inl absent ↦ elim (Option-cases (find_first is_empty ips)) [
        | inl full ↦ absurd (ground (arith, iget-full dev inum ips absent full))
        | inr (k, found) ↦
            let (b, first) = find_first-some is_empty ips k found in
            let made : Inode → Inode =
              λ ip. record ip { dev = dev; inum = inum; ref = 1; valid = false } in
            let ek : k ≡ i = ground (arith, iget-miss dev inum ips k absent found) in
            let el : modify ips k made ≡ ips' =
              ground (arith, iget-miss dev inum ips k absent found) in
            rw (← el, ← ek)
              (
                recycle-IsUnique dev inum k ips unique absent,
                (
                  made b,
                  (rw (get_elem?-modify_self ips k made, first.at) refl, omega arith, refl, refl),
                ),
              )
      ]
    ]
