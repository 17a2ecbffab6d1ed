-- ===== src/Vm/Lazy.antt =====
-- A page fault: what `handle_lazy_allocation` does to the address space.
use mathlib.Core.Path.{subst}
use sofinal_project.Prelude.{
  ℕ, zero, ◌+◌, ◌-◌, ◌/◌, ◌%◌, ◌^◌, ◌≤◌, ◌<◌, ◌≡◌, ◌≢◌, ◌⊎◌, refl, sym, ap, ◌∙◌, inl, inr, Bool,
  true, false, Option, none, some, List, [], ◌∷◌, arith, ltb, leb, ◌==◌,
}
use sofinal_project.Kalloc.{Kmem, kalloc}
use sofinal_project.Kalloc.FreeList.{IsPage}
use sofinal_project.Kalloc.Laws.{kalloc-pop, kfree-push}
use sofinal_project.Vm.{is_present, v2p, pg_round_down, map_one, map_loop, mappages}
use sofinal_project.Vm.Fault.{free_unless_mapped, handle_lazy_allocation}
use sofinal_project.Vm.Space.{entry_at, IsSpace}
use sofinal_project.Vm.Frame.{
  SameExcept, IsOutside, IsOutside-free, entry_at-SameExcept, IsSpace-SameExcept, kfree-SameExcept,
  cleared-SameExcept, fresh, cleared, entry_at-cleared, cleared-IsSpace,
}
use sofinal_project.Vm.Map.{map_one-remap, map_one-maps}

-- One page is one round.
pub mappages-map_one :
    (pgdir a pa perm : ℕ) (k : Kmem)
    → a % 4096 ≡ 0
    → a < 2 ^ 32
    → mappages pgdir a 4096 pa perm k ≡ map_one pgdir a pa perm k
unfolding mappages
mappages-map_one pgdir a pa perm k aligned small =
    let start : pg_round_down a ≡ a = omega arith in
    let rounds : (pg_round_down ((a + 4096 + 2 ^ 32 - 1) % 2 ^ 32) + 2 ^ 32 - pg_round_down a)
          % 2 ^ 32
          / 4096
        ≡ 0 =
      omega arith in
    ap (λ n. map_loop n pgdir (pg_round_down a) pa perm k) rounds
    ∙ loop_end (pg_round_down a)
    ∙ ap (λ x. map_one pgdir x pa perm k) start
  where
    loop_end : (x : ℕ) → map_loop zero pgdir x pa perm k ≡ map_one pgdir x pa perm k
    loop_end x = refl

-- The page fault handler on an address that it accepts, when the page `p` is next on the free list.
handler-mappages :
    (end sz pgdir faultaddr p : ℕ) (k : Kmem)
    → 4096 ≤ faultaddr
    → faultaddr < sz
    → sz ≤ 0x80000000
    → (kalloc k).0 ≡ p
    → p ≢ 0
    → handle_lazy_allocation end sz pgdir faultaddr k
      ≡ free_unless_mapped end p (map_one pgdir (pg_round_down faultaddr) (v2p p) 6 (cleared k p))
unfolding handle_lazy_allocation cleared
handler-mappages end sz pgdir faultaddr p k lo hi small e ne =
    let in_range : leb sz faultaddr ≡ false = ground arith in
    let not_null : ltb faultaddr 4096 ≡ false = ground arith in
    let some_page : ((kalloc k).0 == 0) ≡ false = ground arith in
    simp (in_range, not_null, some_page)
      (ap
          (λ q.
            free_unless_mapped end q
              (mappages pgdir (pg_round_down faultaddr) 4096 (v2p q) 6 (cleared k q)))
          e
        ∙ ap (free_unless_mapped end p) (
            mappages-map_one pgdir (pg_round_down faultaddr) (v2p p) 6 (cleared k p) (omega arith)
              (omega arith)))

-- A fault on a page that is mapped already, such as an access to the guard page below the stack, whose
-- entry has no PTE_U: the handler takes it for a page that is missing, and the kernel panics. The
-- address is at least PGSIZE and below the size of the process, and a page is free.
pub handle_lazy_allocation-remap :
    (end sz pgdir faultaddr p : ℕ) (k : Kmem) (qs : List ℕ)
    → IsSpace end pgdir k (p ∷ qs)
    → 4096 ≤ faultaddr
    → faultaddr < sz
    → sz ≤ 0x80000000
    → is_present (entry_at k.mem pgdir (pg_round_down faultaddr)) ≡ true
    → handle_lazy_allocation end sz pgdir faultaddr k ≡ none
handle_lazy_allocation-remap end sz pgdir faultaddr p k qs s lo hi small mapped =
    handler-mappages end sz pgdir faultaddr p k lo hi small (kalloc-pop end k p qs s.free).0
      (omega (arith, fresh end pgdir k p qs s))
    ∙ ap (free_unless_mapped end p) (
        map_one-remap end pgdir (cleared k p) qs (pg_round_down faultaddr) (v2p p) 6
          (cleared-IsSpace end pgdir k p qs s)
          (ap is_present (entry_at-cleared end pgdir k p qs s (pg_round_down faultaddr)) ∙ mapped))

-- After the handler has failed to map the page `p`: it is the only free page again.
abbrev pub Restored : ℕ → ℕ → Kmem → ℕ → Option (Bool × Kmem) → Type 0
Restored end pgdir k p r =
    (k' : Kmem) × (r ≡ some (false, k'))
    × ((b : ℕ) → entry_at k'.mem pgdir b ≡ entry_at k.mem pgdir b)
    × IsSpace end pgdir k' (p ∷ [])

restore :
    (end pgdir p : ℕ) (k : Kmem)
    → IsSpace end pgdir k (p ∷ [])
    → Restored end pgdir k p (free_unless_mapped end p (some (false, cleared k p)))
restore end pgdir p k s =
    let page : IsPage end p = fresh end pgdir k p [] s in
    let s' : IsSpace end pgdir (cleared k p) [] = cleared-IsSpace end pgdir k p [] s in
    let (k', frees, c, u) = kfree-push end p (cleared k p) [] page refl s'.free in
    let same : SameExcept p k.mem k'.mem = λ q j hq ne lt.
      kfree-SameExcept end p (cleared k p) k' (page.0) frees q j hq ne lt
      ∙ cleared-SameExcept end pgdir k p [] s q j hq ne lt in
    let out : IsOutside pgdir k.mem p = IsOutside-free end pgdir k p [] s in
    (
      k',
      rw (frees, free_unless_mapped) refl,
      entry_at-SameExcept end pgdir k (p ∷ []) s p k'.mem same out,
      IsSpace-SameExcept end pgdir k (p ∷ []) s p k'.mem same out k'.use_lock k'.freelist (p ∷ []) c
          s.root_used (λ i lt here. (s.tables i lt here).1),
    )

-- A fault at an address of at least PGSIZE below the size of the process, on a page that is not mapped, when the
-- page `p` is next on the free list: the handler maps it to `p`, writable and for the user,
-- and changes no other mapping; or there is no page for the table, and it fails with all mappings and the
-- free page as before.
pub handle_lazy_allocation-maps :
    (end sz pgdir faultaddr p : ℕ) (k : Kmem) (qs : List ℕ)
    → IsSpace end pgdir k (p ∷ qs)
    → 4096 ≤ faultaddr
    → faultaddr < sz
    → sz ≤ 0x80000000
    → is_present (entry_at k.mem pgdir (pg_round_down faultaddr)) ≡ false
    → ((k' : Kmem) × (rs : List ℕ) × (handle_lazy_allocation end sz pgdir faultaddr k
          ≡ some (true, k'))
        × (entry_at k'.mem pgdir (pg_round_down faultaddr) ≡ v2p p + 7)
        × ((b : ℕ)
            → b < 2 ^ 32
            → b / 4096 ≢ faultaddr / 4096
            → entry_at k'.mem pgdir b ≡ entry_at k.mem pgdir b)
        × IsSpace end pgdir k' rs)
      ⊎ ((qs ≡ []) × Restored end pgdir k p (handle_lazy_allocation end sz pgdir faultaddr k))
handle_lazy_allocation-maps end sz pgdir faultaddr p k qs s lo hi small unmapped =
    let handles : handle_lazy_allocation end sz pgdir faultaddr k
        ≡ free_unless_mapped end p
            (map_one pgdir (pg_round_down faultaddr) (v2p p) 6 (cleared k p)) =
      handler-mappages end sz pgdir faultaddr p k lo hi small (kalloc-pop end k p qs s.free).0
        (omega (arith, fresh end pgdir k p qs s)) in
    elim (map_one-maps end pgdir (cleared k p) qs (pg_round_down faultaddr) (v2p p) 6
      (cleared-IsSpace end pgdir k p qs s) (omega arith)
      (ap is_present (entry_at-cleared end pgdir k p qs s (pg_round_down faultaddr)) ∙ unmapped)) [
        | inl (fails, none_left) ↦ inr (
          none_left,
          subst (λ r. Restored end pgdir k p r)
              (sym (handles ∙ ap (free_unless_mapped end p) fails))
              (restore end pgdir p k (subst (λ l. IsSpace end pgdir k (p ∷ l)) none_left s)),
        )
        | inr (k', rs, maps, here, others, s', fewer) ↦ inl (
          k',
          rs,
          handles ∙ ap (free_unless_mapped end p) maps,
          here,
          λ b lt ne. others b lt (λ e. ne (omega arith)) ∙ entry_at-cleared end pgdir k p qs s b,
          s',
        )
      ]
