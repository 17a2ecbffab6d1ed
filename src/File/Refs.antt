-- ===== src/File/Refs.antt =====
-- Reference counts under the operations of the file table.
use sofinal_project.Prelude.{
  ℕ, zero, suc, ◌+◌, ◌-◌, ◌<◌, ◌≡◌, ◌≢◌, ◌↔◌, refl, inl, inr, true, false, none, some, List, [],
  ◌∷◌, arith, ltb, get_elem?, modify, find_first, find_first-some, find_first-none, Option-cases,
  Bool-cases, get_elem?-modify_self, get_elem?-modify_ne, ap,
}
use sofinal_project.File.{
  fd_none, File, is_free, filealloc, filedup, Closing, nothing, closing, fileclose,
}

-- The references that the whole table counts.
pub total_refs : List File → ℕ
total_refs [] = 0
total_refs (f ∷ fs) = f.ref + total_refs fs

pub total_refs-modify :
    (fs : List File) (i : ℕ) (g : File → File) {f : File}
    → get_elem? fs i ≡ some f
    → total_refs (modify fs i g) + f.ref ≡ total_refs fs + (g f).ref
unfolding total_refs
total_refs-modify [] i g h = cc
total_refs-modify (x ∷ xs) zero g h = ground arith
total_refs-modify (x ∷ xs) (suc i) g h = ground (arith, total_refs-modify xs i g h)

-- Every slot but `i` is as before.
abbrev pub SameElsewhere : ℕ → List File → List File → Type 0
SameElsewhere i fs gs = (j : ℕ) → i ≢ j → get_elem? gs j ≡ get_elem? fs j

-- `filealloc` hands out a slot that no reference named before, sets its count to one and leaves
-- the other slots alone.
pub filealloc-some :
    (fs : List File) (i : ℕ)
    → (filealloc fs).0 ≡ some i
    → (f : File) × (get_elem? fs i ≡ some f)
      × (f.ref ≡ 0)
      × (get_elem? (filealloc fs).1 i ≡ some (record f { ref = 1 }))
      × SameElsewhere i fs (filealloc fs).1
      × (total_refs (filealloc fs).1 ≡ total_refs fs + 1)
unfolding filealloc
filealloc-some fs i h = elim (Option-cases (find_first is_free fs)) [
  | inl no_slot ↦ absurd (ground arith)
  | inr (k, found) ↦
      let e : k ≡ i = ground arith in
      let (f, first) = find_first-some is_free fs k found in
      let set_one : File → File = λ f. record f { ref = 1 } in
      let zero_ref : f.ref ≡ 0 = ground (arith, first.passes) in
      rw (← e) (
        f,
        first.at,
        zero_ref,
        rw (found, filealloc, get_elem?-modify_self fs k set_one, first.at) refl,
        (λ j ne. rw (found, filealloc) (get_elem?-modify_ne fs k j set_one ne)),
        rw (found, filealloc) (omega (arith, total_refs-modify fs k set_one first.at)),
      )
]

-- `filealloc` fails exactly when every slot is referenced, and then changes nothing.
pub filealloc-none_iff :
    (fs : List File)
    → ((filealloc fs).0 ≡ none) ↔ ((j : ℕ) (f : File) → get_elem? fs j ≡ some f → 0 < f.ref)
unfolding filealloc
filealloc-none_iff fs = (
  λ h. elim (Option-cases (find_first is_free fs)) [
    | inl no_slot ↦ λ j f g. ground (arith, find_first-none is_free fs no_slot j f)
    | inr (k, found) ↦ absurd (ground arith)
  ],
  λ all. elim (Option-cases (find_first is_free fs)) [
    | inl no_slot ↦ rw (no_slot, filealloc) refl
    | inr (k, found) ↦
        let (f, first) = find_first-some is_free fs k found in
        absurd (ground (arith, first.passes, all k f first.at))
  ],
)

-- Duplicating a referenced file counts one reference more, and closing it then gives back the table
-- as it was with nothing further to do.
pub fileclose-filedup :
    (fs : List File) (i : ℕ) {f : File}
    → get_elem? fs i ≡ some f
    → 0 < f.ref
    → (gs : List File) × (filedup i fs ≡ some gs)
      × (total_refs gs ≡ total_refs fs + 1)
      × (fileclose i gs ≡ some (nothing, fs))
unfolding filedup fileclose
fileclose-filedup fs i {f} g pos =
    let more : File → File = λ f. record f { ref = f.ref + 1 } in
    let e : ltb f.ref 1 ≡ false = ground arith in
    let at : get_elem? (modify fs i more) i ≡ some (more f) =
      rw (get_elem?-modify_self fs i more, g) refl in
    let e1 : ltb (f.ref + 1) 1 ≡ false = ground arith in
    let e2 : ltb 0 (f.ref + 1 - 1) ≡ true = ground arith in
    (
      modify fs i more,
      ground arith,
      omega (arith, total_refs-modify fs i more g),
      rw (at, fileclose, e1, e2) (ap (λ l. some (nothing, l)) (back fs i)),
    )
  where
    back :
        (fs : List File) (i : ℕ)
        → modify
            (modify fs i (λ f. record f { ref = f.ref + 1 }))
            i
            (λ f. record f { ref = f.ref - 1 })
          ≡ fs
    back [] i = refl
    back (x ∷ xs) zero = ap (λ r. (record x { ref = r }) ∷ xs) (omega arith)
    back (x ∷ xs) (suc i) = ap (λ l. x ∷ l) (back xs i)

-- Closing a referenced file counts one reference less; the last reference frees the slot and hands
-- its pipe end or inode on to be closed.
pub fileclose_lem :
    (fs : List File) (i : ℕ) {f : File}
    → get_elem? fs i ≡ some f
    → 0 < f.ref
    → (c : Closing) × (gs : List File) × (fileclose i fs ≡ some (c, gs))
      × (total_refs gs + 1 ≡ total_refs fs)
      × ((f.ref ≡ 1)
          → (c ≡ closing f) × (get_elem? gs i ≡ some (record f { ref = 0; type = fd_none })))
      × ((1 < f.ref) → (c ≡ nothing) × (get_elem? gs i ≡ some (record f { ref = f.ref - 1 })))
      × SameElsewhere i fs gs
unfolding fileclose
fileclose_lem fs i {f} g pos =
    let e : ltb f.ref 1 ≡ false = ground arith in
    elim (Bool-cases (ltb 0 (f.ref - 1))) [
      | inl more ↦
          let less : File → File = λ f. record f { ref = f.ref - 1 } in
          (
            nothing,
            modify fs i less,
            rw (g, fileclose, e, more) refl,
            ground (arith, total_refs-modify fs i less g),
            (λ one. absurd (ground arith)),
            (λ _. (refl, rw (get_elem?-modify_self fs i less, g) refl)),
            λ j ne. get_elem?-modify_ne fs i j less ne,
          )
      | inr last ↦
          let clear : File → File = λ f. record f { ref = 0; type = fd_none } in
          (
            closing f,
            modify fs i clear,
            rw (g, fileclose, e, last) refl,
            ground (arith, total_refs-modify fs i clear g),
            (λ _. (refl, rw (get_elem?-modify_self fs i clear, g) refl)),
            (λ many. absurd (ground arith)),
            λ j ne. get_elem?-modify_ne fs i j clear ne,
          )
    ]

-- A file that nothing references can be neither duplicated nor closed: both panic.
pub unreferenced_panics :
    (fs : List File) (i : ℕ) {f : File}
    → get_elem? fs i ≡ some f
    → f.ref ≡ 0
    → (filedup i fs ≡ none) × (fileclose i fs ≡ none)
unfolding filedup fileclose
unreferenced_panics fs i g z = ground arith
