-- ===== src/Pipe/Alloc.antt =====
-- `pipealloc` gives both ends or nothing, and `pipeclose` frees the page once.
use sofinal_project.Prelude.{
  ℕ, ◌≡◌, ◌≢◌, refl, sym, ◌∙◌, Bool, true, false, not, some, List, arith, ◌==◌, if◌then◌else◌,
  get_elem?, modify, get_elem?-modify_self, get_elem?-modify_ne,
}
use sofinal_project.Kalloc.{Kmem, kalloc}
use sofinal_project.File.{File, fd_pipe, filealloc}
use sofinal_project.File.Refs.{filealloc-some}
use sofinal_project.Pipe.{Pipe, on_read, on_write, pipeclose, pipe_end, pipealloc}

-- Closing one end leaves the page to the other end; closing the second, in either order, frees it.
-- Each close wakes the other side.
pub pipeclose-both :
    (p : Pipe) (first : Bool)
    → p.readopen ≡ true
    → p.writeopen ≡ true
    → ((pipeclose first p).1 ≡ false)
      × ((pipeclose (not first) (pipeclose first p).2).1 ≡ true)
      × ((pipeclose first p).0 ≡ (if first then on_read else on_write))
      × ((pipeclose (not first) (pipeclose first p).2).0 ≡ (if first then on_write else on_read))
unfolding pipeclose
pipeclose-both p true r w = (ground arith, refl, refl, refl)
pipeclose-both p false r w = (ground arith, refl, refl, refl)

-- The two ends of a new pipe.
abbrev pub IsPipeEnd : ℕ → Bool → File → Type 0
IsPipeEnd page writable f =
    (f.type ≡ fd_pipe)
    × (f.ref ≡ 1)
    × (f.pipe ≡ page)
    × (f.writable ≡ writable)
    × (f.readable ≡ not writable)

module _ (fs : List File) (k : Kmem) where
  -- The file table with both slots taken.
  abbrev both : List File
  both = (filealloc (filealloc fs).1).1

  pipealloc-made :
      (a b : ℕ)
      → (filealloc fs).0 ≡ some a
      → (filealloc (filealloc fs).1).0 ≡ some b
      → (kalloc k).0 ≢ 0
      → pipealloc fs k
        ≡ some (
          some (record { reader = a; writer = b; page = (kalloc k).0 }),
          modify (modify both a (pipe_end (kalloc k).0 false)) b (pipe_end (kalloc k).0 true),
          (kalloc k).1,
        )
  unfolding pipealloc
  pipealloc-made a b e0 e1 page =
      let has_page : ((kalloc k).0 == 0) ≡ false = ground arith in
      rw (e0, pipealloc) (rw (e1, pipealloc) (rw has_page refl))

  -- With two free slots in the file table and a free page, `pipealloc` makes two ends of one pipe in
  -- two different slots that were free: the first reads, the second writes, each with one reference.
  pub pipealloc-ends :
      (a b : ℕ)
      → (filealloc fs).0 ≡ some a
      → (filealloc (filealloc fs).1).0 ≡ some b
      → (kalloc k).0 ≢ 0
      → (gs : List File) × (pipealloc fs k
          ≡ some (some (record { reader = a; writer = b; page = (kalloc k).0 }), gs, (kalloc k).1))
        × (a ≢ b)
        × ((f : File) × (get_elem? gs a ≡ some f) × IsPipeEnd (kalloc k).0 false f)
        × ((f : File) × (get_elem? gs b ≡ some f) × IsPipeEnd (kalloc k).0 true f)
        × ((j : ℕ) → a ≢ j → b ≢ j → get_elem? gs j ≡ get_elem? fs j)
  pipealloc-ends a b e0 e1 page =
      let pg = (kalloc k).0 in
      let (f, was, unused, now, others, sum) = filealloc-some fs a e0 in
      let (g, was', unused', now', others', sum') = filealloc-some (filealloc fs).1 b e1 in
      let apart : a ≢ b = λ e. absurd (ground arith) in
      let kept : get_elem? both a ≡ some (record f { ref = 1 }) =
        others' a (λ e. apart (sym e)) ∙ now in
      let mid = modify both a (pipe_end pg false) in
      (
        modify mid b (pipe_end pg true),
        pipealloc-made a b e0 e1 page,
        apart,
        (
          pipe_end pg false (record f { ref = 1 }),
          get_elem?-modify_ne mid b a (pipe_end pg true) (λ e. apart (sym e))
              ∙ rw (get_elem?-modify_self both a (pipe_end pg false), kept) refl,
          (refl, refl, refl, refl, refl),
        ),
        (
          pipe_end pg true (record g { ref = 1 }),
          rw
              (
                get_elem?-modify_self mid b (pipe_end pg true),
                get_elem?-modify_ne both a b (pipe_end pg false) apart,
                now',
              )
              refl,
          (refl, refl, refl, refl, refl),
        ),
        λ j na nb.
            get_elem?-modify_ne mid b j (pipe_end pg true) nb
            ∙ get_elem?-modify_ne both a j (pipe_end pg false) na
            ∙ others' j nb
            ∙ others j na,
      )
