-- ===== src/Pipe/Tests.antt =====
-- A pipe whose counts are about to wrap around.
use sofinal_project.Prelude.{
  ℕ, ◌+◌, ◌-◌, ◌%◌, ◌≡◌, ◌≢◌, ◌⊎◌, inl, inr, refl, Bool, true, false, not, Option, none, some, List,
  [], ◌∷◌, ◌++◌, arith, take, drop, if◌then◌else◌, get_elem?,
}
use sofinal_project.Kalloc.{Kmem, kalloc}
use sofinal_project.File.{File, fd_none, filealloc}
use sofinal_project.Pipe.{Pipe, piperead, got}
use sofinal_project.Pipe.Queue.{IsPipe, contents}
use sofinal_project.Pipe.Fifo.{write, read, run, run-fifo}

-- One byte, 7, in the last place of the ring.
abbrev pipe : Pipe
pipe = record { bytes = λ i. 7; nread = 0xffffffff; nwrite = 0; readopen = true; writeopen = true }

pipe-IsPipe : IsPipe pipe
pipe-IsPipe = record { nread_fits = omega arith; nwrite_fits = omega arith; room = omega arith }

one_byte : (piperead false 3 pipe).0 ≡ got (7 ∷ [])
unfolding piperead
one_byte = refl

abbrev drained : Pipe
drained = record pipe { nread = 0 }

drained-contents : contents drained ≡ []
unfolding contents
drained-contents = refl

run-fifo_example :
    (contents pipe ++ (run (write false (1 ∷ []) ∷ read false 2 ∷ []) pipe).sent
      ≡ (run (write false (1 ∷ []) ∷ read false 2 ∷ []) pipe).delivered
        ++ contents (run (write false (1 ∷ []) ∷ read false 2 ∷ []) pipe).pipe)
    × IsPipe (run (write false (1 ∷ []) ∷ read false 2 ∷ []) pipe).pipe
run-fifo_example = run-fifo (write false (1 ∷ []) ∷ read false 2 ∷ []) pipe pipe-IsPipe

abbrev file : ℕ → File
file ref = record {
  type = fd_none;
  ref = ref;
  readable = false;
  writable = false;
  pipe = 0;
  ip = 0;
  off = 0;
}

abbrev memory : Kmem
memory = record { use_lock = true; freelist = 0x80201000; mem = λ a. 0 }

first_free : (filealloc (file 0 ∷ file 0 ∷ [])).0 ≡ some 0
unfolding filealloc sofinal_project.Prelude.find_first
first_free = refl

second_free : (filealloc (filealloc (file 0 ∷ file 0 ∷ [])).1).0 ≡ some 1
unfolding filealloc sofinal_project.Prelude.find_first
second_free = refl

page : (kalloc memory).0 ≢ 0
unfolding kalloc
page = omega arith
