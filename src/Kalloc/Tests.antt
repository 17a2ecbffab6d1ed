-- ===== src/Kalloc/Tests.antt =====
-- The allocator at concrete addresses.
use sofinal_project.Prelude.{ℕ, refl, false, [], ◌∷◌, arith}
use sofinal_project.Kalloc.{Kmem, freerange, pg_round_up}
use sofinal_project.Kalloc.FreeList.{nil, cons, IsFree}
use sofinal_project.Kalloc.Range.{Added, freerange-Added}

abbrev kernel_end : ℕ
kernel_end = 0x80115000

abbrev empty : Kmem
empty = record { use_lock = false; freelist = 0; mem = λ a. 0 }

abbrev one_free : Kmem
one_free = record { use_lock = false; freelist = 0x80200000; mem = λ a. 0 }

one_free-IsFree : IsFree kernel_end one_free (0x80200000 ∷ [])
one_free-IsFree = cons (omega arith) (omega arith) refl (nil refl)

freerange-Added_example :
    Added kernel_end
      (pg_round_up 0x80115800)
      0x80120000
      []
      (freerange kernel_end 0x80115800 0x80120000 empty)
freerange-Added_example =
    freerange-Added kernel_end 0x80115800 0x80120000 empty [] (omega arith) (omega arith)
      (λ x h. cc) (nil refl)
