-- ===== src/Vm/Tests.antt =====
-- A directory with one table, and one page that is mapped.
use sofinal_project.Prelude.{
  ℕ, ◌+◌, ◌/◌, ◌^◌, ◌<◌, ◌≡◌, ◌≢◌, ◌⊎◌, refl, true, false, none, some, List, [], ◌∷◌, arith, ◌==◌,
  if◌then◌else◌,
}
use sofinal_project.Kalloc.{Memory, Kmem}
use sofinal_project.Kalloc.FreeList.{nil, cons}
use sofinal_project.Vm.{v2p, walkpgdir, allocuvm}
use sofinal_project.Vm.Fault.{handle_lazy_allocation, growproc}
use sofinal_project.Vm.Copy.{uva2ka}
use sofinal_project.Vm.Space.{entry_at, IsSpace}
use sofinal_project.Vm.Lazy.{Restored, handle_lazy_allocation-remap, handle_lazy_allocation-maps}

abbrev kernel_end : ℕ
kernel_end = 0x80115000

abbrev directory : ℕ
directory = 0x80200000

abbrev free_page : ℕ
free_page = 0x80300000

-- The table at 0x80201000 maps page 1 to 0x202000 for the kernel alone, as `clearpteu` leaves a guard page.
abbrev memory : Memory
memory a = if a == 0x80200000 then 0x201007 else if a == 0x80201004 then 0x202003 else 0

abbrev kmem : Kmem
kmem = record { use_lock = true; freelist = free_page; mem = memory }

kmem-IsSpace : IsSpace kernel_end directory kmem (free_page ∷ [])
kmem-IsSpace = record {
  free = cons (omega arith) (omega arith) refl (nil refl);
  root = omega arith;
  root_used = refl;
  tables = λ i lt here. ground arith;
  distinct = λ i j li lj hi hj e. ground arith;
}

guard_page : entry_at memory directory 0x1000 ≡ 0x202003
unfolding entry_at
guard_page = refl

handle_lazy_allocation-remap_example :
    handle_lazy_allocation kernel_end 0x5000 directory 0x1ffc kmem ≡ none
handle_lazy_allocation-remap_example =
    handle_lazy_allocation-remap kernel_end 0x5000 directory 0x1ffc free_page kmem [] kmem-IsSpace
      (omega arith) (omega arith) (omega arith) (ground (arith, guard_page))

heap_page : entry_at memory directory 0x3000 ≡ 0
unfolding entry_at
heap_page = refl

handle_lazy_allocation-maps_example :
    ((k' : Kmem) × (rs : List ℕ) × (handle_lazy_allocation kernel_end 0x5000 directory 0x3abc kmem
        ≡ some (true, k'))
      × (entry_at k'.mem directory 0x3000 ≡ v2p free_page + 7)
      × ((b : ℕ)
          → b < 2 ^ 32
          → b / 4096 ≢ 3
          → entry_at k'.mem directory b ≡ entry_at memory directory b)
      × IsSpace kernel_end directory k' rs)
    ⊎ ((◌≡◌ {A = List ℕ} [] [])
        × Restored kernel_end directory kmem free_page
            (handle_lazy_allocation kernel_end 0x5000 directory 0x3abc kmem))
handle_lazy_allocation-maps_example =
    handle_lazy_allocation-maps kernel_end 0x5000 directory 0x3abc free_page kmem [] kmem-IsSpace
      (omega arith) (omega arith) (omega arith) (ground (arith, heap_page))

-- sbrk(100000) takes no memory.
lazy_growth : growproc kernel_end directory 0x5000 100000 kmem ≡ some (some 0x1d6a0, kmem)
unfolding growproc allocuvm
lazy_growth = refl

out_of_range : handle_lazy_allocation kernel_end 0x5000 directory 0x5000 kmem ≡ some (false, kmem)
unfolding handle_lazy_allocation
out_of_range = refl

guard_is_hidden : uva2ka directory 0x1000 kmem ≡ some 0
unfolding uva2ka walkpgdir
guard_is_hidden = refl
