-- ===== src/Life/Kernel.antt =====
-- The state that the process functions of proc.c share, and the calls that they make of vm.c.
use sofinal_project.Prelude.{ℕ, Option, List}
use sofinal_project.Kalloc.{Kmem}
use sofinal_project.File.{File}
use sofinal_project.Inode.{Inode}
use sofinal_project.Proc.{Proc}

-- `initproc` is the slot of the first process.
pub record Kernel : Type 0 where
  pub procs : List Proc
  pub nextpid : ℕ
  pub initproc : ℕ
  pub kmem : Kmem
  pub files : List File
  pub inodes : List Inode

-- `copyuvm` returns 0 where it fails, and may then have used memory; `freevm` gives pages back.
-- `end` is the first address after the kernel; `forkret` and `trapret` are code addresses.
pub record Env : Type 0 where
  pub end : ℕ
  pub forkret : ℕ
  pub trapret : ℕ
  pub copyuvm : ℕ → ℕ → Kmem → ℕ × Kmem
  pub freevm : ℕ → Kmem → Option Kmem
