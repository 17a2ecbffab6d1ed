-- ===== src/Exec/Locks.antt =====
-- `exec` gives back the sleep lock of the program's inode, and ends its operation in the log.
use sofinal_project.Prelude.{
  ℕ, zero, suc, ◌+◌, ◌-◌, ◌/◌, ◌%◌, ◌^◌, true, false, not, ◌||◌, Option, none, some, List, ◌∷◌, ltb,
  leb, ◌==◌, if◌then◌else◌, min,
}
use sofinal_project.Kalloc.{Kmem}
use sofinal_project.Vm.{p2v, setupkvm, allocuvm}
use sofinal_project.Fs.Data.{readi}
use sofinal_project.Sys.Locks.{
  Ctx, Takes, bind-Takes, when-Takes, maybe-Takes, pure-Takes, fail-Takes, begin_op-Takes,
  end_op-Takes, with_inode-Takes, ilock_at-Takes, iunlockput_at-Takes,
}
use sofinal_project.Sys.NameLocks.{namei-Takes}
use sofinal_project.Sys.Calls.{failed}
use sofinal_project.Exec.Memory.{store_bytes}
use sofinal_project.Exec.Loading.{
  ProgHdr, elf_magic, elf_header, program_header, required, read_count, read_bytes, load_page,
  load_loop, loaduvm, load_segment, load_segments, load_image,
}
use sofinal_project.Exec.Program.{Program, free_if_made, run_image, exec_bad, exec}
use sofinal_project.Exec.Arguments.{exec_arguments, sys_exec}
use sofinal_project.Syscall.{Bytes}

required-Takes : {A : Type 0} (c : Ctx) (o : Option A) → Takes c (required o) (λ x. c)
required-Takes c none = fail-Takes c (λ x. c)
required-Takes c (some a) = pure-Takes c a

load_loop-Takes :
    (f : ℕ) (c : Ctx) (device : Option (List ℕ)) (pgdir addr ip offset i sz : ℕ) (k : Kmem)
    → Takes c (load_loop f device pgdir addr ip offset i sz k) (λ x. c)
unfolding load_loop
load_loop-Takes zero c device pgdir addr ip offset i sz k = pure-Takes c (true, k)
load_loop-Takes (suc f) c device pgdir addr ip offset i sz k =
    let n = min (sz - i) 4096 in
    when-Takes (leb sz i) (pure-Takes c (true, k)) (
      bind-Takes (required-Takes c (load_page pgdir (addr + i) k)) (λ page.
        maybe-Takes page.0 (pure-Takes c (false, page.1)) (λ pa.
          bind-Takes (with_inode-Takes c ip (readi device ((offset + i) % 2 ^ 32) n)) (λ r.
            let k' : Kmem = record page.1 {
              mem = store_bytes page.1.mem (p2v pa) (read_bytes r);
            } in
            when-Takes (not (read_count r == n)) (pure-Takes c (false, k'))
              (load_loop-Takes f c device pgdir addr ip offset (i + 4096) sz k')))))

loaduvm-Takes :
    (c : Ctx) (device : Option (List ℕ)) (pgdir addr ip offset sz : ℕ) (k : Kmem)
    → Takes c (loaduvm device pgdir addr ip offset sz k) (λ x. c)
unfolding loaduvm
loaduvm-Takes c device pgdir addr ip offset sz k =
    when-Takes (not (addr % 4096 == 0)) (fail-Takes c (λ x. c))
      (load_loop-Takes (sz / 4096 + 1) c device pgdir addr ip offset 0 sz k)

load_segment-Takes :
    (c : Ctx) (end : ℕ) (device : Option (List ℕ)) (pgdir ip : ℕ) (ph : ProgHdr) (sz : ℕ) (k : Kmem)
    → Takes c (load_segment end device pgdir ip ph sz k) (λ x. c)
unfolding load_segment
load_segment-Takes c end device pgdir ip ph sz k =
    let top = (ph.vaddr + ph.memsz) % 2 ^ 32 in
    when-Takes (not (ph.type == 1)) (pure-Takes c (some sz, k)) (
      when-Takes (ltb ph.memsz ph.filesz || ltb top ph.vaddr) (pure-Takes c (none, k)) (
        bind-Takes (required-Takes c (allocuvm end pgdir sz top k)) (λ grown.
          when-Takes (grown.0 == 0 || not (ph.vaddr % 4096 == 0)) (pure-Takes c (none, grown.1)) (
            bind-Takes (loaduvm-Takes c device pgdir ph.vaddr ip ph.off ph.filesz grown.1)
              (λ loaded. pure-Takes c (if loaded.0 then some grown.0 else none, loaded.1))))))

load_segments-Takes :
    (n : ℕ) (c : Ctx) (end : ℕ) (device : Option (List ℕ)) (pgdir ip off sz : ℕ) (k : Kmem)
    → Takes c (load_segments n end device pgdir ip off sz k) (λ x. c)
unfolding load_segments
load_segments-Takes zero c end device pgdir ip off sz k = pure-Takes c (some sz, k)
load_segments-Takes (suc n) c end device pgdir ip off sz k =
    bind-Takes (with_inode-Takes c ip (readi device off 32)) (λ r.
      when-Takes (not (read_count r == 32)) (pure-Takes c (none, k)) (
        bind-Takes (load_segment-Takes c end device pgdir ip (program_header (read_bytes r)) sz k)
          (λ next.
            maybe-Takes next.0 (pure-Takes c (none, next.1)) (λ sz'.
              load_segments-Takes n c end device pgdir ip ((off + 32) % 2 ^ 32) sz' next.1))))

load_image-Takes :
    (c : Ctx) (end kdata : ℕ) (device : Option (List ℕ)) (ip : ℕ) (k : Kmem)
    → Takes c (load_image end kdata device ip k) (λ x. c)
unfolding load_image
load_image-Takes c end kdata device ip k =
    bind-Takes (with_inode-Takes c ip (readi device 0 52)) (λ r.
      let elf = elf_header (read_bytes r) in
      when-Takes (not (read_count r == 52) || not (elf.magic == elf_magic))
        (pure-Takes c (record { pgdir = 0; image = none }, k))
        (bind-Takes (required-Takes c (setupkvm end kdata k)) (λ made.
          when-Takes (made.0 == 0) (pure-Takes c (record { pgdir = 0; image = none }, made.1)) (
            bind-Takes (load_segments-Takes elf.phnum c end device made.0 ip elf.phoff 0 made.1)
              (λ r. pure-Takes c (
                record {
                  pgdir = made.0;
                  image = elim r.0 [ none ↦ none | some sz ↦ some (sz, elf.entry) ];
                },
                r.1,
              ))))))

exec_bad-Takes :
    (h : List ℕ) (n end ip pgdir : ℕ) (p : Program) (k : Kmem)
    → Takes (ip ∷ h, n + 1) (exec_bad end ip pgdir p k) (λ x. (h, n))
unfolding exec_bad
exec_bad-Takes h n end ip pgdir p k =
    bind-Takes (required-Takes (ip ∷ h, n + 1) (free_if_made end pgdir k)) (λ k'.
      bind-Takes (iunlockput_at-Takes h (n + 1) ip)
        (λ u. bind-Takes (end_op-Takes h n) (λ u. pure-Takes (h, n) (failed, p, k'))))

exec-Takes :
    (h : List ℕ) (n end kdata : ℕ) (device : Option (List ℕ)) (path : List ℕ) (argv : List (List ℕ))
    (p : Program) (k : Kmem)
    → Takes (h, n) (exec end kdata device path argv p k) (λ x. (h, n))
unfolding exec
exec-Takes h n end kdata device path argv p k = bind-Takes (begin_op-Takes h n) (λ u.
    bind-Takes (namei-Takes h (n + 1) path) (λ found.
      maybe-Takes found (bind-Takes (end_op-Takes h n) (λ u. pure-Takes (h, n) (failed, p, k)))
        (λ ip. bind-Takes (ilock_at-Takes h (n + 1) ip) (λ u.
          bind-Takes (load_image-Takes (ip ∷ h, n + 1) end kdata device ip k) (λ loaded.
            maybe-Takes loaded.0.image (exec_bad-Takes h n end ip loaded.0.pgdir p loaded.1)
              (λ image. bind-Takes (iunlockput_at-Takes h (n + 1) ip) (λ u.
                bind-Takes (end_op-Takes h n) (λ u.
                  required-Takes (h, n)
                    (run_image end path argv loaded.0.pgdir image.0 image.1 p loaded.1)))))))))

pub sys_exec-Takes :
    (c : Ctx) (end kdata : ℕ) (device : Option (List ℕ)) (mem : Bytes) (esp : ℕ) (p : Program)
    (k : Kmem)
    → Takes c (sys_exec end kdata device mem esp p k) (λ x. c)
unfolding sys_exec
sys_exec-Takes (h, n) end kdata device mem esp p k =
    maybe-Takes (exec_arguments p.sz mem esp) (pure-Takes (h, n) (failed, p, k))
      (λ a. exec-Takes h n end kdata device a.0 a.1 p k)
