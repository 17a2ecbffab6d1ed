-- ===== src/Exec/Loading.antt =====
-- The first part of `exec`: the ELF header, the program headers and the segments, with `loaduvm`.
use sofinal_project.Prelude.{
  ℕ, zero, suc, ◌+◌, ◌-◌, ◌/◌, ◌%◌, ◌^◌, Bool, true, false, not, ◌||◌, Option, none, some, List, [],
  ltb, leb, ◌==◌, if◌then◌else◌, update, length, get_elem?, min,
}
use sofinal_project.Kalloc.{Kmem, kalloc}
use sofinal_project.Vm.{is_present, pte_addr, p2v, v2p, clear_page, walkpgdir, allocuvm, setupkvm}
use sofinal_project.Fs.{Block, word_at, half_at}
use sofinal_project.Fs.Data.{readi}
use sofinal_project.Sys.{M, pure, ◌>>=◌, fail, maybe, when, with_inode}
use sofinal_project.Exec.Memory.{store_bytes}

-- `struct elfhdr` and `struct proghdr`: the fields that `exec` reads.
pub record ElfHdr : Type 0 where
  pub magic : ℕ
  pub entry : ℕ
  pub phoff : ℕ
  pub phnum : ℕ

pub record ProgHdr : Type 0 where
  pub type : ℕ
  pub off : ℕ
  pub vaddr : ℕ
  pub filesz : ℕ
  pub memsz : ℕ

abbrev pub elf_magic : ℕ
elf_magic = 0x464C457F

abbrev pub bytes_of : List ℕ → Block
bytes_of cs i = elim (get_elem? cs i) [ none ↦ 0 | some c ↦ c ]

abbrev pub elf_header : List ℕ → ElfHdr
elf_header cs = record {
  magic = word_at (bytes_of cs) 0;
  entry = word_at (bytes_of cs) 24;
  phoff = word_at (bytes_of cs) 28;
  phnum = half_at (bytes_of cs) 44;
}

abbrev pub program_header : List ℕ → ProgHdr
program_header cs = record {
  type = word_at (bytes_of cs) 0;
  off = word_at (bytes_of cs) 4;
  vaddr = word_at (bytes_of cs) 8;
  filesz = word_at (bytes_of cs) 16;
  memsz = word_at (bytes_of cs) 20;
}

-- A panic of a function of vm.c.
abbrev pub required : {A : Type 0} → Option A → M A
required none = fail
required (some a) = pure a

-- The bytes that `readi` returns, which is -1 without them.
abbrev pub read_count : Option (List ℕ) → ℕ
read_count none = 2 ^ 32 - 1
read_count (some cs) = length cs

abbrev pub read_bytes : Option (List ℕ) → List ℕ
read_bytes none = []
read_bytes (some cs) = cs

-- `loaduvm`, a round: the page for `a`, allocated if it is not present. `none` in the pair is "out of memory".
unfoldable pub load_page : ℕ → ℕ → Kmem → Option (Option ℕ × Kmem)
unfolding walkpgdir clear_page
load_page pgdir a k =
    let (pte0, k0) = walkpgdir pgdir a false k in
    let (pte, k1) = if pte0 == 0 then walkpgdir pgdir a true k0 else (pte0, k0) in
    let (mem, k2) = kalloc k1 in
    let e = v2p mem + 7 in
    if pte == 0
    then none
    else if is_present (k1.mem pte)
    then some (some (pte_addr (k1.mem pte)), k1)
    else if mem == 0
    then some (none, k2)
    else some (some (pte_addr e), record k2 { mem = update (clear_page k2.mem mem) pte e })

-- The loop of `loaduvm` from `i` on, for at most `f` rounds. The file is a regular one or a directory where it is
-- read: a device's `read` is the argument `device`. `i` does not wrap around, since `exec` has made the
-- process larger than the segment.
unfoldable pub load_loop : ℕ → Option (List ℕ) → ℕ → ℕ → ℕ → ℕ → ℕ → ℕ → Kmem → M (Bool × Kmem)
unfolding load_page with_inode store_bytes
load_loop zero device pgdir addr ip offset i sz k = pure (true, k)
load_loop (suc f) device pgdir addr ip offset i sz k =
    let n = min (sz - i) 4096 in
    when (leb sz i) (pure (true, k)) (do
      page ← required (load_page pgdir (addr + i) k)
      maybe page.0 (pure (false, page.1)) (λ pa. do
        r ← with_inode ip (readi device ((offset + i) % 2 ^ 32) n)
        let k' : Kmem = record page.1 { mem = store_bytes page.1.mem (p2v pa) (read_bytes r) } in
            when (not (read_count r == n)) (pure (false, k'))
              (load_loop f device pgdir addr ip offset (i + 4096) sz k')))

unfoldable pub loaduvm : Option (List ℕ) → ℕ → ℕ → ℕ → ℕ → ℕ → Kmem → M (Bool × Kmem)
unfolding load_loop
loaduvm device pgdir addr ip offset sz k =
    when (not (addr % 4096 == 0)) fail
      (load_loop (sz / 4096 + 1) device pgdir addr ip offset 0 sz k)

-- One program header: the new size, or none for `goto bad`.
unfoldable pub load_segment : ℕ → Option (List ℕ) → ℕ → ℕ → ProgHdr → ℕ → Kmem → M (Option ℕ × Kmem)
unfolding loaduvm
load_segment end device pgdir ip ph sz k =
    let top = (ph.vaddr + ph.memsz) % 2 ^ 32 in
    when (not (ph.type == 1)) (pure (some sz, k)) (
      when (ltb ph.memsz ph.filesz || ltb top ph.vaddr) (pure (none, k)) (do
        grown ← required (allocuvm end pgdir sz top k)
        when (grown.0 == 0 || not (ph.vaddr % 4096 == 0)) (pure (none, grown.1)) (do
          loaded ← loaduvm device pgdir ph.vaddr ip ph.off ph.filesz grown.1
          pure (if loaded.0 then some grown.0 else none, loaded.1))))

-- The loop over the `n` program headers from `off` on.
unfoldable pub load_segments : ℕ → ℕ → Option (List ℕ) → ℕ → ℕ → ℕ → ℕ → Kmem → M (Option ℕ × Kmem)
unfolding load_segment with_inode
load_segments zero end device pgdir ip off sz k = pure (some sz, k)
load_segments (suc n) end device pgdir ip off sz k = do
  r ← with_inode ip (readi device off 32)
  when (not (read_count r == 32)) (pure (none, k)) (do
    next ← load_segment end device pgdir ip (program_header (read_bytes r)) sz k
    maybe next.0 (pure (none, next.1))
        (λ sz'. load_segments n end device pgdir ip ((off + 32) % 2 ^ 32) sz' next.1))

-- What is loaded: the directory, which is 0 when there is none, and the size and the entry.
pub record Loaded : Type 0 where
  pub pgdir : ℕ
  pub image : Option (ℕ × ℕ)

unfoldable pub load_image : ℕ → ℕ → Option (List ℕ) → ℕ → Kmem → M (Loaded × Kmem)
unfolding load_segments with_inode
load_image end kdata device ip k = do
  r ← with_inode ip (readi device 0 52)
  let elf = elf_header (read_bytes r) in
      when (not (read_count r == 52) || not (elf.magic == elf_magic))
        (pure (record { pgdir = 0; image = none }, k))
        (do
          made ← required (setupkvm end kdata k)
          when (made.0 == 0) (pure (record { pgdir = 0; image = none }, made.1)) (do
            r ← load_segments elf.phnum end device made.0 ip elf.phoff 0 made.1
            pure (
              record {
                pgdir = made.0;
                image = elim r.0 [ none ↦ none | some sz ↦ some (sz, elf.entry) ];
              },
              r.1,
            )))
