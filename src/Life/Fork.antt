-- ===== src/Life/Fork.antt =====
-- proc.c: `allocproc` and `fork`.
pub mod Laws
pub mod Poison
use sofinal_project.Prelude.{
  ℕ, zero, suc, ◌+◌, ◌-◌, ◌/◌, ◌%◌, ◌^◌, Bool, true, false, ◌&&◌, ◌||◌, not, Option, none, some,
  List, [], ◌∷◌, ◌++◌, map, length, ◌==◌, if◌then◌else◌, get_elem?, modify, find_first, update,
}
use sofinal_project.Kalloc.{Memory, Kmem, stosl, kalloc, kfree}
use sofinal_project.File.{File, Closing, inode_put, filedup, fileclose}
use sofinal_project.Inode.{Inode, idup}
use sofinal_project.CString.{safestrcpy, put}
use sofinal_project.Proc.{
  Proc, ProcState, unused, embryo, sleeping, runnable, zombie, is_unused, is_zombie, Chan, entry,
  wakeup1,
}
use sofinal_project.Life.Kernel.{Kernel, Env}

-- sizeof(struct trapframe), sizeof(struct context) and the offset of `eax` in the former.
abbrev pub tf_size : ℕ
tf_size = 76

abbrev pub context_size : ℕ
context_size = 20

abbrev pub eax_offset : ℕ
eax_offset = 28

abbrev pub kstack_size : ℕ
kstack_size = 4096

abbrev pub tf_of : ℕ → ℕ
tf_of kstack = kstack + kstack_size - tf_size

abbrev pub context_of : ℕ → ℕ
context_of kstack = tf_of kstack - 4 - context_size

-- The words that `allocproc` writes on the new kernel stack: `trapret` as return address below the
-- trap frame, and a cleared context below that with `forkret` in its last word, `eip`.
pub lay_out_stack : Env → ℕ → Memory → Memory
lay_out_stack env kstack m =
    update
      (stosl (update m (tf_of kstack - 4) env.trapret) (context_of kstack) 0 (context_size / 4))
      (context_of kstack + 16) env.forkret

-- The fields that `allocproc` sets under the lock.
abbrev pub claim : ℕ → Proc → Proc
claim pid p = record p { state = embryo; pid = pid; priority = 3; ticks_waiting = 0 }

-- Where there is no page for the stack, the slot is given back, and keeps the new pid.
abbrev pub give_back : Proc → Proc
give_back p = record p { kstack = 0; state = unused }

abbrev pub equip : ℕ → Proc → Proc
equip kstack p = record p { kstack = kstack; tf = tf_of kstack; context = context_of kstack }

-- `nextpid++`, in the bit pattern of an `int`.
abbrev pub next_pid : ℕ → ℕ
next_pid n = (n + 1) % 2 ^ 32

-- Returns the slot of the new process, or nothing where the code returns 0.
unfoldable pub allocproc : Env → Kernel → Option ℕ × Kernel
unfolding lay_out_stack
allocproc env k = elim (find_first (λ p. is_unused p.state) k.procs) [
  | none ↦ (none, k)
  | some i ↦
      let claimed = modify k.procs i (claim k.nextpid) in
      let (page, kmem) = kalloc k.kmem in
      if page == 0
      then (
        none,
        record k { procs = modify claimed i give_back; nextpid = next_pid k.nextpid; kmem = kmem },
      )
      else (
        some i,
        record k {
          procs = modify claimed i (equip page);
          nextpid = next_pid k.nextpid;
          kmem = record kmem { mem = lay_out_stack env page kmem.mem };
        },
      )
]

-- `for(...) if(curproc->ofile[i]) np->ofile[i] = filedup(curproc->ofile[i])`, over the two arrays.
pub dup_files : List (Option ℕ) → List (Option ℕ) → List File → Option (List (Option ℕ) × List File)
dup_files [] theirs fs = some (theirs, fs)
dup_files (o ∷ ours) [] fs = some ([], fs)
dup_files (none ∷ ours) (t ∷ theirs) fs = elim (dup_files ours theirs fs) [
  | none ↦ none
  | some (ts, fs') ↦ some (t ∷ ts, fs')
]
dup_files (some f ∷ ours) (t ∷ theirs) fs = elim (filedup f fs) [
  | none ↦ none
  | some fs1 ↦ elim (dup_files ours theirs fs1) [
    | none ↦ none
    | some (ts, fs') ↦ some (some f ∷ ts, fs')
  ]
]

-- `*np->tf = *curproc->tf`, word by word.
unfoldable pub copy_words : Memory → ℕ → ℕ → ℕ → Memory
copy_words m dst src zero = m
copy_words m dst src (suc n) = copy_words (update m dst (m src)) (dst + 4) (src + 4) n

abbrev pub dup_cwd : Option ℕ → List Inode → List Inode
dup_cwd none ips = ips
dup_cwd (some i) ips = idup i ips

-- The child's entry, as `fork` leaves it.
abbrev pub child_of : ℕ → Proc → ℕ → List (Option ℕ) → Proc → Proc
child_of self parent pgdir ofile p = record p {
  pgdir = pgdir;
  sz = parent.sz;
  parent = some self;
  priority = parent.priority;
  ofile = ofile;
  cwd = parent.cwd;
  name = safestrcpy p.name parent.name 16;
  state = runnable;
}

-- The copies of `fork`, once the child `np` in slot `i` has an address space.
unfoldable pub fill_child : ℕ → Proc → ℕ → Proc → ℕ → Kernel → Option (Option ℕ × Kernel)
unfolding dup_files copy_words
fill_child self parent i np pgdir k = elim (dup_files parent.ofile np.ofile k.files) [
  | none ↦ none
  | some (ofile, files) ↦
      let copied = copy_words k.kmem.mem np.tf parent.tf (tf_size / 4) in
      some (
        some np.pid,
        record k {
          procs = modify k.procs i (child_of self parent pgdir ofile);
          kmem = record k.kmem { mem = update copied (np.tf + eax_offset) 0 };
          files = files;
          inodes = dup_cwd parent.cwd k.inodes;
        },
      )
]

-- Without an address space the child's stack is freed and its slot given back.
unfoldable pub undo_child : Env → ℕ → Proc → Kernel → Option (Option ℕ × Kernel)
undo_child env i np k = elim (kfree env.end np.kstack k.kmem) [
  | none ↦ none
  | some kmem ↦ some (none, record k { procs = modify k.procs i give_back; kmem = kmem })
]

-- `fork` from the point where `allocproc` has returned slot `i`.
unfoldable pub fork_into : Env → ℕ → ℕ → Kernel → Option (Option ℕ × Kernel)
fork_into env self i k1 = elim (get_elem? k1.procs self) [
  | none ↦ none
  | some parent ↦ elim (get_elem? k1.procs i) [
    | none ↦ none
    | some np ↦
        let (pgdir, kmem) = env.copyuvm parent.pgdir parent.sz k1.kmem in
        let k2 = record k1 { kmem = kmem } in
        if pgdir == 0 then undo_child env i np k2 else fill_child self parent i np pgdir k2
  ]
]

-- `fork` by the process in slot `self`: the child's pid, or nothing for -1.
unfoldable pub fork : Env → ℕ → Kernel → Option (Option ℕ × Kernel)
fork env self k =
    let (slot, k1) = allocproc env k in
    elim slot [ none ↦ some (none, k1) | some i ↦ fork_into env self i k1 ]
