-- ===== src/Life/Fork/Poison.antt =====
-- `kill` of pid 0, and the next process.
use sofinal_project.Prelude.{
  ℕ, ◌≡◌, ◌≢◌, refl, true, some, List, arith, get_elem?, modify, find_first-IsFirst, IsFirst,
  get_elem?-modify_self, get_elem?-modify-some,
}
use sofinal_project.Kalloc.{kalloc}
use sofinal_project.Proc.{Proc, unused, has_pid, mark_killed, kill, done}
use sofinal_project.Proc.Kill.{kill-some}
use sofinal_project.Life.Kernel.{Kernel, Env}
use sofinal_project.Life.Fork.{allocproc, claim, equip}
use sofinal_project.Life.Fork.Laws.{free_slot, allocproc-some}

-- Only unused slots have pid 0, as at boot and after `wait`.
abbrev pub ZeroIsUnused : List Proc → Type 0
ZeroIsUnused ps = (j : ℕ) (q : Proc) → get_elem? ps j ≡ some q → q.pid ≡ 0 → q.state ≡ unused

module _ (ps : List Proc) (i : ℕ) (p : Proc) (zero : ZeroIsUnused ps)
    (first : IsFirst free_slot ps i p) (pid : p.pid ≡ 0) where
  zero-IsFirst : IsFirst (has_pid 0) ps i p
  zero-IsFirst = record {
    at = first.at;
    passes = ground arith;
    earlier = λ j y lt g. ground (arith, zero j y g, first.earlier j y lt g);
  }

  kill_zero : kill 0 ps ≡ (done, modify ps i mark_killed)
  kill_zero = kill-some 0 i ps (find_first-IsFirst (has_pid 0) ps i p zero-IsFirst)

  marked : mark_killed p ≡ record p { killed = true }
  marked = ground (arith, first.passes)

  still-IsFirst : IsFirst free_slot (modify ps i mark_killed) i (record p { killed = true })
  still-IsFirst = record {
    at = rw (get_elem?-modify_self ps i mark_killed, first.at, marked) refl;
    passes = first.passes;
    earlier = λ j y lt g.
        let (x, gx, ex) = get_elem?-modify-some ps i j mark_killed g in
        ground (arith, first.earlier j x lt gx);
  }

-- `kill` of pid 0 reports success and marks the first unused slot as killed. `allocproc` does not
-- clear the mark, so the next process to be made starts its life killed.
pub kill_zero-poisons :
    (env : Env) (k : Kernel) (i : ℕ) (p : Proc)
    → ZeroIsUnused k.procs
    → IsFirst free_slot k.procs i p
    → p.pid ≡ 0
    → (kalloc k.kmem).0 ≢ 0
    → ((kill 0 k.procs).0 ≡ done)
      × ((allocproc env (record k { procs = (kill 0 k.procs).1 })).0 ≡ some i)
      × ((q : Proc) × (get_elem? (allocproc env (record k { procs = (kill 0 k.procs).1 })).1.procs i
            ≡ some q)
          × (q.killed ≡ true))
kill_zero-poisons env k i p zero first pid page =
    let e = kill_zero k.procs i p zero first pid in
    let (slot, entry, next, others) =
      allocproc-some env (record k { procs = modify k.procs i mark_killed }) i
        (record p { killed = true }) (still-IsFirst k.procs i p zero first pid) page in
    rw e (
      refl,
      slot,
      (equip (kalloc k.kmem).0 (claim k.nextpid (record p { killed = true })), entry, refl),
    )
