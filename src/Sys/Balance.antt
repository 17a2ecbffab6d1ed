-- ===== src/Sys/Balance.antt =====
-- Every call of sysfile.c, exec included, gives back the sleep locks that it has taken, and ends the operations that it has
-- begun.
use mathlib.Core.Path.{subst}
use sofinal_project.Prelude.{ℕ, ◌≡◌, refl, ap, Bool, Option, List, [], ◌∷◌}
use sofinal_project.Kalloc.{Kmem}
use sofinal_project.Sys.{Sys, ok, M, pure, ◌>>=◌, ◌>>◌}
use sofinal_project.Sys.Locks.{Ctx, ctx, After, Takes, bind-Takes, pure-Takes}
use sofinal_project.Sys.Calls.{sys_link, sys_unlink}
use sofinal_project.Sys.Creation.{sys_open, sys_mkdir, sys_mknod, sys_chdir}
use sofinal_project.Sys.Descriptors.{sys_dup, sys_close, sys_read, sys_write, sys_fstat, sys_pipe}
use sofinal_project.Sys.LinkLocks.{sys_link-Takes, sys_unlink-Takes}
use sofinal_project.Sys.OpenLocks.{
  sys_open-Takes, sys_mkdir-Takes, sys_mknod-Takes, sys_chdir-Takes,
}
use sofinal_project.Sys.DescriptorLocks.{
  sys_dup-Takes, sys_close-Takes, sys_read-Takes, sys_write-Takes, sys_fstat-Takes, sys_pipe-Takes,
}
use sofinal_project.Syscall.{Bytes}
use sofinal_project.Exec.Program.{Program}
use sofinal_project.Exec.Arguments.{sys_exec}
use sofinal_project.Exec.Locks.{sys_exec-Takes}

-- A call with its arguments as they are fetched.
pub data Call : Type 0 where
  link : Option (List ℕ) → Option (List ℕ) → Call
  unlink : Option (List ℕ) → Call
  open_path : Option (List ℕ) → Option ℕ → Call
  mkdir : Option (List ℕ) → Call
  mknod : Option (List ℕ) → Option ℕ → Option ℕ → Call
  chdir : Option (List ℕ) → Call
  dup : Option ℕ → Call
  close : Option ℕ → Call
  read : Option (List ℕ) → Option (List ℕ) → Option ℕ → Option ℕ → Call
  write : Option ℕ → (ℕ → Option ℕ) → Option ℕ → Option (List ℕ) → Call
  fstat : Option ℕ → Bool → Call
  make_pipe : Bool → Kmem → Call
  run_program : ℕ → ℕ → Option (List ℕ) → Bytes → ℕ → Program → Kmem → Call

abbrev pub ended : {A : Type 0} → M A → M (Unit {0})
ended m = m >>= λ a. pure tt

-- The call without its result.
abbrev pub call : Call → M (Unit {0})
call (link old new) = ended (sys_link old new)
call (unlink path) = ended (sys_unlink path)
call (open_path path omode) = ended (sys_open path omode)
call (mkdir path) = ended (sys_mkdir path)
call (mknod path major minor) = ended (sys_mknod path major minor)
call (chdir path) = ended (sys_chdir path)
call (dup num) = ended (sys_dup num)
call (close num) = ended (sys_close num)
call (read piped device num n) = ended (sys_read piped device num n)
call (write piped device num cs) = ended (sys_write piped device num cs)
call (fstat num st) = ended (sys_fstat num st)
call (make_pipe room k) = ended (sys_pipe room k)
call (run_program end kdata device mem esp p k) = ended (sys_exec end kdata device mem esp p k)

ended-Takes : {A : Type 0} {c : Ctx} {m : M A} → Takes c m (λ x. c) → Takes c (ended m) (λ x. c)
ended-Takes {c} h = bind-Takes h (λ a. pure-Takes c tt)

call-Takes : (c : Ctx) (k : Call) → Takes c (call k) (λ x. c)
call-Takes c (link old new) = ended-Takes (sys_link-Takes c old new)
call-Takes c (unlink path) = ended-Takes (sys_unlink-Takes c path)
call-Takes c (open_path path omode) = ended-Takes (sys_open-Takes c path omode)
call-Takes c (mkdir path) = ended-Takes (sys_mkdir-Takes c path)
call-Takes c (mknod path major minor) = ended-Takes (sys_mknod-Takes c path major minor)
call-Takes c (chdir path) = ended-Takes (sys_chdir-Takes c path)
call-Takes c (dup num) = ended-Takes (sys_dup-Takes c num)
call-Takes c (close num) = ended-Takes (sys_close-Takes c num)
call-Takes c (read piped device num n) = ended-Takes (sys_read-Takes c piped device num n)
call-Takes c (write piped device num cs) = ended-Takes (sys_write-Takes c piped device num cs)
call-Takes c (fstat num st) = ended-Takes (sys_fstat-Takes c num st)
call-Takes c (make_pipe room k) = ended-Takes (sys_pipe-Takes c room k)
call-Takes c (run_program end kdata device mem esp p k) =
    ended-Takes (sys_exec-Takes c end kdata device mem esp p k)

-- The calls one after another.
abbrev pub calls : List Call → M (Unit {0})
calls [] = pure tt
calls (k ∷ ks) = do call k; calls ks

calls-Takes : (c : Ctx) (ks : List Call) → Takes c (calls ks) (λ x. c)
calls-Takes c [] = pure-Takes c tt
calls-Takes c (k ∷ ks) = bind-Takes (call-Takes c k) (λ u. calls-Takes c ks)

-- After any sequence of calls that returns, on whatever branches, the process holds the sleep locks that it held
-- before, and has ended as many operations in the log as it has begun.
pub calls-balanced :
    (ks : List Call) (s s' : Sys) → calls ks s ≡ ok tt s' → (s'.held ≡ s.held) × (s'.ops ≡ s.ops)
calls-balanced ks s s' e =
    let same : ctx s' ≡ ctx s =
      subst (λ r. After r (λ x. ctx s)) e ((calls-Takes (ctx s) ks).after s refl) in
    (ap (λ c. c.0) same, ap (λ c. c.1) same)
