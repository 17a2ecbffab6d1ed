-- ===== src/Prelude/Tables.antt =====
-- Facts about every number below a bound, by evaluation.
use Prim.Native.Nat.{ℕ, zero, suc, ◌<◌}
use mathlib.Core.Path.{◌≡◌}
use mathlib.Core.Bool.{Bool, true, ◌&&◌}
use native.Mathlib.Omega.{arith}

abbrev pub each_below : ℕ → (ℕ → Bool) → Bool
each_below zero test = true
each_below (suc n) test = test n && each_below n test

pub each_below-at :
    (n : ℕ) (test : ℕ → Bool) (x : ℕ) → each_below n test ≡ true → x < n → test x ≡ true
each_below-at zero test x h lt = absurd (omega arith)
each_below-at (suc n) test x h lt = ground (arith, each_below-at n test x)
