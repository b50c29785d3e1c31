-- ===== src/Prelude/Tables.antt =====
-- Tests that hold of every number below a bound, decided by running them.
use Prim.Native.Nat.{ℕ, zero, suc, ◌<◌}
use mathlib.Core.Path.{◌≡◌}
use mathlib.Core.Bool.{Bool, true, ◌&&◌}
use native.Mathlib.Omega.{arith}

unfoldable pub every_below : (ℕ → Bool) → ℕ → Bool
every_below test zero = true
every_below test (suc bound) = every_below test bound && test bound

-- Such a test holds of each of them.
pub every_below_lem :
    (test : ℕ → Bool) (bound i : ℕ) → i < bound → every_below test bound ≡ true → test i ≡ true
unfolding every_below
every_below_lem test zero i below run = absurd (omega arith)
every_below_lem test (suc bound) i below run = ground (arith, every_below_lem test bound i)
