-- ===== src/Prelude/Ranges.antt =====
-- Tests of every number below a bound, by evaluation.
use Prim.Native.Nat.{ℕ, zero, suc, ◌<◌}
use mathlib.Core.Path.{◌≡◌}
use mathlib.Core.Bool.{Bool, true, ◌&&◌}
use native.Mathlib.Omega.{arith}

unfoldable pub every : (ℕ → Bool) → ℕ → Bool
every test zero = true
every test (suc bound) = every test bound && test bound

pub every_lem :
    (test : ℕ → Bool) (bound c : ℕ) → c < bound → every test bound ≡ true → test c ≡ true
unfolding every
every_lem test zero c below holds = absurd (omega (arith, below))
every_lem test (suc bound) c below holds = ground (arith, every_lem test bound c)
