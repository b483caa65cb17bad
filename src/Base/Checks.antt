-- ===== src/Base/Checks.antt =====
-- A test of every number below a bound, by evaluation.
use Prim.Native.Nat.{ℕ, zero, suc, ◌<◌}
use mathlib.Core.Path.{◌≡◌, ap}
use mathlib.Core.Bool.{Bool, true, false}
use native.Mathlib.Omega.{arith}
use native.Mathlib.Decide.{ℕ_discrete}
use udpcast_rs.Base.Tests.{if◌then◌else◌}

-- Does a test hold of every number below a bound?
unfoldable pub holds : (bound : ℕ) → (ℕ → Bool) → Bool
holds zero t = true
holds (suc m) t = if t m then holds m t else false

pub holds_at : (m : ℕ) (t : ℕ → Bool) → holds m t ≡ true → (k : ℕ) → k < m → t k ≡ true
unfolding holds
holds_at zero t all k below = absurd (omega arith)
holds_at (suc m) t all k below = elim (ℕ_discrete k m) [
  | yes last ↦ ground (arith, all, ap t last)
  | no earlier ↦ holds_at m t (ground (arith, all)) k (omega arith)
]
