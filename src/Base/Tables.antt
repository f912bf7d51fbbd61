-- ===== src/Base/Tables.antt =====
-- Facts over a small range, by running a test at each value.
use Prim.Native.Nat.{ℕ, zero, suc, ◌<◌}
use mathlib.Core.Path.{◌≡◌}
use mathlib.Core.Bool.{Bool, true, ◌&&◌}
use native.Mathlib.Omega.{arith}

unfoldable pub holds_below : ℕ → (ℕ → Bool) → Bool
holds_below zero test = true
holds_below (suc n) test = test n && holds_below n test

-- A table that runs through says so of each value.
pub holds_at :
    (n : ℕ) (test : ℕ → Bool) → holds_below n test ≡ true → (x : ℕ) → x < n → test x ≡ true
unfolding holds_below
holds_at zero test all x h = absurd (omega arith)
holds_at (suc n) test all x h = ground (arith, holds_at n test (ground arith) x)
