-- ===== src/Base/Table.antt =====
-- Checking every value of a small range by evaluation.
use Prim.Native.Nat.{ℕ, zero, suc, ◌<◌}
use mathlib.Core.Path.{◌≡◌}
use mathlib.Core.Bool.{Bool, true, ◌&&◌}
use native.Mathlib.Omega.{arith}

unfoldable pub all_below : ℕ → (ℕ → Bool) → Bool
all_below zero t = true
all_below (suc n) t = t n && all_below n t

pub all_below_sound : (n : ℕ) (t : ℕ → Bool) (x : ℕ) → all_below n t ≡ true → x < n → t x ≡ true
unfolding all_below
all_below_sound zero t x h lt = absurd (omega arith)
all_below_sound (suc n) t x h lt = ground (arith, all_below_sound n t x)
