-- ===== src/Base/Round.antt =====
-- `Math.round` of a quotient of two whole numbers, the second positive: the nearest whole number,
-- halves upwards.
use Prim.Native.Nat.{ℕ, ◌+◌, ◌*◌, ◌/◌, ◌≤◌, ◌<◌}
use native.Mathlib.Omega.{arith}
use native.Mathlib.Nat.{le-div_iff_mul-le, div-lt_iff_lt-mul}

unfoldable pub round_div : ℕ → ℕ → ℕ
round_div x y = (2 * x + y) / (2 * y)

-- A quotient that lies between two whole numbers is rounded to a number between them.
pub round_div_bounds :
    (x y lo hi : ℕ) → 0 < y → lo * y ≤ x → x ≤ hi * y → (lo ≤ round_div x y) × (round_div x y ≤ hi)
unfolding round_div
round_div_bounds x y lo hi pos l h = (
  (le-div_iff_mul-le (omega arith)).1 (omega arith),
  let below : (2 * x + y) / (2 * y) < hi + 1 = (div-lt_iff_lt-mul (omega arith)).1 (omega arith) in
      omega arith,
)
