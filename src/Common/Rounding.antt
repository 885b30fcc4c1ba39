-- ===== src/Common/Rounding.antt =====
-- Python's `round` of a quotient of whole numbers: to the nearest, halves to the even neighbour.
use Prim.Native.Nat.{ℕ, ◌+◌, ◌*◌, ◌/◌, ◌%◌, ◌≤◌}
use native.Mathlib.Omega.{arith}
use wspr_recorder.Common.Tests.{ltb, if◌then◌else◌}

unfoldable pub round_div : ℕ → ℕ → ℕ
round_div x d =
    if ltb (2 * (x % d)) d
    then x / d
    else if ltb d (2 * (x % d))
    then x / d + 1
    else x / d + x / d % 2

-- The rounded quotient by a million is the quotient or the next number.
pub round_div-bounds :
    (x : ℕ) → (x / 1_000_000 ≤ round_div x 1_000_000) × (round_div x 1_000_000 ≤ x / 1_000_000 + 1)
unfolding round_div
round_div-bounds x = ground arith

-- It is off by at most half.
pub round_div-near :
    (x : ℕ)
    → (2 * x ≤ 2 * (1_000_000 * round_div x 1_000_000) + 1_000_000)
      × (2 * (1_000_000 * round_div x 1_000_000) ≤ 2 * x + 1_000_000)
unfolding round_div
round_div-near x = ground arith
