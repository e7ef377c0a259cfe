-- ===== src/GoMax.antt =====
-- The helper `max` of internal/core/app.go over Go's `int`.
use shiro_distributed_system.Common.{ℕ, ◌≤◌, ℤ, pos, pos_part, ltb_ℤ, arith, if◌then◌else◌}

unfoldable pub max : ℤ → ℤ → ℤ
max a b = if ltb_ℤ b a then a else b

-- A floor that is not negative gives a number at least as large.
pub max_floor : (n : ℕ) (b : ℤ) → n ≤ pos_part (max (pos n) b)
unfolding max
max_floor n b = ground arith
