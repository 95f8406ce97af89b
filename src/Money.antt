-- ===== src/Money.antt =====
-- Amounts in whole satang (server/src/common/money.ts).
use jenkin_sri_store.Prelude.{ℕ, suc, ◌+◌, ◌*◌, ◌/◌, ◌-◌}
use jenkin_sri_store.Prelude.Int.{ℤ, pos, negsuc, neg, ◌+ℤ◌}

-- `pointsFor`: one point for each ten baht of the total.
unfoldable pub points_for : ℕ → ℕ
points_for total = total / 1000

-- `GREATEST(0, a - b)`, where `b` may be negative.
unfoldable pub clamped_sub : ℕ → ℤ → ℕ
clamped_sub a (pos b) = a - b
clamped_sub a (negsuc b) = a + suc b

-- `Math.floor(a / b)`, of an integer by a positive number.
unfoldable pub floor_div : ℤ → ℕ → ℤ
floor_div (pos n) b = pos (n / b)
floor_div (negsuc n) b = negsuc (n / b)

-- `Math.round(a / b)`: a half goes up.
unfoldable pub round_div : ℤ → ℕ → ℤ
unfolding floor_div
round_div a b = floor_div (a +ℤ a +ℤ pos b) (2 * b)

-- `k * a`, of a figure that is not negative by one that may be.
unfoldable pub scale : ℕ → ℤ → ℤ
scale k (pos n) = pos (k * n)
scale k (negsuc n) = neg (k * suc n)
