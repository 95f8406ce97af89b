-- ===== src/Purchasing.antt =====
-- The cost of a product after goods are received (server/src/purchasing/weighted-average.ts).
pub mod Average
use jenkin_sri_store.Prelude.{ℕ, ◌+◌, ◌*◌, ◌/◌, true, false, ltb, leb, if◌then◌else◌}

-- A line that is entered without a cost keeps the old one.
abbrev pub effective_cost : ℕ → ℕ → ℕ
effective_cost old_cost line_cost = if ltb 0 line_cost then line_cost else old_cost

-- `weightedAverageCostSatang`, in whole satang and in exact integers.
unfoldable pub weighted_average_cost : ℕ → ℕ → ℕ → ℕ → ℕ
weighted_average_cost old_stock old_cost new_qty line_cost =
    let effective = effective_cost old_cost line_cost in
    let total = old_stock + new_qty in
    if leb total 0
    then effective
    else (2 * (old_stock * old_cost + new_qty * effective) + total) / (2 * total)
