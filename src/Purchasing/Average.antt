-- ===== src/Purchasing/Average.antt =====
-- The average cost is the nearest satang to the average of the two costs.
use native.Mathlib.Nat.{div-lt_iff_lt-mul, le-div_iff_mul-le, mul-le-mul_left}
use jenkin_sri_store.Prelude.{
  ℕ, zero, suc, ◌+◌, ◌*◌, ◌/◌, ◌≤◌, ◌<◌, ◌≡◌, refl, ◌⊎◌, inl, inr, ltb, leb, true, false, arith,
}
use jenkin_sri_store.Purchasing.{effective_cost, weighted_average_cost}

average-le :
    (a x b y hi : ℕ)
    → 0 < a + b
    → x ≤ hi
    → y ≤ hi
    → (2 * (a * x + b * y) + (a + b)) / (2 * (a + b)) ≤ hi
average-le a x b y hi some_stock left right =
    let below : 2 * (a * x + b * y) + (a + b) < (hi + 1) * (2 * (a + b)) =
      omega (arith, mul-le-mul_left a left, mul-le-mul_left b right) in
    let lt : (2 * (a * x + b * y) + (a + b)) / (2 * (a + b)) < hi + 1 =
      (div-lt_iff_lt-mul (omega (arith, some_stock))).1 below in
    omega (arith, lt)

le-average :
    (a x b y lo : ℕ)
    → 0 < a + b
    → lo ≤ x
    → lo ≤ y
    → lo ≤ (2 * (a * x + b * y) + (a + b)) / (2 * (a + b))
le-average a x b y lo some_stock left right =
    let above : lo * (2 * (a + b)) ≤ 2 * (a * x + b * y) + (a + b) =
      omega (arith, mul-le-mul_left a left, mul-le-mul_left b right) in
    (le-div_iff_mul-le (omega (arith, some_stock))).1 above

-- The new cost lies between any two bounds on the old cost and on the cost that the line brings
-- in.
weighted_average_cost_between :
    (old_stock old_cost new_qty line_cost lo hi : ℕ)
    → lo ≤ old_cost
    → old_cost ≤ hi
    → lo ≤ effective_cost old_cost line_cost
    → effective_cost old_cost line_cost ≤ hi
    → (lo ≤ weighted_average_cost old_stock old_cost new_qty line_cost)
      × (weighted_average_cost old_stock old_cost new_qty line_cost ≤ hi)
unfolding weighted_average_cost
weighted_average_cost_between a x b line lo hi h1 h2 h3 h4 =
    let low = le-average a x b (effective_cost x line) lo in
    let high = average-le a x b (effective_cost x line) hi in
    (ground (arith, low), ground (arith, high))

-- Goods that come without a cost leave the product's cost as it is.
weighted_average_cost_free :
    (old_stock old_cost new_qty : ℕ) → weighted_average_cost old_stock old_cost new_qty 0 ≡ old_cost
weighted_average_cost_free a x b =
    let (low, high) =
      weighted_average_cost_between a x b 0 x x (omega arith) (omega arith) (omega arith)
        (omega arith) in
    omega (arith, low, high)

rounded :
    (n total : ℕ)
    → 0 < total
    → ((2 * n + total) / (2 * total) * (2 * total) ≤ 2 * n + total)
      × (2 * n < (2 * n + total) / (2 * total) * (2 * total) + total)
rounded n total some_stock =
    let w = (2 * n + total) / (2 * total) in
    let below : w * (2 * total) ≤ 2 * n + total =
      (le-div_iff_mul-le (omega (arith, some_stock))).0 (omega arith) in
    let above : 2 * n + total < (w + 1) * (2 * total) =
      (div-lt_iff_lt-mul (omega (arith, some_stock))).0 (omega arith) in
    (below, omega (arith, above))

-- Where there is stock after the receipt: goods that come without a cost leave the product's cost
-- as it is, and others bring it to the satang nearest to the average of the old stock at the old
-- cost and the new goods at theirs, halves upward.
pub weighted_average_cost_nearest :
    (old_stock old_cost new_qty line_cost : ℕ)
    → 0 < old_stock + new_qty
    → ((line_cost ≡ 0) × (weighted_average_cost old_stock old_cost new_qty line_cost ≡ old_cost))
      ⊎ ((0 < line_cost)
          × (weighted_average_cost old_stock old_cost new_qty line_cost
                * (2 * (old_stock + new_qty))
              ≤ 2 * (old_stock * old_cost + new_qty * line_cost) + (old_stock + new_qty))
          × (2 * (old_stock * old_cost + new_qty * line_cost)
              < weighted_average_cost old_stock old_cost new_qty line_cost
                  * (2 * (old_stock + new_qty))
                + (old_stock + new_qty)))
unfolding weighted_average_cost
weighted_average_cost_nearest a x b zero some_stock = inl (refl, weighted_average_cost_free a x b)
weighted_average_cost_nearest a x b (suc line) some_stock =
    let (below, above) = rounded (a * x + b * suc line) (a + b) some_stock in
    let stocked : leb (a + b) 0 ≡ false = ground arith in
    let costed : ltb 0 (suc line) ≡ true = ground arith in
    inr (omega arith, rw (stocked, costed) below, rw (stocked, costed) above)
