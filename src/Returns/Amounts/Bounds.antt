-- ===== src/Returns/Amounts/Bounds.antt =====
-- The share of a bill's discount that a credit note carries.
use native.Mathlib.Nat.{
  div-lt_iff_lt-mul, le-div_iff_mul-le, lt-div-mul-add, div-mul-le_self, mul-le-mul_left,
}
use jenkin_sri_store.Prelude.{ℕ, ◌+◌, ◌*◌, ◌-◌, ◌/◌, ◌≤◌, ◌<◌, ◌≡◌, ap, arith, List, sum_by}
use jenkin_sri_store.Prelude.Int.{pos, sub_ℕ}
use jenkin_sri_store.Store.{Sale}
use jenkin_sri_store.Returns.Request.{Demand}
use jenkin_sri_store.Returns.Amounts.{discount_share, demand_value, refund_amounts}

half_up-le : (a b s : ℕ) → 0 < s → b ≤ s → (2 * (a * b) + s) / (2 * s) ≤ a
half_up-le a b s some_s small =
    let below : 2 * (a * b) + s < (a + 1) * (2 * s) = omega (arith, mul-le-mul_left a small) in
    let lt : (2 * (a * b) + s) / (2 * s) < a + 1 = (div-lt_iff_lt-mul (omega arith)).1 below in
    omega arith

half_up-full : (b s : ℕ) → 0 < s → (2 * (s * b) + s) / (2 * s) ≡ b
half_up-full b s some_s =
    let above : b * (2 * s) ≤ 2 * (s * b) + s = omega arith in
    let below : 2 * (s * b) + s < (b + 1) * (2 * s) = omega arith in
    let le : b ≤ (2 * (s * b) + s) / (2 * s) = (le-div_iff_mul-le (omega arith)).1 above in
    let lt : (2 * (s * b) + s) / (2 * s) < b + 1 = (div-lt_iff_lt-mul (omega arith)).1 below in
    omega arith

-- If the bill's discount is at most its subtotal, then the discount that a credit note carries is
-- at most what its goods are worth, and it pays back the rest, which is not negative.
pub refund_amounts_bounded :
    (ds : List Demand) (sale : Sale)
    → sale.discount ≤ sale.subtotal
    → ((refund_amounts ds sale).refund_discount ≤ (refund_amounts ds sale).refund_subtotal)
      × ((refund_amounts ds sale).refund_total
          ≡ pos
              ((refund_amounts ds sale).refund_subtotal - (refund_amounts ds sale).refund_discount))
unfolding refund_amounts discount_share
refund_amounts_bounded ds sale small =
    let le = half_up-le (sum_by demand_value ds) sale.discount sale.subtotal in
    (ground (arith, le), ground (arith, le))

-- A credit note over goods worth the bill's subtotal, which is not zero, carries the whole
-- discount: it pays back the subtotal less the discount.
pub refund_amounts_full :
    (ds : List Demand) (sale : Sale)
    → 0 < sale.subtotal
    → sum_by demand_value ds ≡ sale.subtotal
    → ((refund_amounts ds sale).refund_discount ≡ sale.discount)
      × ((refund_amounts ds sale).refund_total ≡ sub_ℕ sale.subtotal sale.discount)
unfolding refund_amounts discount_share
refund_amounts_full ds sale some_s whole =
    let full = half_up-full sale.discount sale.subtotal some_s in
    let share : discount_share sale.subtotal sale.discount sale.subtotal ≡ sale.discount =
      ground (arith, full, some_s) in
    (rw whole share, rw whole (ap (sub_ℕ sale.subtotal) share))

-- Where the bill's subtotal is not zero, the discount that a credit note carries is the bill's
-- rate on the goods, rounded to the nearest satang: it is off the exact share by at most half a
-- satang, and by half only upwards.
pub refund_amounts_nearest :
    (ds : List Demand) (sale : Sale)
    → 0 < sale.subtotal
    → let d = (refund_amounts ds sale).refund_discount in
      let exact = (refund_amounts ds sale).refund_subtotal * sale.discount in
      (2 * (sale.subtotal * d) ≤ 2 * exact + sale.subtotal)
      × (2 * exact < 2 * (sale.subtotal * d) + sale.subtotal)
unfolding refund_amounts discount_share
refund_amounts_nearest ds sale some_s =
    let a = sum_by demand_value ds in
    let n = 2 * (a * sale.discount) + sale.subtotal in
    let q = n / (2 * sale.subtotal) in
    let share : discount_share a sale.discount sale.subtotal ≡ q = ground (arith, some_s) in
    let below : q * (2 * sale.subtotal) ≤ n = div-mul-le_self n (2 * sale.subtotal) in
    let above : n < q * (2 * sale.subtotal) + 2 * sale.subtotal = lt-div-mul-add (omega arith) in
    rw share (omega (arith, below), omega (arith, above))
