-- ===== src/Returns/Amounts.antt =====
-- The money of a credit note (`refundAmounts`).
pub mod Bounds
use jenkin_sri_store.Prelude.{
  ℕ, ◌+◌, ◌*◌, ◌/◌, ◌≤◌, ◌≡◌, refl, arith, true, false, List, sum_by, ltb, if◌then◌else◌,
}
use jenkin_sri_store.Prelude.Int.{ℤ, pos, sub_ℕ}
use jenkin_sri_store.Store.{Sale}
use jenkin_sri_store.Returns.Request.{Demand}

pub record RefundAmounts : Type 0 where
  pub refund_subtotal : ℕ
  pub refund_discount : ℕ
  pub refund_total : ℤ
  pub sale_total : ℕ

-- `Math.round((subtotal * discount) / saleSubtotal)`, 0 where the bill's subtotal is 0.
unfoldable pub discount_share : ℕ → ℕ → ℕ → ℕ
discount_share subtotal discount sale_subtotal =
    if ltb 0 sale_subtotal
    then (2 * (subtotal * discount) + sale_subtotal) / (2 * sale_subtotal)
    else 0

abbrev pub demand_value : Demand → ℕ
demand_value d = d.qty * d.price

unfoldable pub refund_amounts : List Demand → Sale → RefundAmounts
unfolding discount_share
refund_amounts demands sale =
    let subtotal = sum_by demand_value demands in
    let discount = discount_share subtotal sale.discount sale.subtotal in
    record {
      refund_subtotal = subtotal;
      refund_discount = discount;
      refund_total = sub_ℕ subtotal discount;
      sale_total = sale.total;
    }
