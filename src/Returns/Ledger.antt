-- ===== src/Returns/Ledger.antt =====
-- What a credit note takes off the customer and the mechanic (`reverseCustomer`,
-- `reverseMechanic`).
use jenkin_sri_store.Prelude.{ℕ, ◌/◌, Option, none, some, ltb, ◌==◌, if◌then◌else◌}
use jenkin_sri_store.Prelude.Int.{ℤ, pos, abs, at_least_0, ◌-ℤ◌}
use jenkin_sri_store.Store.{RowId, RefundMethod, Sale, Customer, Mechanic, update, Tx, ok}
use jenkin_sri_store.Money.{clamped_sub, floor_div, round_div, scale}
use jenkin_sri_store.Sales.Ledger.{
  CustomerAfter, MechanicAfter, customer_after, mechanic_after, discount_of, markup_of,
}
use jenkin_sri_store.Returns.Amounts.{RefundAmounts}

-- The points that the bill granted; a bill of the old app that recorded none is reckoned again.
abbrev pub base_points : Sale → RefundAmounts → ℕ
base_points sale money =
    if ltb 0 sale.points_granted then sale.points_granted else money.sale_total / 1000

unfoldable pub points_to_reverse : Sale → RefundAmounts → ℤ
unfolding floor_div scale
points_to_reverse sale money =
    if ltb 0 money.sale_total
    then floor_div (scale (base_points sale money) money.refund_total) money.sale_total
    else pos 0

abbrev pub customer_less : ℤ → ℤ → Customer → Customer
customer_less points total c = record c {
  points = clamped_sub c.points points;
  total_spend = at_least_0 (c.total_spend -ℤ total);
}

unfoldable pub reverse_customer : Option RowId → Sale → RefundAmounts → Tx (Option CustomerAfter)
unfolding points_to_reverse clamped_sub
reverse_customer none sale money s = ok (none, s)
reverse_customer (some id) sale money s =
    let customers =
      update id (customer_less (points_to_reverse sale money) money.refund_total) s.customers in
    ok (customer_after id (customers id), record s { customers = customers })

-- `inProportion`.
unfoldable pub in_proportion : ℕ → RefundAmounts → ℤ
unfolding round_div scale
in_proportion satang money =
    if ltb 0 money.sale_total
    then round_div (scale satang money.refund_total) money.sale_total
    else pos 0

abbrev pub reduce_balance : RefundMethod → RefundAmounts → ℤ
reduce_balance RefundMethod.deduct_from_credit money = money.refund_total
reduce_balance RefundMethod.cash money = pos 0
reduce_balance RefundMethod.transfer money = pos 0

-- The figure that the discount is taken off: the legacy alias stands in for a zero.
abbrev pub discount_base : Mechanic → ℤ
discount_base m = if abs m.total_discount == 0 then m.total_credit else m.total_discount

-- `locked` is the row as `lockMechanic` read it, `m` the row that the statement updates.
abbrev pub mechanic_less : Sale → RefundMethod → RefundAmounts → Mechanic → Mechanic → Mechanic
mechanic_less sale method money locked m = record m {
  total_sales = at_least_0 (m.total_sales -ℤ money.refund_total);
  total_discount =
      at_least_0 (discount_base locked -ℤ in_proportion (discount_of sale.mechanic_delta) money);
  total_markup = at_least_0 (m.total_markup -ℤ in_proportion (markup_of sale.mechanic_delta) money);
  credit_balance = clamped_sub m.credit_balance (reduce_balance method money);
}

abbrev pub reverse_row :
    RowId → Sale → RefundMethod → RefundAmounts → Option Mechanic → Tx (Option MechanicAfter)
reverse_row id sale method money none s = ok (none, s)
reverse_row id sale method money (some locked) s =
    let mechanics = update id (mechanic_less sale method money locked) s.mechanics in
    ok (mechanic_after id (mechanics id), record s { mechanics = mechanics })

unfoldable pub reverse_mechanic :
    Option RowId → Sale → Option Mechanic → RefundMethod → RefundAmounts → Tx (Option MechanicAfter)
unfolding in_proportion clamped_sub
reverse_mechanic none sale locked method money s = ok (none, s)
reverse_mechanic (some id) sale locked method money s = reverse_row id sale method money locked s
