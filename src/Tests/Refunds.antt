-- ===== src/Tests/Refunds.antt =====
-- The credit note.
use jenkin_sri_store.Prelude.{
  ℕ, List, ◌+◌, ◌-◌, ◌≤◌, ◌≡◌, refl, arith, true, false, none, [], ◌∷◌, sum_by, sort_by, insert_by,
  keep,
}
use jenkin_sri_store.Prelude.Int.{◌+ℤ◌, ◌-ℤ◌, pos}
use jenkin_sri_store.Money.{points_for}
use jenkin_sri_store.Store.{Db, ok, each, new_id, on_commit, ◌>>=◌}
use jenkin_sri_store.Documents.{device_no, bump_counter, issue}
use jenkin_sri_store.Shifts.{latest, open_drawer_of, require_open_shift_id_for}
use jenkin_sri_store.Sales.Request.{
  computed_subtotal, totals_off, assert_sale_totals, add_line, add_lines, aggregate,
}
use jenkin_sri_store.Sales.Stock.{lock_products, by_id, shortages, assert_stock, deduct_one, deduct}
use jenkin_sri_store.Sales.Ledger.{
  lock_mechanic_and_check_limit, apply_customer, apply_mechanic, log_override,
}
use jenkin_sri_store.Sales.Bill.{
  sale_row, insert_sale, insert_line, insert_lines, insert_movement, insert_movements,
}
use jenkin_sri_store.Sales.Create.{existing_sale, sale_hooks, new_sale, create_sale}
use jenkin_sri_store.Sales.Stock.Deduction.{stock_of}
use jenkin_sri_store.Sales.Restock.{add_restock, restock_one, restock}
use jenkin_sri_store.Sales.Void.{mark_voided, ledger_hooks}
use jenkin_sri_store.Tests.Shop.{
  shop, clerk, credit_note, note_line, rows_of, answer_of, returned, returned-eq,
}
use jenkin_sri_store.Store.{SaleItem, ReturnItem, is_some}
use jenkin_sri_store.Shifts.{current_shift_id_for}
use jenkin_sri_store.Returns.Request
use jenkin_sri_store.Returns.Amounts.{refund_amounts, demand_value}
use jenkin_sri_store.Returns.Amounts.Bounds.{refund_amounts_bounded}
use jenkin_sri_store.Returns.Guard.{
  lock_sale, sold_lines, sells, cost_at, mispriced, over_lines, refunded_lines, assert_refundable,
}
use jenkin_sri_store.Returns.Create.{
  CreateReturnResult, insert_return, return_row, stock_after, by_product, return_items_from,
  return_item, auto_void, create_return,
}
use jenkin_sri_store.Returns.Create
use jenkin_sri_store.Returns.Ledger
use jenkin_sri_store.Returns.Create.Refunds.{
  IsWithin, line_of, create_return-IsWithin, create_return_restocks,
}
use jenkin_sri_store.Tests.Bills.{after_bill, stored_bill}

abbrev no_note : CreateReturnResult
no_note = record {
  header = return_row 0 [] credit_note stored_bill (refund_amounts [] stored_bill) none 0;
  items = [];
  sale_voided = false;
  products = [];
  movements = [];
  customer_after = none;
  mechanic_credit_balance_after = none;
  mechanic_after = none;
}

abbrev after_note : Db
after_note = rows_of (create_return credit_note clerk after_bill)

note_returns : returned (create_return credit_note clerk after_bill) ≡ true
unfolding create_return lock_sale sold_lines refunded_lines Request.aggregate Request.add_lines
    Request.add_line assert_refundable mispriced over_lines sells cost_at current_shift_id_for
    insert_return Create.insert_lines Create.restore_stock by_product add_restock restock
    restock_one Ledger.reverse_customer Ledger.reverse_mechanic auto_void mark_voided ledger_hooks
    return_items_from return_item create_sale existing_sale new_sale sale_hooks assert_sale_totals
    totals_off computed_subtotal ◌>>=◌ require_open_shift_id_for open_drawer_of latest keep
    lock_mechanic_and_check_limit aggregate add_lines add_line sort_by insert_by sum_by
    lock_products by_id shortages assert_stock deduct deduct_one each issue device_no bump_counter
    insert_sale insert_lines insert_line insert_movements insert_movement new_id apply_customer
    apply_mechanic log_override on_commit ◌-ℤ◌ points_for ◌+ℤ◌
note_returns = refl

note_ran :
    create_return credit_note clerk after_bill
    ≡ ok (answer_of no_note (create_return credit_note clerk after_bill), after_note)
note_ran = returned-eq no_note (create_return credit_note clerk after_bill) note_returns

bill-IsWithin : IsWithin after_bill
unfolding refunded_lines create_sale existing_sale new_sale sale_hooks assert_sale_totals totals_off
    computed_subtotal ◌>>=◌ require_open_shift_id_for open_drawer_of latest keep
    lock_mechanic_and_check_limit aggregate add_lines add_line sort_by insert_by sum_by
    lock_products by_id shortages assert_stock deduct deduct_one each issue device_no bump_counter
    insert_sale insert_lines insert_line insert_movements insert_movement new_id apply_customer
    apply_mechanic log_override on_commit ◌-ℤ◌ points_for ◌+ℤ◌
bill-IsWithin = record { within = λ id p c. omega arith }

create_return-IsWithin_example : IsWithin after_note
create_return-IsWithin_example =
    create_return-IsWithin credit_note clerk after_bill bill-IsWithin note_ran

bolt_kept : is_some (after_bill.products 1) ≡ true
unfolding create_sale existing_sale new_sale sale_hooks assert_sale_totals totals_off
    computed_subtotal ◌>>=◌ require_open_shift_id_for open_drawer_of latest keep
    lock_mechanic_and_check_limit aggregate add_lines add_line sort_by insert_by sum_by
    lock_products by_id shortages assert_stock deduct deduct_one each issue device_no bump_counter
    insert_sale insert_lines insert_line insert_movements insert_movement new_id apply_customer
    apply_mechanic log_override on_commit ◌-ℤ◌ points_for ◌+ℤ◌
bolt_kept = refl

create_return_restocks_example :
    stock_of (after_note.products 1)
    ≡ stock_of (after_bill.products 1) + sum_by (line_of 1) credit_note.items
create_return_restocks_example =
    create_return_restocks credit_note clerk after_bill 1 bolt_kept note_ran

-- The two lines of the credit note, and the whole bill.
abbrev two_bolts : List Request.Demand
two_bolts = Request.aggregate credit_note.items

abbrev whole_bill : List Request.Demand
whole_bill =
    Request.aggregate (note_line 1 2 6000 ∷ (note_line 2 1 24000 ∷ (note_line 1 1 5000 ∷ [])))

whole_worth : sum_by demand_value whole_bill ≡ stored_bill.subtotal
unfolding Request.aggregate Request.add_lines Request.add_line sort_by insert_by sum_by stored_bill
    sale_row
whole_worth = refl

refund_amounts_bounded_example :
    ((refund_amounts two_bolts stored_bill).refund_discount
      ≤ (refund_amounts two_bolts stored_bill).refund_subtotal)
    × ((refund_amounts two_bolts stored_bill).refund_total
        ≡ pos (
            (refund_amounts two_bolts stored_bill).refund_subtotal
            - (refund_amounts two_bolts stored_bill).refund_discount))
unfolding stored_bill sale_row
refund_amounts_bounded_example = refund_amounts_bounded two_bolts stored_bill (omega arith)

-- Two demands of one product that each fit in what it has left pass together, though only one
-- piece of it is left, if a piece came back at a price that the bill never charged.
abbrev sold_item : ℕ → ℕ → SaleItem
sold_item n price = record {
  sale_id = 100;
  line_no = n;
  product_id = 1;
  part_no = none;
  name = 12;
  name_th = none;
  qty = 1;
  price = price;
  cost_at_sale = none;
}

abbrev imported_item : ReturnItem
imported_item = record {
  return_id = 300;
  sale_id = 100;
  line_no = 1;
  product_id = 1;
  name = 12;
  qty = 1;
  price = 4000;
  original_qty = none;
  cost_at_sale = none;
}

joint_demands_pass :
    assert_refundable two_bolts
      (sold_item 1 6000 ∷ (sold_item 2 5000 ∷ []))
      (imported_item ∷ [])
      shop
    ≡ ok (tt, shop)
unfolding Request.aggregate Request.add_lines Request.add_line sort_by insert_by assert_refundable
    mispriced over_lines sells cost_at sum_by ◌>>=◌
joint_demands_pass = refl
