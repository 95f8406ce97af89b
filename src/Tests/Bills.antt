-- ===== src/Tests/Bills.antt =====
-- The bill, and its void.
use jenkin_sri_store.Prelude.{
  arith, ℕ, ◌+◌, ◌≡◌, ◌↔◌, All, refl, true, false, none, some, [], sum_by, sort_by, insert_by, keep,
}
use jenkin_sri_store.Prelude.Int.{◌+ℤ◌, ◌-ℤ◌, ◌≤ℤ◌, pos}
use jenkin_sri_store.Store.{
  RowId, Mechanic, Shift, Sale, insufficient_stock, Db, ok, err, each, new_id, on_commit, ◌>>=◌,
}
use jenkin_sri_store.Money.{points_for}
use jenkin_sri_store.Documents.{device_no, bump_counter, issue}
use jenkin_sri_store.Shifts.{latest, open_drawer_of, require_open_shift_id_for}
use jenkin_sri_store.Sales.Request.{
  computed_subtotal, totals_off, assert_sale_totals, add_line, add_lines, aggregate,
}
use jenkin_sri_store.Sales.Stock.{lock_products, by_id, shortages, assert_stock, deduct_one, deduct}
use jenkin_sri_store.Sales.Ledger.{
  lock_mechanic_and_check_limit, apply_customer, apply_mechanic, log_override,
}
use jenkin_sri_store.Sales.Bill.{
  sale_row, insert_sale, insert_line, insert_lines, insert_movement, insert_movements,
}
use jenkin_sri_store.Sales.Create.{
  CreateSaleResult, existing_sale, sale_hooks, new_sale, create_sale,
}
use jenkin_sri_store.Sales.Request.Demands.{line_qty, demand_qty, sum_by-aggregate}
use jenkin_sri_store.Sales.Request.Totals.{AddsUp, assert_sale_totals_iff}
use jenkin_sri_store.Sales.Stock.Check.{IsCovered, short_lines, assert_stock_iff}
use jenkin_sri_store.Sales.Stock.Deduction.{stock_of}
use jenkin_sri_store.Sales.Movements.{IsBalanced}
use jenkin_sri_store.Sales.Create.Stocktake.{
  create_sale_takes, create_sale-IsBalanced, create_sale_within_limit, create_sale_stamps,
}
use jenkin_sri_store.Sales.Create.{is_sale_movement}
use jenkin_sri_store.Sales.Create.Replay.{create_sale_again}
use jenkin_sri_store.Sales.Restock.{add_restock, restock_one, restock}
use jenkin_sri_store.Sales.Void.{
  add_items, grouped, restore_stock, reverse_ledger, mark_voided, returns_of, ledger_hooks,
  log_void, void_sale,
}
use jenkin_sri_store.Sales.Void.RoundTrip.{
  IsUndone, IsCounted, create_sale-void_sale, void_sale_needs,
}
use jenkin_sri_store.Tests.Shop.{
  shop, clerk, bill, garage, approved, rows_of, answer_of, returned, returned-eq,
}

abbrev pub no_answer : CreateSaleResult
no_answer = record {
  id = 0;
  receipt_no = [];
  total = 0;
  points_granted = 0;
  date = 0;
  shift_id = none;
  products = [];
  items = [];
  movements = [];
  mechanic_credit_balance_after = none;
  mechanic_after = none;
  customer_after = none;
}

abbrev pub after_bill : Db
after_bill = rows_of (create_sale bill clerk shop)

bill_returns : returned (create_sale bill clerk shop) ≡ true
unfolding create_sale existing_sale new_sale sale_hooks assert_sale_totals totals_off
    computed_subtotal ◌>>=◌ require_open_shift_id_for open_drawer_of latest keep
    lock_mechanic_and_check_limit aggregate add_lines add_line sort_by insert_by sum_by
    lock_products by_id shortages assert_stock deduct deduct_one each issue device_no bump_counter
    insert_sale insert_lines insert_line insert_movements insert_movement new_id apply_customer
    apply_mechanic log_override on_commit ◌-ℤ◌ points_for ◌+ℤ◌
bill_returns = refl

pub bill_ran :
    create_sale bill clerk shop ≡ ok (answer_of no_answer (create_sale bill clerk shop), after_bill)
bill_ran = returned-eq no_answer (create_sale bill clerk shop) bill_returns

abbrev pub after_void : Db
after_void = rows_of (void_sale 100 approved after_bill)

void_returns : returned (void_sale 100 approved after_bill) ≡ true
unfolding void_sale restore_stock grouped add_items add_restock restock restock_one reverse_ledger
    mark_voided ledger_hooks log_void create_sale existing_sale new_sale sale_hooks
    assert_sale_totals totals_off computed_subtotal ◌>>=◌ require_open_shift_id_for open_drawer_of
    latest keep lock_mechanic_and_check_limit aggregate add_lines add_line sort_by insert_by sum_by
    lock_products by_id shortages assert_stock deduct deduct_one each issue device_no bump_counter
    insert_sale insert_lines insert_line insert_movements insert_movement new_id apply_customer
    apply_mechanic log_override on_commit ◌-ℤ◌ points_for ◌+ℤ◌
void_returns = refl

pub void_ran :
    void_sale 100 approved after_bill
    ≡ ok (answer_of tt (void_sale 100 approved after_bill), after_void)
void_ran = returned-eq tt (void_sale 100 approved after_bill) void_returns

unfoldable pub opening : RowId → ℕ
opening p = stock_of (shop.products p)

shop-IsBalanced : IsBalanced opening shop
unfolding sum_by opening
shop-IsBalanced = record { accounted = λ p. refl }

create_sale_takes_example :
    stock_of (after_bill.products 1) + sum_by (line_qty 1) bill.items ≡ stock_of (shop.products 1)
create_sale_takes_example = create_sale_takes bill clerk shop 1 refl bill_ran

pub after_bill-IsBalanced : IsBalanced opening after_bill
after_bill-IsBalanced = create_sale-IsBalanced opening bill clerk shop shop-IsBalanced bill_ran

create_sale_within_limit_example :
    (m : Mechanic) × (after_bill.mechanics 1 ≡ some m)
    × (m.credit_balance ≡ 30000 + 40000)
    × (pos m.credit_balance ≤ℤ m.credit_limit)
create_sale_within_limit_example =
    create_sale_within_limit bill clerk shop 1 garage refl refl refl refl refl bill_ran

create_sale_stamps_example :
    (x : Shift) × (open_drawer_of 1 shop.shifts ≡ some x)
    × ((row : Sale) × (after_bill.sales 100 ≡ some row)
        × (row.shift_id ≡ some x.id)
        × (row.total ≡ 40000)
        × (row.voided ≡ false))
create_sale_stamps_example = create_sale_stamps bill clerk shop refl bill_ran

shop-IsCounted : IsCounted shop
shop-IsCounted = record { spent = λ c row h. ground arith; sold = λ m row h. ground arith }

create_sale-void_sale_example : IsUndone 100 shop after_void
create_sale-void_sale_example =
    create_sale-void_sale bill clerk approved shop refl tt shop-IsCounted bill_ran void_ran

no_movements : keep (is_sale_movement 100) shop.movements ≡ []
unfolding keep
no_movements = refl

create_sale_again_example :
    create_sale bill clerk after_bill
    ≡ ok (answer_of no_answer (create_sale bill clerk shop), after_bill)
create_sale_again_example = create_sale_again bill clerk shop refl tt no_movements bill_ran

unfoldable pub stored_bill : Sale
stored_bill =
    sale_row bill clerk (answer_of no_answer (create_sale bill clerk shop)).receipt_no 40 7 4

bill_stored : after_bill.sales 100 ≡ some stored_bill
unfolding stored_bill sale_row points_for create_sale existing_sale new_sale sale_hooks
    assert_sale_totals totals_off computed_subtotal ◌>>=◌ require_open_shift_id_for open_drawer_of
    latest keep lock_mechanic_and_check_limit aggregate add_lines add_line sort_by insert_by sum_by
    lock_products by_id shortages assert_stock deduct deduct_one each issue device_no bump_counter
    insert_sale insert_lines insert_line insert_movements insert_movement new_id apply_customer
    apply_mechanic log_override on_commit ◌-ℤ◌ ◌+ℤ◌
bill_stored = refl

void_sale_needs_example :
    (returns_of 100 after_bill.returns ≡ [])
    × ((d : Shift) × (open_drawer_of 1 after_bill.shifts ≡ some d)
        × (stored_bill.shift_id ≡ some d.id))
void_sale_needs_example = void_sale_needs 100 approved after_bill stored_bill bill_stored void_ran

assert_stock_iff_example :
    ((assert_stock (aggregate bill.items) (lock_products (aggregate bill.items) shop.products) shop
        ≡ ok (tt, shop))
      ↔ All (IsCovered shop.products) (aggregate bill.items))
    × ((¬ All (IsCovered shop.products) (aggregate bill.items))
        → assert_stock
            (aggregate bill.items)
            (lock_products (aggregate bill.items) shop.products)
            shop
          ≡ err (insufficient_stock (short_lines (aggregate bill.items) shop.products)))
assert_stock_iff_example = assert_stock_iff shop.products (aggregate bill.items) shop

assert_sale_totals_iff_example : (assert_sale_totals bill shop ≡ ok (tt, shop)) ↔ AddsUp bill
assert_sale_totals_iff_example = assert_sale_totals_iff bill shop

sum_by-aggregate_example :
    sum_by (demand_qty 1) (aggregate bill.items) ≡ sum_by (line_qty 1) bill.items
sum_by-aggregate_example = sum_by-aggregate 1 bill.items
