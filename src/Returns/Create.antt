-- ===== src/Returns/Create.antt =====
-- `ReturnsService.createIn`: the credit note, start to end.
pub mod Written
pub mod Refunds
use jenkin_sri_store.Prelude.{
  ℕ, suc, ◌+◌, Bool, true, false, Option, none, some, List, [], ◌∷◌, ◌++◌, ◌==◌, ltb, if◌then◌else◌,
  map, sum_by,
}
use jenkin_sri_store.Prelude.Int.{ℤ}
use jenkin_sri_store.Store.{
  Text, RowId, RefundMethod, Sale, SaleItem, Return, ReturnItem, Movement, MovementType, Mechanic,
  Product, Table, DocType, Hook, Db, Tx, ok, err, pure, throw, throw_if, gets, modify, new_id, each,
  is_some, is_none, on_commit, ◌>>=◌, ◌>>◌, refund_method_not_allowed,
}
use jenkin_sri_store.Documents.{issue}
use jenkin_sri_store.Shifts.{Actor, require_open_shift_id_for, current_shift_id_for}
use jenkin_sri_store.Sales.Ledger.{CustomerAfter, MechanicAfter, mechanic_row}
use jenkin_sri_store.Sales.Create.{balance_of}
use jenkin_sri_store.Sales.Restock.{Restock, add_restock, restock}
use jenkin_sri_store.Sales.Void.{mark_voided, ledger_hooks}
use jenkin_sri_store.Returns.Request.{CreateReturn, Demand, aggregate}
use jenkin_sri_store.Returns.Amounts.{RefundAmounts, refund_amounts}
use jenkin_sri_store.Returns.Guard.{
  lock_sale, sold_lines, refunded_lines, cost_at, assert_refundable,
}
use jenkin_sri_store.Returns.Ledger.{reverse_customer, reverse_mechanic}

pub record CreateReturnResult : Type 0 where
  pub header : Return
  pub items : List ReturnItem
  pub sale_voided : Bool
  pub products : List (RowId × ℕ)
  pub movements : List (Option Movement)
  pub customer_after : Option CustomerAfter
  pub mechanic_credit_balance_after : Option ℕ
  pub mechanic_after : Option MechanicAfter

-- Only a bill that names a mechanic has a tab to deduct from.
abbrev pub not_allowed : RefundMethod → Option RowId → Bool
not_allowed RefundMethod.deduct_from_credit none = true
not_allowed method mechanic = false

-- A cash refund needs the open drawer; any other is stamped with it if there is one.
abbrev pub stamp : RowId → RefundMethod → Tx (Option RowId)
stamp device RefundMethod.cash = do id ← require_open_shift_id_for device; pure (some id)
stamp device RefundMethod.transfer = current_shift_id_for device
stamp device RefundMethod.deduct_from_credit = current_shift_id_for device

unfoldable pub return_row :
    RowId → List ℕ → CreateReturn → Sale → RefundAmounts → Option RowId → ℕ → Return
return_row id cn_no dto sale money shift_id date = record {
  id = id;
  cn_no = cn_no;
  sale_id = dto.sale_id;
  receipt_no = sale.receipt_no;
  refund_subtotal = money.refund_subtotal;
  refund_discount = money.refund_discount;
  refund_total = money.refund_total;
  refund_method = dto.refund_method;
  reason = dto.reason;
  customer_id = sale.customer_id;
  mechanic_id = sale.mechanic_id;
  mechanic_name = sale.mechanic_name;
  shift_id = shift_id;
  date = date;
}

-- `insertReturn`.
unfoldable pub insert_return :
    RowId → List ℕ → CreateReturn → Sale → RefundAmounts → Option RowId → Tx Return
unfolding return_row
insert_return id cn_no dto sale money shift_id = do
  now ← gets (λ s. s.now)
  let row = return_row id cn_no dto sale money shift_id now
  modify (λ s. record s { returns = s.returns ++ row ∷ [] })
  pure row

-- `sold.byPrice.get(key)?.costAtSale ?? null`.
abbrev pub or_null : Option (Option ℕ) → Option ℕ
or_null none = none
or_null (some cost) = cost

-- `insertLines`: the cost is copied from the bill's line.
unfoldable pub return_item : RowId → RowId → ℕ → List SaleItem → Demand → ReturnItem
unfolding cost_at
return_item return_id sale_id line_no sold d = record {
  return_id = return_id;
  sale_id = sale_id;
  line_no = line_no;
  product_id = d.product_id;
  name = d.requested_name;
  qty = d.qty;
  price = d.price;
  original_qty = d.original_qty;
  cost_at_sale = or_null (cost_at d.product_id d.price sold);
}

unfoldable pub return_items_from : RowId → RowId → ℕ → List SaleItem → List Demand → List ReturnItem
unfolding return_item
return_items_from return_id sale_id n sold [] = []
return_items_from return_id sale_id n sold (d ∷ ds) =
    return_item return_id sale_id n sold d ∷ return_items_from return_id sale_id (suc n) sold ds

unfoldable pub insert_lines : RowId → RowId → List Demand → List SaleItem → Tx (List ReturnItem)
unfolding return_items_from
insert_lines return_id sale_id ds sold s =
    let rows = return_items_from return_id sale_id 1 sold ds in
    ok (rows, record s { return_items = s.return_items ++ rows })

-- `restoreStock`: one movement for each product, in the order of the demands.
unfoldable pub by_product : List Demand → List Restock → List Restock
by_product [] rs = rs
by_product (d ∷ ds) rs = by_product ds (add_restock d.product_id d.qty rs)

unfoldable pub restore_stock : RowId → List Demand → Tx (List (Option Movement))
unfolding by_product
restore_stock return_id ds = restock MovementType.return return_id (by_product ds [])

-- The stock of each product that was restocked.
abbrev pub stock_entry : Option Movement → List (RowId × ℕ) → List (RowId × ℕ)
stock_entry none rest = rest
stock_entry (some m) rest = (m.product_id, m.stock_after) ∷ rest

unfoldable pub stock_after : List (Option Movement) → List (RowId × ℕ)
stock_after [] = []
stock_after (m ∷ ms) = stock_entry m (stock_after ms)

-- `autoVoid`: every unit of the bill has come back.
abbrev pub all_back : List SaleItem → List ReturnItem → Bool
all_back sold refunded =
    if ltb (sum_by (λ (i : ReturnItem). i.qty) refunded) (sum_by (λ (i : SaleItem). i.qty) sold)
    then false
    else true

abbrev pub void_if : Bool → RowId → Tx Bool
void_if false id = pure false
void_if true id = do mark_voided id; pure true

unfoldable pub auto_void : RowId → List SaleItem → Tx Bool
unfolding refunded_lines mark_voided
auto_void sale_id sold = do
  refunded ← gets (λ s. refunded_lines sale_id s.return_items)
  void_if (all_back sold refunded) sale_id

-- `ReturnsService.create`.
unfoldable pub create_return : CreateReturn → Actor → Tx CreateReturnResult
unfolding insert_return insert_lines restore_stock auto_void stock_after
create_return dto actor = do
  sale ← lock_sale dto.sale_id
  throw_if (not_allowed dto.refund_method sale.mechanic_id) refund_method_not_allowed
  sold ← gets (λ s. sold_lines dto.sale_id s.sale_items)
  refunded ← gets (λ s. refunded_lines dto.sale_id s.return_items)
  let demands = aggregate dto.items
  assert_refundable demands sold refunded
  let money = refund_amounts demands sale
  shift_id ← stamp actor.device_id dto.refund_method
  mechanic ← gets (λ s. mechanic_row sale.mechanic_id s)
  cn_no ← issue actor.device_id DocType.cn
  return_id ← new_id
  header ← insert_return return_id cn_no dto sale money shift_id
  items ← insert_lines return_id dto.sale_id demands sold
  movements ← restore_stock return_id demands
  customer ← reverse_customer sale.customer_id sale money
  mechanic_after ← reverse_mechanic sale.mechanic_id sale mechanic dto.refund_method money
  voided ← auto_void dto.sale_id sold
  ledger_hooks sale
  on_commit (Hook.return_created return_id (map (λ (d : Demand). d.product_id) demands))
  pure (record {
    header = header;
    items = items;
    sale_voided = voided;
    products = stock_after movements;
    movements = movements;
    customer_after = customer;
    mechanic_credit_balance_after = balance_of mechanic_after;
    mechanic_after = mechanic_after;
  })
