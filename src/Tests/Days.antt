-- ===== src/Tests/Days.antt =====
-- A day of the shop, request by request.
use jenkin_sri_store.Prelude.{◌≡◌, refl, arith, some, keep, sum_by, sort_by}
use jenkin_sri_store.Store.{PoStatus, PurchaseOrder, Db, err, po_already_received, sale_voided}
use jenkin_sri_store.Sales.Movements.{ledger_stock, Posted}
use jenkin_sri_store.Sales.Void.{void_sale}
use jenkin_sri_store.Returns.Guard.{sold_lines, refunded_lines}
use jenkin_sri_store.Returns.Create.{create_return}
use jenkin_sri_store.PurchaseOrders.{cancel_po, delete_po}
use jenkin_sri_store.PurchaseOrders.Receipt.{receive_po}
use jenkin_sri_store.Requests.{at_time, sell, void, pass, Reach, here, next}
use jenkin_sri_store.Requests.Reached.{IsSound, Reach-IsSound, Reach-Posted}
use jenkin_sri_store.Requests.Kept.{create_sale-rest}
use jenkin_sri_store.PurchaseOrders.Receipt.Runnings.{OneRow}
use jenkin_sri_store.Requests.Final.{receive_po_once, void_sale_final}
use jenkin_sri_store.Tests.Shop.{shop, clerk, bill, credit_note, approved}
use jenkin_sri_store.Tests.Bills.{opening, bill_ran, after_bill, void_ran, after_void}
use jenkin_sri_store.Tests.Machines.{shop-IsNumbered}
use jenkin_sri_store.Tests.Orders.{
  fold, shop-OneRow, order-OneRow, after_order, after_receipt, receipt_ran,
}

shop-IsSound : IsSound opening shop
unfolding ledger_stock opening sold_lines refunded_lines keep sum_by sort_by
shop-IsSound = record {
  settled = record { settled = λ p. refl };
  refunds = record { within = λ id p c. omega arith };
  drawers = λ device. ground arith;
  bills = tt;
  keys = shop-OneRow;
  machines = shop-IsNumbered;
}

-- The bill is sold, and voided the same day.
day : Reach fold shop after_void
day = next (next here (sell bill clerk _ bill_ran)) (void 100 approved _ void_ran)

bill-OneRow : OneRow after_bill.product_ids
bill-OneRow =
    let (drawers, back, ids) = create_sale-rest bill clerk shop bill_ran in rw ids shop-OneRow

abbrev next_morning : Db → Db
next_morning = at_time 90 21 2026 10

Reach-IsSound_example : IsSound opening after_void
Reach-IsSound_example = Reach-IsSound fold opening shop-IsSound day

Reach-Posted_example : Posted shop after_void
Reach-Posted_example = Reach-Posted fold shop-OneRow day

receive_po_once_example :
    ((po : PurchaseOrder) × (after_order.purchase_orders 500 ≡ some po)
      × (po.status ≡ PoStatus.placed))
    × (receive_po fold 500 clerk (next_morning after_receipt) ≡ err po_already_received)
    × (cancel_po 500 (next_morning after_receipt) ≡ err po_already_received)
    × (delete_po 500 (next_morning after_receipt) ≡ err po_already_received)
receive_po_once_example =
    receive_po_once fold 500 clerk clerk after_order order-OneRow receipt_ran
      (next here (pass 90 21 2026 10 refl))

void_sale_final_example :
    (void_sale 100 approved (next_morning after_void) ≡ err sale_voided)
    × (create_return credit_note clerk (next_morning after_void) ≡ err sale_voided)
void_sale_final_example =
    void_sale_final fold 100 approved approved credit_note clerk after_bill refl refl bill-OneRow
      void_ran (next here (pass 90 21 2026 10 refl))
