-- ===== src/Tests/Orders.antt =====
-- A purchase order of the shop. The letters'
-- case is told apart by the hundreds of a text here, so that 111 is 11 in other letters.
use jenkin_sri_store.Prelude.{
  ◌+◌, ◌%◌, ◌≡◌, refl, arith, true, none, [], ◌∷◌, keep, sort_by, insert_by, rewrite, sum_by,
}
use jenkin_sri_store.Store.{Text, PoStatus, Db, ok, each, new_id, on_commit, Returns, ◌>>=◌}
use jenkin_sri_store.Documents.{device_no, bump_counter, issue}
use jenkin_sri_store.Sales.Stock.Deduction.{stock_of}
use jenkin_sri_store.PurchaseOrders.{
  PoCreate, PurchaseOrderOut, to_purchase_order, lock_po, numbered, insert_po, create_po, cancel_po,
}
use jenkin_sri_store.PurchaseOrders.Receipt.{
  ReceiveResult, named_by, lock_named, state_of, apply_line, apply_lines, touched_of, write_product,
  mark_received, close_receipt, receive_po,
}
use jenkin_sri_store.PurchaseOrders.Receipt.Runnings.{OneRow, product_of}
use jenkin_sri_store.PurchaseOrders.Receipt.Received.{receive_po_adds, ordered}
use jenkin_sri_store.PurchaseOrders.Receipt.Accepted.{receive_po_accepts}
use jenkin_sri_store.PurchaseOrders.Placed.{create_po-receive_po, line_brings}
use jenkin_sri_store.Tests.Shop.{shop, clerk, rows_of, answer_of, returned, returned-eq}

abbrev pub fold : Text → Text
fold x = x % 100

-- Five bolts in other letters, two more at no price, and a part that the shop has not.
abbrev order : PoCreate
order = record {
  supplier = 9;
  items =
      record { part_no = 111; name = 12; qty = 5; cost = 6500 }
      ∷ (record { part_no = 11; name = 12; qty = 2; cost = 0 }
          ∷ (record { part_no = 99; name = 13; qty = 1; cost = 100 } ∷ []));
}

abbrev no_order : PurchaseOrderOut
no_order = record {
  id = 0;
  po_no = [];
  supplier = 0;
  status = PoStatus.placed;
  created_at = 0;
  received_at = none;
  cancelled_at = none;
  items = [];
}

abbrev no_receipt : ReceiveResult
no_receipt = record { po_id = 0; received_at = 0; updated = []; unmatched = []; movements = [] }

abbrev pub after_order : Db
after_order = rows_of (create_po order 1 shop)

order_returns : returned (create_po order 1 shop) ≡ true
unfolding create_po issue device_no bump_counter new_id insert_po numbered to_purchase_order ◌>>=◌
    sort_by insert_by
order_returns = refl

order_ran : create_po order 1 shop ≡ ok (answer_of no_order (create_po order 1 shop), after_order)
order_ran = returned-eq no_order (create_po order 1 shop) order_returns

abbrev pub after_receipt : Db
after_receipt = rows_of (receive_po fold 500 clerk after_order)

receipt_returns : returned (receive_po fold 500 clerk after_order) ≡ true
unfolding receive_po lock_po lock_named named_by apply_lines apply_line state_of touched_of
    write_product mark_received close_receipt each on_commit rewrite create_po issue device_no
    bump_counter new_id insert_po numbered to_purchase_order ◌>>=◌ sort_by insert_by keep
receipt_returns = refl

pub receipt_ran :
    receive_po fold 500 clerk after_order
    ≡ ok (answer_of no_receipt (receive_po fold 500 clerk after_order), after_receipt)
receipt_ran = returned-eq no_receipt (receive_po fold 500 clerk after_order) receipt_returns

pub shop-OneRow : OneRow shop.product_ids
unfolding sum_by
shop-OneRow p = ground arith

pub order-OneRow : OneRow after_order.product_ids
unfolding sum_by create_po issue device_no bump_counter new_id insert_po ◌>>=◌
order-OneRow p = ground arith

-- Ten bolts and seven; the order's line without a price keeps the cost.
seventeen_bolts : stock_of (after_receipt.products 1) ≡ 17
unfolding receive_po lock_po lock_named named_by apply_lines apply_line state_of touched_of
    write_product mark_received close_receipt each on_commit rewrite create_po issue device_no
    bump_counter new_id insert_po numbered to_purchase_order ◌>>=◌ sort_by insert_by keep
seventeen_bolts = refl

receive_po_adds_example :
    stock_of (after_receipt.products 1)
    ≡ stock_of (after_order.products 1) + ordered fold 500 after_order 1
receive_po_adds_example = receive_po_adds fold 500 clerk after_order 1 order-OneRow receipt_ran

create_po-receive_po_example :
    stock_of (after_receipt.products 1)
    ≡ stock_of (shop.products 1) + sum_by (line_brings fold shop 1) order.items
unfolding keep create_po issue device_no bump_counter new_id insert_po numbered to_purchase_order
    ◌>>=◌ sort_by insert_by
create_po-receive_po_example =
    create_po-receive_po fold order 1 clerk shop 1 shop-OneRow refl order_ran receipt_ran

receive_po_accepts_example : Returns (receive_po fold 500 clerk) after_order
unfolding sum_by keep product_of create_po issue device_no bump_counter new_id insert_po numbered
    to_purchase_order ◌>>=◌ sort_by insert_by
receive_po_accepts_example =
    receive_po_accepts fold 500 clerk after_order _ order-OneRow refl refl (λ p. ground arith)

abbrev after_cancel : Db
after_cancel = rows_of (cancel_po 500 after_order)

cancel_returns : returned (cancel_po 500 after_order) ≡ true
unfolding cancel_po lock_po create_po issue device_no bump_counter new_id insert_po numbered
    to_purchase_order ◌>>=◌ sort_by insert_by keep
cancel_returns = refl
