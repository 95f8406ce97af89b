-- ===== src/Requests/Final.antt =====
-- What no later request undoes: an order that was received, a bill that was voided.
use jenkin_sri_store.Prelude.{◌≡◌, refl, true, some, ◌==◌}
use jenkin_sri_store.Store.{
  Text, RowId, PoStatus, PurchaseOrder, Sale, update_self, Db, ok, err, ◌>>=◌, po_already_received,
  sale_voided,
}
use jenkin_sri_store.Shifts.{Actor}
use jenkin_sri_store.Sales.Void.{AuthorisedVoid, stamped_void, void_sale}
use jenkin_sri_store.Sales.Void.Undo.{void_sale-Voided}
use jenkin_sri_store.Sales.Void.RoundTrip.{void_sale-voided}
use jenkin_sri_store.Returns.Request.{CreateReturn}
use jenkin_sri_store.Returns.Guard.{lock_sale}
use jenkin_sri_store.Returns.Create.{create_return}
use jenkin_sri_store.PurchaseOrders.{cancel_po, delete_po}
use jenkin_sri_store.PurchaseOrders.Status.{received_refuses}
use jenkin_sri_store.PurchaseOrders.Receipt.{ReceiveResult, stamped_receipt, receive_po}
use jenkin_sri_store.PurchaseOrders.Receipt.Runnings.{OneRow}
use jenkin_sri_store.PurchaseOrders.Receipt.Received.{receive_po-Received}
use jenkin_sri_store.Requests.{Reach}
use jenkin_sri_store.Requests.Received.{Reach-IsReceived}
use jenkin_sri_store.Requests.Voided.{Reach-IsVoided}

-- Goods are received once: after a receipt and any number of requests since, receiving the order
-- again, cancelling it and deleting it are each refused, whoever asks; and the order was neither
-- received nor cancelled before the receipt. A key is no two products.
pub receive_po_once :
    (lower : Text → Text) (id : RowId) (actor other : Actor) (s : Db) {t u : Db} {r : ReceiveResult}
    → OneRow s.product_ids
    → receive_po lower id actor s ≡ ok (r, t)
    → Reach lower t u
    → ((po : PurchaseOrder) × (s.purchase_orders id ≡ some po) × (po.status ≡ PoStatus.placed))
      × (receive_po lower id other u ≡ err po_already_received)
      × (cancel_po id u ≡ err po_already_received)
      × (delete_po id u ≡ err po_already_received)
receive_po_once lower id actor other s {t} {u} one h reach =
    let w = receive_po-Received lower id actor s one h in
    let row : t.purchase_orders id ≡ some (stamped_receipt s.now w.order) =
      rw w.marked (update_self id (stamped_receipt s.now) s.purchase_orders w.order w.found) in
    let ids : t.product_ids ≡ s.product_ids = cc (w.only) in
    let keys : OneRow t.product_ids = rw ids one in
    let (po, there, done) =
      Reach-IsReceived lower id keys reach (stamped_receipt s.now w.order, row, refl) in
    let (a, b, c) = received_refuses lower id other u po there done in
    ((w.order, w.found, w.placed), a, b, c)

return_refused :
    (dto : CreateReturn) (actor : Actor) (s : Db) (bill : Sale)
    → s.sales dto.sale_id ≡ some bill
    → bill.voided ≡ true
    → create_return dto actor s ≡ err sale_voided
unfolding create_return lock_sale ◌>>=◌
return_refused dto actor s bill found flagged = rw (found, flagged) refl

-- A voided bill stays voided: after a void and any number of requests since, a void of the bill
-- and a credit note against it are each refused as already voided, whoever asks. A key is no two
-- products.
pub void_sale_final :
    (lower : Text → Text) (id : RowId) (auth again : AuthorisedVoid) (dto : CreateReturn)
    (other : Actor) (s : Db) {t u : Db} {x : Unit {0}}
    → (again.sale_id == id) ≡ true
    → dto.sale_id ≡ id
    → OneRow s.product_ids
    → void_sale id auth s ≡ ok (x, t)
    → Reach lower t u
    → (void_sale id again u ≡ err sale_voided) × (create_return dto other u ≡ err sale_voided)
void_sale_final lower id auth again dto other s {t} {u} matched of one h reach =
    let v = void_sale-Voided id auth s h in
    let flagged = update_self id (stamped_void s.now) s.sales v.sale v.found in
    let row : t.sales id ≡ some (stamped_void s.now v.sale) = rw v.marked flagged in
    let ids : t.product_ids ≡ s.product_ids = cc (v.only) in
    let (bill, there, done) =
      Reach-IsVoided lower id (rw ids one) reach (stamped_void s.now v.sale, row, refl) in
    (
      void_sale-voided id again u bill matched there done,
      return_refused dto other u bill (rw of there) done,
    )
