-- ===== src/PurchaseOrders/Status.antt =====
-- The states of a purchase order: placed, then received or cancelled, and neither is left.
use jenkin_sri_store.Prelude.{◌≡◌, refl, ◌∙◌, arith, false, some, ◌⊎◌, inl, inr}
use jenkin_sri_store.Store.{
  Text, RowId, PoStatus, PurchaseOrder, Db, ok, err, ran, throw_if-ok, ◌>>=◌, po_already_received,
  po_cancelled,
}
use jenkin_sri_store.Shifts.{Actor}
use jenkin_sri_store.PurchaseOrders.{
  PurchaseOrderOut, is_received, is_placed, cancel_row, lines_of_po, lock_po, to_purchase_order,
  cancel_po, delete_po,
}
use jenkin_sri_store.PurchaseOrders.Receipt.{receive_po}
use jenkin_sri_store.PurchaseOrders.Receipt.Received.{lock_po-ok}

PoStatus-cases :
    (x : PoStatus) → (x ≡ PoStatus.placed) ⊎ ((x ≡ PoStatus.received) ⊎ (x ≡ PoStatus.cancelled))
PoStatus-cases PoStatus.placed = inl refl
PoStatus-cases PoStatus.received = inr (inl refl)
PoStatus-cases PoStatus.cancelled = inr (inr refl)

module _ (lower : Text → Text) (id : RowId) (actor : Actor) (s : Db) where
  pub received_refuses :
      (po : PurchaseOrder)
      → s.purchase_orders id ≡ some po
      → po.status ≡ PoStatus.received
      → (receive_po lower id actor s ≡ err po_already_received)
        × (cancel_po id s ≡ err po_already_received)
        × (delete_po id s ≡ err po_already_received)
  unfolding receive_po cancel_po delete_po lock_po ◌>>=◌
  received_refuses po found e = (rw (found, e) refl, rw (found, e) refl, rw (found, e) refl)

module _ (lower : Text → Text) (id : RowId) (actor : Actor) (s : Db) where
  cancelled_stays :
      (po : PurchaseOrder)
      → s.purchase_orders id ≡ some po
      → po.status ≡ PoStatus.cancelled
      → (receive_po lower id actor s ≡ err po_cancelled)
        × (cancel_po id s ≡ ok (to_purchase_order id po (lines_of_po id s.po_items), s))
  unfolding receive_po cancel_po lock_po ◌>>=◌
  cancelled_stays po found e = (rw (found, e) refl, rw (found, e) refl)

cancel_row-ok :
    (id : RowId) (po : PurchaseOrder) (s : Db) {after : PurchaseOrder} {t : Db}
    → is_received po.status ≡ false
    → s.purchase_orders id ≡ some po
    → cancel_row id po (is_placed po.status) s ≡ ok (after, t)
    → (t.purchase_orders id ≡ some after)
      × (after.status ≡ PoStatus.cancelled)
      × (t ≡ record s { purchase_orders = t.purchase_orders })
unfolding ◌>>=◌
cancel_row-ok id po s {after} {t} fresh found h = elim (PoStatus-cases po.status) [
  | inl e ↦ (ground (arith, found), ground arith, ground arith)
  | inr rest ↦ elim rest [
    | inl e ↦ absurd (ground arith)
    | inr e ↦ (ground (arith, found), ground arith, ground arith)
  ]
]

-- What a cancellation that returned leaves under the order's id.
pub cancel_po-ok :
    (id : RowId) (s : Db) {o : PurchaseOrderOut} {t : Db}
    → cancel_po id s ≡ ok (o, t)
    → (po : PurchaseOrder) × (t.purchase_orders id ≡ some po)
      × (po.status ≡ PoStatus.cancelled)
      × (o ≡ to_purchase_order id po (lines_of_po id t.po_items))
      × (t ≡ record s { purchase_orders = t.purchase_orders })
unfolding cancel_po
cancel_po-ok id s {o} {t} h = ran _ _ _ h λ po a ea k. ran _ _ _ k λ u1 b eb k.
    ran _ _ _ k λ after c ec k. ran _ _ _ k λ lines d ed k.
      let (found, a_same) = lock_po-ok id s ea in
      let (fresh, b_same) = throw_if-ok (is_received po.status) po_already_received a eb in
      let b_at : b ≡ s = cc in
      let (stored, settled, frame) = cancel_row-ok id po b fresh (rw b_at found) ec in
      let t_at : t ≡ c = cc in (after, rw t_at stored, settled, cc, cc)

-- A cancellation that returned leaves an order that cannot be received; cancelling it again
-- answers the same and writes nothing.
pub cancel_po_settles :
    (lower : Text → Text) (id : RowId) (actor : Actor) (s : Db) {o : PurchaseOrderOut} {t : Db}
    → cancel_po id s ≡ ok (o, t)
    → (receive_po lower id actor t ≡ err po_cancelled) × (cancel_po id t ≡ ok (o, t))
cancel_po_settles lower id actor s {o} {t} h =
    let (po, row, gone, answer, frame) = cancel_po-ok id s h in
    let (refused, again) = cancelled_stays lower id actor t po row gone in
    (refused, again ∙ rw answer refl)
