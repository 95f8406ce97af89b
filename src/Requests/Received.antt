-- ===== src/Requests/Received.antt =====
-- An order that was received stays so, through any requests.
use jenkin_sri_store.Prelude.{◌≡◌, ◌∙◌, arith, true, some, ◌==◌, Option-cases, Bool-cases, inl, inr}
use jenkin_sri_store.Store.{
  Text, RowId, PoStatus, PurchaseOrder, Db, ok, ran, throw_if-ok, ◌>>=◌, po_already_received,
}
use jenkin_sri_store.Shifts.{Actor}
use jenkin_sri_store.Shifts.Rest.{open_shift-rest, close-rest, add_entry-rest}
use jenkin_sri_store.Sales.Create.Stocktake.{create_sale-cases}
use jenkin_sri_store.Sales.Void.Undo.{void_sale-Voided}
use jenkin_sri_store.Returns.Create.Written.{create_return-Credited}
use jenkin_sri_store.PurchaseOrders.{
  PurchaseOrderOut, is_received, is_placed, cancel_row, received_row, cancel_po, delete_po,
}
use jenkin_sri_store.PurchaseOrders.Placed.{create_po-Placed}
use jenkin_sri_store.PurchaseOrders.Receipt.Runnings.{OneRow}
use jenkin_sri_store.PurchaseOrders.Receipt.Received.{receive_po-Received, lock_po-ok}
use jenkin_sri_store.Products.Adjusted.{adjust_stock-Adjusted}
use jenkin_sri_store.CreditPayments.Paid.{create_credit_payment-rest}
use jenkin_sri_store.Devices.Rest.{create_device-rest, retire_device-drawers}
use jenkin_sri_store.Quotes.Sold.{convert_quote-bill}
use jenkin_sri_store.Quotes.Saved.{create_quote-Saved}
use jenkin_sri_store.Quotes.Copied.{update_quote-rest, delete_quote-rest, duplicate_quote-Copied}
use jenkin_sri_store.Sales.Request.{CreateSale}
use jenkin_sri_store.Sales.Create.{CreateSaleResult, create_sale}
use jenkin_sri_store.Requests.{
  Step, sell, void, refund, place, receive, cancel, delete, adjust, pay, open_drawer, close_drawer,
  enter, enrol, retire, save_quote, edit_quote, drop_quote, renew_quote, sell_quote, pass, Reach,
  here, next,
}
use jenkin_sri_store.Requests.Reached.{Reach-keys}

abbrev pub IsReceived : RowId → Db → Type 0
IsReceived id s =
    (po : PurchaseOrder) × (s.purchase_orders id ≡ some po) × (po.status ≡ PoStatus.received)

IsReceived-same :
    (id : RowId) (s t : Db)
    → t.purchase_orders id ≡ s.purchase_orders id
    → IsReceived id s
    → IsReceived id t
IsReceived-same id s t same (po, there, done) = (po, same ∙ there, done)

cancel_po-received :
    (id k : RowId) (s : Db) {o : PurchaseOrderOut} {t : Db}
    → cancel_po k s ≡ ok (o, t)
    → IsReceived id s
    → t.purchase_orders id ≡ s.purchase_orders id
unfolding cancel_po
cancel_po-received id k s {o} {t} h (po, there, done) = ran _ _ _ h λ row a ea j.
    ran _ _ _ j λ u b eb j. ran _ _ _ j λ after c ec j. ran _ _ _ j λ lines d ed j.
      let (found, a_same) = lock_po-ok k s ea in
      let (fresh, b_same) = throw_if-ok (is_received row.status) po_already_received a eb in
      let t_at : t ≡ c = cc in
      let b_at : b ≡ s = cc in
      elim (Bool-cases (is_placed row.status)) [
        | inl open_ ↦
            let wrote : cancel_row k row true b ≡ ok (after, c) = cc in
            elim (Bool-cases (k == id)) [
              | inl same ↦ absurd (ground arith)
              | inr other ↦ unfold ◌>>=◌ in ground arith
            ]
        | inr shut ↦ let still : c ≡ b = ground arith in cc
      ]

delete_po-received :
    (id k : RowId) (s : Db) {x : RowId} {t : Db}
    → delete_po k s ≡ ok (x, t)
    → IsReceived id s
    → t.purchase_orders id ≡ s.purchase_orders id
unfolding delete_po
delete_po-received id k s {x} {t} h (po, there, done) = ran _ _ _ h λ row a ea j.
    ran _ _ _ j λ u b eb j. ran _ _ _ j λ v c ec j.
      let (fresh, b_same) = throw_if-ok (received_row row) po_already_received a eb in
      let row_at : row ≡ s.purchase_orders k = cc in
      elim (Bool-cases (k == id)) [
        | inl same ↦ absurd (ground arith)
        | inr other ↦ elim (Option-cases row) [
          | inl absent ↦ ground arith
          | inr (y, e) ↦ ground arith
        ]
      ]

sell-IsReceived :
    (id : RowId) (dto : CreateSale) (actor : Actor) (s : Db) {r : CreateSaleResult} {t : Db}
    → create_sale dto actor s ≡ ok (r, t)
    → IsReceived id s
    → IsReceived id t
sell-IsReceived id dto actor s {r} {t} h d = elim (create_sale-cases dto actor s h) [
  | inl (x, found, live, answer, same) ↦ rw same d
  | inr w ↦ IsReceived-same id s t (cc (w.untouched)) d
]

module _ (lower : Text → Text) (id : RowId) where
  Step-IsReceived :
      {s t : Db} → OneRow s.product_ids → Step lower s t → IsReceived id s → IsReceived id t
  Step-IsReceived {s} {t} one (sell dto actor r h) d = sell-IsReceived id dto actor s h d
  Step-IsReceived {s} {t} one (void k auth x h) d =
      let v = void_sale-Voided k auth s h in IsReceived-same id s t (cc (v.only)) d
  Step-IsReceived {s} {t} one (refund dto actor r h) d =
      let c = create_return-Credited dto actor s h in IsReceived-same id s t (cc (c.only)) d
  Step-IsReceived {s} {t} one (place input device o h) d =
      let w = create_po-Placed input device s h in
      IsReceived-same id s t (w.others id (λ e. cc (w.fresh, d.1))) d
  Step-IsReceived {s} {t} one (receive k actor r h) d =
      let w = receive_po-Received lower k actor s one h in
      elim (Bool-cases (k == id)) [
        | inl same ↦ absurd (ground (arith, w.found, w.placed, d.1, d.2))
        | inr other ↦ IsReceived-same id s t (rw w.marked (ground arith)) d
      ]
  Step-IsReceived {s} {t} one (cancel k o h) d =
      IsReceived-same id s t (cancel_po-received id k s h d) d
  Step-IsReceived {s} {t} one (delete k x h) d =
      IsReceived-same id s t (delete_po-received id k s h d) d
  Step-IsReceived {s} {t} one (adjust k input actor r h) d =
      let w = adjust_stock-Adjusted k input actor s h in IsReceived-same id s t (cc (w.only)) d
  Step-IsReceived {s} {t} one (pay mechanic dto actor r h) d =
      let frame = create_credit_payment-rest mechanic dto actor s h in IsReceived-same id s t (cc) d
  Step-IsReceived {s} {t} one (open_drawer actor cash r h) d =
      let frame = open_shift-rest actor cash s h in IsReceived-same id s t (cc) d
  Step-IsReceived {s} {t} one (close_drawer device cash r h) d =
      let frame = close-rest device cash s h in IsReceived-same id s t (cc) d
  Step-IsReceived {s} {t} one (enter actor type amount text r h) d =
      let (shifts, frame) = add_entry-rest actor type amount text s h in
      IsReceived-same id s t (cc) d
  Step-IsReceived {s} {t} one (enrol input code_hash actor r h) d =
      let (frame, shifts) = create_device-rest input code_hash actor s h in
      IsReceived-same id s t (cc) d
  Step-IsReceived {s} {t} one (retire actor device cash r h) d =
      let (frame, shelved) = retire_device-drawers actor device cash s h in
      IsReceived-same id s t (cc) d
  Step-IsReceived {s} {t} one (save_quote input device r h) d =
      let w = create_quote-Saved input device s h in IsReceived-same id s t (cc (w.only)) d
  Step-IsReceived {s} {t} one (edit_quote k patch r h) d =
      let frame = update_quote-rest k patch s h in IsReceived-same id s t (cc) d
  Step-IsReceived {s} {t} one (drop_quote k x h) d =
      let frame = delete_quote-rest k s h in IsReceived-same id s t (cc) d
  Step-IsReceived {s} {t} one (renew_quote k device r h) d =
      let w = duplicate_quote-Copied k device s h in IsReceived-same id s t (cc (w.only)) d
  Step-IsReceived {s} {t} one (sell_quote k party actor r h) d =
      let (dto, u, rows, sold, marked) = convert_quote-bill k party actor s h in
      rw marked (sell-IsReceived id dto actor s sold d)
  Step-IsReceived {s} {t} one (pass now today year month e) d = IsReceived-same id s t (cc) d

  pub Reach-IsReceived :
      {s t : Db} → OneRow s.product_ids → Reach lower s t → IsReceived id s → IsReceived id t
  Reach-IsReceived one here d = d
  Reach-IsReceived one (next r step) d =
      Step-IsReceived (Reach-keys lower one r) step (Reach-IsReceived one r d)
