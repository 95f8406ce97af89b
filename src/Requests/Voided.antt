-- ===== src/Requests/Voided.antt =====
-- A bill that was voided stays so, through any requests.
use jenkin_sri_store.Prelude.{ℕ, ◌≡◌, refl, ◌∙◌, arith, true, some, ◌==◌, Bool-cases, inl, inr}
use jenkin_sri_store.Store.{Text, RowId, Sale, Table, update, Db, ok}
use jenkin_sri_store.Shifts.{Actor}
use jenkin_sri_store.Shifts.Rest.{open_shift-rest, close-rest, add_entry-rest}
use jenkin_sri_store.Sales.Create.Stocktake.{create_sale-cases}
use jenkin_sri_store.Sales.Void.{stamped_void}
use jenkin_sri_store.Sales.Void.Undo.{void_sale-Voided}
use jenkin_sri_store.Returns.Create.Written.{create_return-Credited}
use jenkin_sri_store.PurchaseOrders.Status.{cancel_po-ok}
use jenkin_sri_store.PurchaseOrders.Placed.{create_po-Placed}
use jenkin_sri_store.PurchaseOrders.Receipt.Runnings.{OneRow}
use jenkin_sri_store.PurchaseOrders.Receipt.Received.{receive_po-Received}
use jenkin_sri_store.Products.Adjusted.{adjust_stock-Adjusted}
use jenkin_sri_store.CreditPayments.Paid.{create_credit_payment-rest}
use jenkin_sri_store.Devices.Rest.{create_device-rest, retire_device-drawers}
use jenkin_sri_store.Quotes.Sold.{convert_quote-bill}
use jenkin_sri_store.Quotes.Saved.{create_quote-Saved}
use jenkin_sri_store.Quotes.Copied.{update_quote-rest, delete_quote-rest, duplicate_quote-Copied}
use jenkin_sri_store.Sales.Request.{CreateSale}
use jenkin_sri_store.Sales.Create.{CreateSaleResult, create_sale}
use jenkin_sri_store.Requests.{
  Step, sell, void, refund, place, receive, cancel, delete, adjust, pay, open_drawer, close_drawer,
  enter, enrol, retire, save_quote, edit_quote, drop_quote, renew_quote, sell_quote, pass, Reach,
  here, next,
}
use jenkin_sri_store.Requests.Kept.{delete_po-only}
use jenkin_sri_store.Requests.Reached.{Reach-keys}

abbrev pub IsVoided : RowId → Db → Type 0
IsVoided id s = (bill : Sale) × (s.sales id ≡ some bill) × (bill.voided ≡ true)

IsVoided-same : (id : RowId) (s t : Db) → t.sales id ≡ s.sales id → IsVoided id s → IsVoided id t
IsVoided-same id s t same (bill, there, done) = (bill, same ∙ there, done)

-- A flag on some bill leaves every flag that is set.
IsVoided-update :
    (id k : RowId) (now : ℕ) (sales : Table Sale) (bill : Sale)
    → sales id ≡ some bill
    → bill.voided ≡ true
    → (b : Sale) × (update k (stamped_void now) sales id ≡ some b) × (b.voided ≡ true)
IsVoided-update id k now sales bill there done = elim (Bool-cases (k == id)) [
  | inl e ↦ (stamped_void now bill, ground (arith, there), refl)
  | inr e ↦ (bill, ground (arith, there), done)
]

sell-IsVoided :
    (id : RowId) (dto : CreateSale) (actor : Actor) (s : Db) {r : CreateSaleResult} {t : Db}
    → create_sale dto actor s ≡ ok (r, t)
    → IsVoided id s
    → IsVoided id t
sell-IsVoided id dto actor s {r} {t} h d = elim (create_sale-cases dto actor s h) [
  | inl (x, found, live, answer, same) ↦ rw same d
  | inr w ↦ elim (Bool-cases (dto.id == id)) [
    | inl same ↦ absurd (ground (arith, w.was_new, d.1))
    | inr other ↦ IsVoided-same id s t (rw w.headed (ground arith)) d
  ]
]

module _ (lower : Text → Text) (id : RowId) where
  Step-IsVoided : {s t : Db} → OneRow s.product_ids → Step lower s t → IsVoided id s → IsVoided id t
  Step-IsVoided {s} {t} one (sell dto actor r h) d = sell-IsVoided id dto actor s h d
  Step-IsVoided {s} {t} one (void k auth x h) d =
      let v = void_sale-Voided k auth s h in
      let (b, there, done) = IsVoided-update id k s.now s.sales d.0 d.1 d.2 in
      (b, rw v.marked there, done)
  Step-IsVoided {s} {t} one (refund dto actor r h) d =
      let c = create_return-Credited dto actor s h in
      elim (Bool-cases r.sale_voided) [
        | inl e ↦
            let (b, there, done) = IsVoided-update id dto.sale_id s.now s.sales d.0 d.1 d.2 in
            (b, rw (c.flagged, e) there, done)
        | inr e ↦ IsVoided-same id s t (rw (c.flagged, e) refl) d
      ]
  Step-IsVoided {s} {t} one (place input device o h) d =
      let w = create_po-Placed input device s h in IsVoided-same id s t (cc (w.only)) d
  Step-IsVoided {s} {t} one (receive k actor r h) d =
      let w = receive_po-Received lower k actor s one h in IsVoided-same id s t (cc (w.only)) d
  Step-IsVoided {s} {t} one (cancel k o h) d =
      let (po, row, gone, answer, frame) = cancel_po-ok k s h in IsVoided-same id s t (cc) d
  Step-IsVoided {s} {t} one (delete k x h) d =
      let frame = delete_po-only k s h in IsVoided-same id s t (cc) d
  Step-IsVoided {s} {t} one (adjust k input actor r h) d =
      let w = adjust_stock-Adjusted k input actor s h in IsVoided-same id s t (cc (w.only)) d
  Step-IsVoided {s} {t} one (pay mechanic dto actor r h) d =
      let frame = create_credit_payment-rest mechanic dto actor s h in IsVoided-same id s t (cc) d
  Step-IsVoided {s} {t} one (open_drawer actor cash r h) d =
      let frame = open_shift-rest actor cash s h in IsVoided-same id s t (cc) d
  Step-IsVoided {s} {t} one (close_drawer device cash r h) d =
      let frame = close-rest device cash s h in IsVoided-same id s t (cc) d
  Step-IsVoided {s} {t} one (enter actor type amount text r h) d =
      let (shifts, frame) = add_entry-rest actor type amount text s h in IsVoided-same id s t (cc) d
  Step-IsVoided {s} {t} one (enrol input code_hash actor r h) d =
      let (frame, shifts) = create_device-rest input code_hash actor s h in
      IsVoided-same id s t (cc) d
  Step-IsVoided {s} {t} one (retire actor device cash r h) d =
      let (frame, shelved) = retire_device-drawers actor device cash s h in
      IsVoided-same id s t (cc) d
  Step-IsVoided {s} {t} one (save_quote input device r h) d =
      let w = create_quote-Saved input device s h in IsVoided-same id s t (cc (w.only)) d
  Step-IsVoided {s} {t} one (edit_quote k patch r h) d =
      let frame = update_quote-rest k patch s h in IsVoided-same id s t (cc) d
  Step-IsVoided {s} {t} one (drop_quote k x h) d =
      let frame = delete_quote-rest k s h in IsVoided-same id s t (cc) d
  Step-IsVoided {s} {t} one (renew_quote k device r h) d =
      let w = duplicate_quote-Copied k device s h in IsVoided-same id s t (cc (w.only)) d
  Step-IsVoided {s} {t} one (sell_quote k party actor r h) d =
      let (dto, u, rows, sold, marked) = convert_quote-bill k party actor s h in
      rw marked (sell-IsVoided id dto actor s sold d)
  Step-IsVoided {s} {t} one (pass now today year month e) d = IsVoided-same id s t (cc) d

  pub Reach-IsVoided :
      {s t : Db} → OneRow s.product_ids → Reach lower s t → IsVoided id s → IsVoided id t
  Reach-IsVoided one here d = d
  Reach-IsVoided one (next r step) d =
      Step-IsVoided (Reach-keys lower one r) step (Reach-IsVoided one r d)
