-- ===== src/Requests/Machines.antt =====
-- The machines of the shop through the requests.
use jenkin_sri_store.Prelude.{◌≡◌, refl, inl, inr}
use jenkin_sri_store.Store.{Text, Db, ok}
use jenkin_sri_store.Shifts.Rest.{open_shift-rest, close-rest, add_entry-rest}
use jenkin_sri_store.Sales.Void.Undo.{void_sale-Voided}
use jenkin_sri_store.Returns.Create.Written.{create_return-Credited}
use jenkin_sri_store.PurchaseOrders.Status.{cancel_po-ok}
use jenkin_sri_store.PurchaseOrders.Placed.{create_po-Placed}
use jenkin_sri_store.PurchaseOrders.Receipt.Runnings.{OneRow}
use jenkin_sri_store.PurchaseOrders.Receipt.Received.{receive_po-Received}
use jenkin_sri_store.Products.Adjusted.{adjust_stock-Adjusted}
use jenkin_sri_store.CreditPayments.Paid.{create_credit_payment-rest}
use jenkin_sri_store.Devices.Tills.{IsNumbered}
use jenkin_sri_store.Quotes.Sold.{convert_quote-bill}
use jenkin_sri_store.Quotes.Saved.{create_quote-Saved}
use jenkin_sri_store.Quotes.Copied.{update_quote-rest, delete_quote-rest, duplicate_quote-Copied}
use jenkin_sri_store.Shifts.{Actor}
use jenkin_sri_store.Sales.Request.{CreateSale}
use jenkin_sri_store.Sales.Create.{CreateSaleResult, create_sale}
use jenkin_sri_store.Requests.{
  Step, sell, void, refund, place, receive, cancel, delete, adjust, pay, open_drawer, close_drawer,
  enter, enrol, retire, save_quote, edit_quote, drop_quote, renew_quote, sell_quote, pass,
}
use jenkin_sri_store.Requests.Kept.{delete_po-only}
use jenkin_sri_store.Devices.Enrolled.{create_device_numbers}
use jenkin_sri_store.Devices.Retired.{retire_device-IsNumbered}
use jenkin_sri_store.Sales.Create.Stocktake.{create_sale-cases}

IsNumbered-same :
    (s t : Db) → t.devices ≡ s.devices → t.device_ids ≡ s.device_ids → IsNumbered s → IsNumbered t
IsNumbered-same s t rows keys num = record {
  listed = λ k d h. rw keys (num.listed k d (rw rows at h));
  in_range = λ k d h. num.in_range k d (rw rows at h);
  apart = λ j k d e hd he. num.apart j k d e (rw rows at hd) (rw rows at he);
  one = λ j k d e hd he. num.one j k d e (rw rows at hd) (rw rows at he);
}

sell-IsNumbered :
    (dto : CreateSale) (actor : Actor) (s : Db) {r : CreateSaleResult} {t : Db}
    → create_sale dto actor s ≡ ok (r, t)
    → IsNumbered s
    → IsNumbered t
sell-IsNumbered dto actor s {r} {t} h num = elim (create_sale-cases dto actor s h) [
  | inl (x, found, live, answer, same) ↦ rw same num
  | inr w ↦ IsNumbered-same s t (cc (w.untouched)) (cc (w.untouched)) num
]

module _ (lower : Text → Text) where
  pub Step-IsNumbered :
      {s t : Db} → OneRow s.product_ids → Step lower s t → IsNumbered s → IsNumbered t
  Step-IsNumbered {s} {t} one (sell dto actor r h) num = sell-IsNumbered dto actor s h num
  Step-IsNumbered {s} {t} one (void id auth x h) num =
      let v = void_sale-Voided id auth s h in IsNumbered-same s t (cc (v.only)) (cc (v.only)) num
  Step-IsNumbered {s} {t} one (refund dto actor r h) num =
      let c = create_return-Credited dto actor s h in
      IsNumbered-same s t (cc (c.only)) (cc (c.only)) num
  Step-IsNumbered {s} {t} one (place input device o h) num =
      let w = create_po-Placed input device s h in
      IsNumbered-same s t (cc (w.only)) (cc (w.only)) num
  Step-IsNumbered {s} {t} one (receive id actor r h) num =
      let w = receive_po-Received lower id actor s one h in
      IsNumbered-same s t (cc (w.only)) (cc (w.only)) num
  Step-IsNumbered {s} {t} one (cancel id o h) num =
      let (po, row, gone, answer, frame) = cancel_po-ok id s h in IsNumbered-same s t (cc) (cc) num
  Step-IsNumbered {s} {t} one (delete id x h) num =
      let frame = delete_po-only id s h in IsNumbered-same s t (cc) (cc) num
  Step-IsNumbered {s} {t} one (adjust id input actor r h) num =
      let w = adjust_stock-Adjusted id input actor s h in
      IsNumbered-same s t (cc (w.only)) (cc (w.only)) num
  Step-IsNumbered {s} {t} one (pay mechanic dto actor r h) num =
      let frame = create_credit_payment-rest mechanic dto actor s h in
      IsNumbered-same s t (cc) (cc) num
  Step-IsNumbered {s} {t} one (open_drawer actor cash r h) num =
      let frame = open_shift-rest actor cash s h in IsNumbered-same s t (cc) (cc) num
  Step-IsNumbered {s} {t} one (close_drawer device cash r h) num =
      let frame = close-rest device cash s h in IsNumbered-same s t (cc) (cc) num
  Step-IsNumbered {s} {t} one (enter actor type amount text r h) num =
      let (shifts, frame) = add_entry-rest actor type amount text s h in
      IsNumbered-same s t (cc) (cc) num
  Step-IsNumbered {s} {t} one (enrol input code_hash actor r h) num =
      (create_device_numbers input code_hash actor s num h).0
  Step-IsNumbered {s} {t} one (retire actor device cash r h) num =
      retire_device-IsNumbered actor device cash s num h
  Step-IsNumbered {s} {t} one (save_quote input device r h) num =
      let w = create_quote-Saved input device s h in
      IsNumbered-same s t (cc (w.only)) (cc (w.only)) num
  Step-IsNumbered {s} {t} one (edit_quote id patch r h) num =
      let frame = update_quote-rest id patch s h in IsNumbered-same s t (cc) (cc) num
  Step-IsNumbered {s} {t} one (drop_quote id x h) num =
      let frame = delete_quote-rest id s h in IsNumbered-same s t (cc) (cc) num
  Step-IsNumbered {s} {t} one (renew_quote id device r h) num =
      let w = duplicate_quote-Copied id device s h in
      IsNumbered-same s t (cc (w.only)) (cc (w.only)) num
  Step-IsNumbered {s} {t} one (sell_quote id party actor r h) num =
      let (dto, u, rows, sold, marked) = convert_quote-bill id party actor s h in
      let after = sell-IsNumbered dto actor s sold num in
      IsNumbered-same u t (rw marked refl) (rw marked refl) after
  Step-IsNumbered {s} {t} one (pass now today year month e) num = IsNumbered-same s t (cc) (cc) num
