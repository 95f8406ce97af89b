-- ===== src/Requests/Ledger.antt =====
-- Each request appends to the ledger of the stock.
use jenkin_sri_store.Prelude.{◌≡◌, sym}
use jenkin_sri_store.Store.{Text, Quote, Table, Db}
use jenkin_sri_store.Shifts.Rest.{open_shift-rest, close-rest, add_entry-rest}
use jenkin_sri_store.Sales.Movements.{Posted, Posted-same, Posted-view}
use jenkin_sri_store.Sales.Void.Undo.{void_sale-Voided}
use jenkin_sri_store.Returns.Create.Written.{create_return-Credited}
use jenkin_sri_store.PurchaseOrders.Status.{cancel_po-ok}
use jenkin_sri_store.PurchaseOrders.Placed.{create_po-Placed}
use jenkin_sri_store.PurchaseOrders.Receipt.Runnings.{OneRow}
use jenkin_sri_store.PurchaseOrders.Receipt.Received.{receive_po-Received}
use jenkin_sri_store.Products.Adjusted.{adjust_stock-Posted}
use jenkin_sri_store.CreditPayments.Paid.{create_credit_payment-rest}
use jenkin_sri_store.Devices.Rest.{create_device-rest, retire_device-drawers}
use jenkin_sri_store.Quotes.Sold.{convert_quote-bill}
use jenkin_sri_store.Quotes.Saved.{create_quote-Saved}
use jenkin_sri_store.Quotes.Copied.{update_quote-rest, delete_quote-rest, duplicate_quote-Copied}
use jenkin_sri_store.Requests.{
  Step, sell, void, refund, place, receive, cancel, delete, adjust, pay, open_drawer, close_drawer,
  enter, enrol, retire, save_quote, edit_quote, drop_quote, renew_quote, sell_quote, pass,
}
use jenkin_sri_store.Requests.Kept.{create_sale-Posted, delete_po-only}

Posted-quotes :
    (s u t : Db) (rows : Table Quote) → t ≡ record u { quotes = rows } → Posted s u → Posted s t
Posted-quotes s u t rows marked p =
    rw marked (record { rows = p.rows; appended = p.appended; stock = p.stock })

module _ (lower : Text → Text) where
  pub Step-Posted : {s t : Db} → OneRow s.product_ids → Step lower s t → Posted s t
  Step-Posted {s} {t} one (sell dto actor r h) = create_sale-Posted dto actor s h
  Step-Posted {s} {t} one (void id auth x h) = (void_sale-Voided id auth s h).posted
  Step-Posted {s} {t} one (refund dto actor r h) =
      let c = create_return-Credited dto actor s h in
      Posted-view s t (sym c.back_start.0) (sym c.back_start.1) c.back_done.0 c.back_done.1
        c.restocked.posted
  Step-Posted {s} {t} one (place input device o h) =
      let w = create_po-Placed input device s h in Posted-same (cc (w.only)) (cc (w.only))
  Step-Posted {s} {t} one (receive id actor r h) =
      (receive_po-Received lower id actor s one h).posted
  Step-Posted {s} {t} one (cancel id o h) =
      let (po, row, gone, answer, frame) = cancel_po-ok id s h in Posted-same (cc) (cc)
  Step-Posted {s} {t} one (delete id x h) =
      let frame = delete_po-only id s h in Posted-same (cc) (cc)
  Step-Posted {s} {t} one (adjust id input actor r h) = adjust_stock-Posted id input actor s h
  Step-Posted {s} {t} one (pay mechanic dto actor r h) =
      let frame = create_credit_payment-rest mechanic dto actor s h in Posted-same (cc) (cc)
  Step-Posted {s} {t} one (open_drawer actor cash r h) =
      let frame = open_shift-rest actor cash s h in Posted-same (cc) (cc)
  Step-Posted {s} {t} one (close_drawer device cash r h) =
      let frame = close-rest device cash s h in Posted-same (cc) (cc)
  Step-Posted {s} {t} one (enter actor type amount text r h) =
      let (shifts, frame) = add_entry-rest actor type amount text s h in Posted-same (cc) (cc)
  Step-Posted {s} {t} one (enrol input code_hash actor r h) =
      let (frame, shifts) = create_device-rest input code_hash actor s h in Posted-same (cc) (cc)
  Step-Posted {s} {t} one (retire actor device cash r h) =
      let (frame, shelved) = retire_device-drawers actor device cash s h in Posted-same (cc) (cc)
  Step-Posted {s} {t} one (save_quote input device r h) =
      let w = create_quote-Saved input device s h in Posted-same (cc (w.only)) (cc (w.only))
  Step-Posted {s} {t} one (edit_quote id patch r h) =
      let frame = update_quote-rest id patch s h in Posted-same (cc) (cc)
  Step-Posted {s} {t} one (drop_quote id x h) =
      let frame = delete_quote-rest id s h in Posted-same (cc) (cc)
  Step-Posted {s} {t} one (renew_quote id device r h) =
      let w = duplicate_quote-Copied id device s h in Posted-same (cc (w.only)) (cc (w.only))
  Step-Posted {s} {t} one (sell_quote id party actor r h) =
      let (dto, u, rows, sold, marked) = convert_quote-bill id party actor s h in
      Posted-quotes s u t rows marked (create_sale-Posted dto actor s sold)
  Step-Posted {s} {t} one (pass now today year month e) = Posted-same (cc) (cc)
