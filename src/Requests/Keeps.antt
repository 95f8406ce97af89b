-- ===== src/Requests/Keeps.antt =====
-- What each request keeps beside the stock.
use jenkin_sri_store.Prelude.{◌≡◌, arith, true, Bool-cases, inl, inr}
use jenkin_sri_store.Store.{Text, RowId, update, is_some, Sale, Quote, Table, Db, ok}
use jenkin_sri_store.Shifts.Drawer.{OneDrawer}
use jenkin_sri_store.Shifts.Opening.{open_shift-OneDrawer}
use jenkin_sri_store.Shifts.Closing.{close-Closed}
use jenkin_sri_store.Shifts.Rest.{open_shift-rest, close-rest, add_entry-rest}
use jenkin_sri_store.Sales.Void.{stamped_void}
use jenkin_sri_store.Sales.Void.Undo.{void_sale-Voided}
use jenkin_sri_store.Sales.Void.RoundTrip.{HaveBills}
use jenkin_sri_store.Returns.Create.Written.{create_return-Credited}
use jenkin_sri_store.Returns.Create.Refunds.{IsWithin, create_return-IsWithin}
use jenkin_sri_store.PurchaseOrders.Status.{cancel_po-ok}
use jenkin_sri_store.PurchaseOrders.Placed.{create_po-Placed}
use jenkin_sri_store.PurchaseOrders.Receipt.Runnings.{OneRow}
use jenkin_sri_store.PurchaseOrders.Receipt.Received.{receive_po-Received}
use jenkin_sri_store.Products.Adjusted.{adjust_stock-Adjusted}
use jenkin_sri_store.CreditPayments.Paid.{create_credit_payment-rest}
use jenkin_sri_store.Devices.Rest.{create_device-rest, retire_device-drawers}
use jenkin_sri_store.Quotes.Sold.{convert_quote-bill}
use jenkin_sri_store.Quotes.Saved.{create_quote-Saved}
use jenkin_sri_store.Quotes.Copied.{update_quote-rest, delete_quote-rest, duplicate_quote-Copied}
use jenkin_sri_store.Shifts.{Actor}
use jenkin_sri_store.Sales.Request.{CreateSale}
use jenkin_sri_store.Sales.Create.{CreateSaleResult, create_sale}
use jenkin_sri_store.Requests.{
  Step, sell, void, refund, place, receive, cancel, delete, adjust, pay, open_drawer, close_drawer,
  enter, enrol, retire, save_quote, edit_quote, drop_quote, renew_quote, sell_quote, pass,
}
use jenkin_sri_store.Requests.Kept.{
  create_sale_sold, create_sale-rest, create_sale-HaveBills, HaveBills-kept, delete_po-only,
  retire_device-OneDrawer,
}

-- What a request keeps beside the stock.
pub record Keeps (s t : Db) : Type 0 where
  pub keys : t.product_ids ≡ s.product_ids
  pub drawers : OneDrawer s.shifts → OneDrawer t.shifts
  pub refunds : IsWithin s → IsWithin t
  pub bills : HaveBills s → HaveBills t

IsWithin-same :
    (s t : Db)
    → t.sale_items ≡ s.sale_items
    → t.return_items ≡ s.return_items
    → IsWithin s
    → IsWithin t
IsWithin-same s t sold back w = record { within = λ id p c. rw (sold, back) (w.within id p c) }

update-is_some :
    (k j : RowId) (f : Sale → Sale) (sales : Table Sale)
    → is_some (sales j) ≡ true
    → is_some (update k f sales j) ≡ true
update-is_some k j f sales h = ground arith

HaveBills-same :
    (s t : Db) → t.sale_items ≡ s.sale_items → t.sales ≡ s.sales → HaveBills s → HaveBills t
HaveBills-same s t items sales h = rw (items, sales) h

Keeps-same :
    (s t : Db)
    → t.product_ids ≡ s.product_ids
    → (OneDrawer s.shifts → OneDrawer t.shifts)
    → t.sale_items ≡ s.sale_items
    → t.return_items ≡ s.return_items
    → t.sales ≡ s.sales
    → Keeps s t
Keeps-same s t keys drawers items back sales = record {
  keys = keys;
  drawers = drawers;
  refunds = IsWithin-same s t items back;
  bills = HaveBills-same s t items sales;
}

OneDrawer-same : (s t : Db) → t.shifts ≡ s.shifts → OneDrawer s.shifts → OneDrawer t.shifts
OneDrawer-same s t same one = rw same one

sell-Keeps :
    (dto : CreateSale) (actor : Actor) (s : Db) {r : CreateSaleResult} {t : Db}
    → create_sale dto actor s ≡ ok (r, t)
    → Keeps s t
sell-Keeps dto actor s {r} {t} h =
    let (shifts, back, keys) = create_sale-rest dto actor s h in
    record {
      keys = keys;
      drawers = OneDrawer-same s t shifts;
      refunds = λ w. record {
        within = λ id p c.
            rw back (omega (arith, w.within id p c, create_sale_sold dto actor s id p c h));
      };
      bills = λ b. create_sale-HaveBills dto actor s b h;
    }

-- The mark on a quote is no part of what is kept.
Keeps-quotes :
    (s u t : Db) (rows : Table Quote) → t ≡ record u { quotes = rows } → Keeps s u → Keeps s t
Keeps-quotes s u t rows marked k = rw marked (record {
  keys = k.keys;
  drawers = k.drawers;
  refunds = λ w. record { within = λ id p c. (k.refunds w).within id p c };
  bills = k.bills;
})

module _ (lower : Text → Text) where
  pub Step-Keeps : {s t : Db} → OneRow s.product_ids → Step lower s t → Keeps s t
  Step-Keeps {s} {t} one (sell dto actor r h) = sell-Keeps dto actor s h
  Step-Keeps {s} {t} one (void id auth x h) =
      let v = void_sale-Voided id auth s h in
      let items : t.sale_items ≡ s.sale_items = cc (v.only) in
      record {
        keys = cc (v.only);
        drawers = OneDrawer-same s t (cc (v.only));
        refunds = IsWithin-same s t items (cc (v.only));
        bills = λ b. rw items (
            HaveBills-kept s.sales t.sales s.sale_items
              (λ k there. rw v.marked (update-is_some id k (stamped_void s.now) s.sales there)) b);
      }
  Step-Keeps {s} {t} one (refund dto actor r h) =
      let c = create_return-Credited dto actor s h in
      let still : (k : RowId) → is_some (s.sales k) ≡ true → is_some (t.sales k) ≡ true = λ k there.
        rw c.flagged (elim (Bool-cases r.sale_voided) [
          | inl e ↦ rw e (update-is_some dto.sale_id k (stamped_void s.now) s.sales there)
          | inr e ↦ rw e there
        ]) in
      record {
        keys = cc (c.only);
        drawers = OneDrawer-same s t (cc (c.only));
        refunds = λ w. create_return-IsWithin dto actor s w h;
        bills = λ b. rw c.sold_kept (HaveBills-kept s.sales t.sales s.sale_items still b);
      }
  Step-Keeps {s} {t} one (place input device o h) =
      let w = create_po-Placed input device s h in
      Keeps-same s t (cc (w.only)) (OneDrawer-same s t (cc (w.only))) (cc (w.only)) (cc (w.only))
        (cc (w.only))
  Step-Keeps {s} {t} one (receive id actor r h) =
      let w = receive_po-Received lower id actor s one h in
      Keeps-same s t (cc (w.only)) (OneDrawer-same s t (cc (w.only))) (cc (w.only)) (cc (w.only))
        (cc (w.only))
  Step-Keeps {s} {t} one (cancel id o h) =
      let (po, row, gone, answer, frame) = cancel_po-ok id s h in
      Keeps-same s t (cc) (OneDrawer-same s t (cc)) (cc) (cc) (cc)
  Step-Keeps {s} {t} one (delete id x h) =
      let frame = delete_po-only id s h in
      Keeps-same s t (cc) (OneDrawer-same s t (cc)) (cc) (cc) (cc)
  Step-Keeps {s} {t} one (adjust id input actor r h) =
      let w = adjust_stock-Adjusted id input actor s h in
      Keeps-same s t (cc (w.only)) (OneDrawer-same s t (cc (w.only))) (cc (w.only)) (cc (w.only))
        (cc (w.only))
  Step-Keeps {s} {t} one (pay mechanic dto actor r h) =
      let frame = create_credit_payment-rest mechanic dto actor s h in
      Keeps-same s t (cc) (OneDrawer-same s t (cc)) (cc) (cc) (cc)
  Step-Keeps {s} {t} one (open_drawer actor cash r h) =
      let frame = open_shift-rest actor cash s h in
      Keeps-same s t (cc) (λ o. open_shift-OneDrawer actor cash s o h) (cc) (cc) (cc)
  Step-Keeps {s} {t} one (close_drawer device cash r h) =
      let frame = close-rest device cash s h in
      Keeps-same s t (cc) (λ o. (close-Closed device cash s o h).one) (cc) (cc) (cc)
  Step-Keeps {s} {t} one (enter actor type amount text r h) =
      let (shifts, frame) = add_entry-rest actor type amount text s h in
      Keeps-same s t (cc) (OneDrawer-same s t shifts) (cc) (cc) (cc)
  Step-Keeps {s} {t} one (enrol input code_hash actor r h) =
      let (frame, shifts) = create_device-rest input code_hash actor s h in
      Keeps-same s t (cc) (OneDrawer-same s t shifts) (cc) (cc) (cc)
  Step-Keeps {s} {t} one (retire actor device cash r h) =
      let (frame, shelved) = retire_device-drawers actor device cash s h in
      Keeps-same s t (cc) (λ o. retire_device-OneDrawer actor device cash s o h) (cc) (cc) (cc)
  Step-Keeps {s} {t} one (save_quote input device r h) =
      let w = create_quote-Saved input device s h in
      Keeps-same s t (cc (w.only)) (OneDrawer-same s t (cc (w.only))) (cc (w.only)) (cc (w.only))
        (cc (w.only))
  Step-Keeps {s} {t} one (edit_quote id patch r h) =
      let frame = update_quote-rest id patch s h in
      Keeps-same s t (cc) (OneDrawer-same s t (cc)) (cc) (cc) (cc)
  Step-Keeps {s} {t} one (drop_quote id x h) =
      let frame = delete_quote-rest id s h in
      Keeps-same s t (cc) (OneDrawer-same s t (cc)) (cc) (cc) (cc)
  Step-Keeps {s} {t} one (renew_quote id device r h) =
      let w = duplicate_quote-Copied id device s h in
      Keeps-same s t (cc (w.only)) (OneDrawer-same s t (cc (w.only))) (cc (w.only)) (cc (w.only))
        (cc (w.only))
  Step-Keeps {s} {t} one (sell_quote id party actor r h) =
      let (dto, u, rows, sold, marked) = convert_quote-bill id party actor s h in
      Keeps-quotes s u t rows marked (sell-Keeps dto actor s sold)
  Step-Keeps {s} {t} one (pass now today year month e) =
      Keeps-same s t (cc) (OneDrawer-same s t (cc)) (cc) (cc) (cc)
