-- ===== src/Quotes/Settled.antt =====
-- A quote once it is sold.
use jenkin_sri_store.Prelude.{◌+◌, ◌≤◌, ◌≡◌, refl, false, none, some, ◌==◌, map, sum_by, inl, inr}
use jenkin_sri_store.Store.{
  RowId, Sale, Shift, Quote, Db, ok, err, update_self, ◌>>=◌, quote_already_converted,
}
use jenkin_sri_store.Shifts.{Actor, open_drawer_of}
use jenkin_sri_store.Sales.Request.Demands.{line_qty}
use jenkin_sri_store.Sales.Stock.Deduction.{stock_of}
use jenkin_sri_store.Sales.Create.Stocktake.{create_sale_takes, create_sale_stamps}
use jenkin_sri_store.Quotes.{
  SaleParty, QuotePatch, ConvertQuoteResult, is_converted, lines_of_quote, sale_line, lock_quote,
  bill_of, stamped_sale, convert_again, convert_quote, update_quote,
}
use jenkin_sri_store.Quotes.Sold.{Sold, convert_quote-cases}

-- The quote's row after it was sold.
marked_quote :
    (id : RowId) (party : SaleParty) (actor : Actor) (s : Db) {r : ConvertQuoteResult} {t : Db}
    → (w : Sold id party actor s r t) → t.quotes id ≡ some (stamped_sale party.id s.now w.quote)
marked_quote id party actor s w =
    rw w.marked (update_self id (stamped_sale party.id s.now) s.quotes w.quote w.found)

-- A quote that was not converted, and is sold: it had not expired, a new bill of its total stands
-- under the id that was asked for, stamped with the open drawer, each product's stock falls by
-- exactly what the quote's lines hold of it, and the quote is converted into that bill.
pub convert_quote_sells :
    (id : RowId) (party : SaleParty) (actor : Actor) (s : Db) (q : Quote) {r : ConvertQuoteResult}
    {t : Db}
    → s.quotes id ≡ some q
    → is_converted q.status ≡ false
    → convert_quote id party actor s ≡ ok (r, t)
    → (s.now ≤ q.valid_until)
      × (s.sales party.id ≡ none)
      × ((x : Shift) × (open_drawer_of actor.device_id s.shifts ≡ some x)
          × ((bill : Sale) × (t.sales party.id ≡ some bill)
              × (bill.shift_id ≡ some x.id)
              × (bill.total ≡ q.total)
              × (bill.voided ≡ false)))
      × ((p : RowId)
          → stock_of (t.products p)
              + sum_by (line_qty p) (map sale_line (lines_of_quote id s.quote_items))
            ≡ stock_of (s.products p))
      × (t.quotes id ≡ some (stamped_sale party.id s.now q))
unfolding bill_of
convert_quote_sells id party actor s q {r} {t} found pending h =
    elim (convert_quote-cases id party actor s h) [
      | inl w ↦
          let same : w.quote ≡ q = cc (w.found) in
          let row = marked_quote id party actor s w in
          let dto = bill_of w.quote (lines_of_quote id s.quote_items) party in
          let (x, open_now, (bill, stored, stamped, total, live)) =
            create_sale_stamps dto actor s w.fresh w.sold in
          (
            rw same at w.in_time,
            w.fresh,
            (x, open_now, (bill, rw w.marked stored, stamped, rw same at total, live)),
            λ p. rw w.marked (create_sale_takes dto actor s p w.fresh w.sold),
            rw same at row,
          )
      | inr w ↦ absurd (cc (w.found, w.done))
    ]

-- A quote that was sold is sold: a conversion into another bill and a change of its header are each
-- refused, with the bill that it was sold as.
pub convert_quote_settles :
    (id : RowId) (party other : SaleParty) (actor clerk : Actor) (patch : QuotePatch) (s : Db)
    (q : Quote) {r : ConvertQuoteResult} {t : Db}
    → s.quotes id ≡ some q
    → is_converted q.status ≡ false
    → (party.id == other.id) ≡ false
    → convert_quote id party actor s ≡ ok (r, t)
    → (convert_quote id other clerk t ≡ err (quote_already_converted (some party.id)))
      × (update_quote id patch t ≡ err (quote_already_converted (some party.id)))
unfolding convert_quote update_quote lock_quote convert_again ◌>>=◌
convert_quote_settles id party other actor clerk patch s q {r} {t} found pending apart h =
    elim (convert_quote-cases id party actor s h) [
      | inl w ↦ let row = marked_quote id party actor s w in (rw row (rw apart refl), rw row refl)
      | inr w ↦ absurd (cc (w.found, w.done))
    ]
