-- ===== src/Quotes/Accepted.antt =====
-- When a quote can be sold.
use jenkin_sri_store.Prelude.{◌≤◌, ◌≡◌, ◌≢◌, refl, arith, false, some, List, [], ◌∷◌}
use jenkin_sri_store.Store.{
  RowId, Quote, QuoteItem, Db, Returns, Returns-next, ◌>>=◌, ok, throw_if, is_some, update_self,
  quote_expired, sale_id_reused,
}
use jenkin_sri_store.Shifts.{Actor}
use jenkin_sri_store.Sales.Create.Acceptable.{IsAcceptable}
use jenkin_sri_store.Sales.Create.Accepted.{create_sale_accepts}
use jenkin_sri_store.Quotes.{
  SaleParty, is_converted, is_expired, lines_of_quote, lock_quote, read_quote, to_quote, bill_of,
  bill_or_throw, sale_from, convert_first, convert_quote,
}
use jenkin_sri_store.Quotes.Sold.{create_sale-id}

bill_or_throw-Returns :
    (q : Quote) (lines : List QuoteItem) (party : SaleParty) (s : Db)
    → lines ≢ []
    → bill_or_throw q lines party s ≡ ok (bill_of q lines party, s)
bill_or_throw-Returns q [] party s some_line = absurd (some_line refl)
bill_or_throw-Returns q (l ∷ ls) party s some_line = refl

pub read_quote-found :
    (id : RowId) (s : Db) {q : Quote}
    → s.quotes id ≡ some q
    → read_quote id s ≡ ok (to_quote id q s.now (lines_of_quote id s.quote_items), s)
unfolding read_quote lock_quote ◌>>=◌
read_quote-found id s found = rw found refl

-- A quote that was not converted is sold whenever it has not expired, it has a line, and its bill
-- for the party is one that would be accepted.
pub convert_quote_accepts :
    (id : RowId) (party : SaleParty) (actor : Actor) (s : Db) (q : Quote)
    → s.quotes id ≡ some q
    → is_converted q.status ≡ false
    → s.now ≤ q.valid_until
    → lines_of_quote id s.quote_items ≢ []
    → IsAcceptable (bill_of q (lines_of_quote id s.quote_items) party) actor s
    → Returns (convert_quote id party actor) s
unfolding convert_quote convert_first lock_quote sale_from read_quote bill_of
convert_quote_accepts id party actor s q found pending in_time some_line fits =
    let dto = bill_of q (lines_of_quote id s.quote_items) party in
    let (sale, t, e) = create_sale_accepts dto actor s fits in
    let (named, kept, items, clock) = create_sale-id dto actor s e in
    let read : lock_quote id s ≡ ok (q, s) = rw found refl in
    let timely : throw_if (is_expired q s.now) quote_expired s ≡ ok (tt, s) = ground arith in
    let free : throw_if (is_some (s.sales party.id)) sale_id_reused s ≡ ok (tt, s) =
      rw fits.deliverable.fresh refl in
    let row : t.quotes id ≡ some q = rw kept found in
    Returns-next _ _ s read (
      rw pending (
        Returns-next _ _ s refl (
          Returns-next _ _ s timely (
            Returns-next _ _ s refl (
              Returns-next _ _ s free (
                Returns-next _ _ s (bill_or_throw-Returns q _ party s some_line) (
                  Returns-next _ _ s e (
                    Returns-next _ _ t refl (
                      Returns-next _ _ _ (read_quote-found id _ (update_self id _ t.quotes q row))
                        (_, _, refl))))))))))
