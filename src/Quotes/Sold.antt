-- ===== src/Quotes/Sold.antt =====
-- Selling a quote: what a conversion that returned did.
use jenkin_sri_store.Prelude.{
  ◌≤◌, ◌≡◌, ◌⊎◌, refl, sym, ap, subst, arith, true, false, none, some, List, [], ◌∷◌, not,
  Option-cases, Bool-cases, inl, inr,
}
use jenkin_sri_store.Store.{
  RowId, Table, Quote, QuoteItem, Db, ok, ran, or_throw-ok, throw_if-ok, update, update_self,
  sale_id_reused, quote_not_found, quote_expired, quote_already_converted,
}
use jenkin_sri_store.Shifts.{Actor}
use jenkin_sri_store.Sales.Request.{CreateSale}
use jenkin_sri_store.Sales.Create.{CreateSaleResult, replay, create_sale}
use jenkin_sri_store.Sales.Create.Stocktake.{create_sale-cases}
use jenkin_sri_store.Quotes.{
  SaleParty, QuoteOut, ConvertQuoteResult, is_converted, is_expired, lines_of_quote, to_quote,
  lock_quote, read_quote, bill_of, bill_or_throw, sale_from, is_bill, stamped_sale, convert_again,
  convert_first, convert_quote,
}

pub lock_quote-ok :
    (id : RowId) (s : Db) {q : Quote} {t : Db}
    → lock_quote id s ≡ ok (q, t)
    → (s.quotes id ≡ some q) × (t ≡ s)
unfolding lock_quote
lock_quote-ok id s h = or_throw-ok (s.quotes id) quote_not_found s h

pub read_quote-ok :
    (id : RowId) (s : Db) {o : QuoteOut} {t : Db}
    → read_quote id s ≡ ok (o, t)
    → ((q : Quote) × (s.quotes id ≡ some q)
        × (o ≡ to_quote id q s.now (lines_of_quote id s.quote_items)))
      × (t ≡ s)
unfolding read_quote
read_quote-ok id s {o} {t} h = ran _ _ _ h λ q u e k.
    let (found, same) = lock_quote-ok id s e in
    let answer : to_quote id q u.now (lines_of_quote id u.quote_items) ≡ o = cc in
    ((q, found, rw same at (sym answer)), cc)

bill_or_throw-ok :
    (q : Quote) (lines : List QuoteItem) (party : SaleParty) (s : Db) {dto : CreateSale} {t : Db}
    → bill_or_throw q lines party s ≡ ok (dto, t)
    → (dto ≡ bill_of q lines party) × (t ≡ s)
bill_or_throw-ok q [] party s h = absurd (cc)
bill_or_throw-ok q (l ∷ ls) party s h = (cc, cc)

-- The mark leaves the bill of a quote as it is.
bill_or_throw-stamped :
    (sale_id now : RowId) (q : Quote) (lines : List QuoteItem) (party : SaleParty) (s t : Db)
    → bill_or_throw q lines party s ≡ ok (bill_of q lines party, s)
    → bill_or_throw (stamped_sale sale_id now q) lines party t ≡ ok (bill_of q lines party, t)
unfolding bill_of
bill_or_throw-stamped sale_id now q [] party s t h = absurd (cc)
bill_or_throw-stamped sale_id now q (l ∷ ls) party s t h = refl

pub stamped-drawn :
    (id sale_id now : RowId) (q : Quote) (party : SaleParty) (s t : Db)
    → t.quote_items ≡ s.quote_items
    → sale_from id q party s ≡ ok (bill_of q (lines_of_quote id s.quote_items) party, s)
    → sale_from id (stamped_sale sale_id now q) party t
      ≡ ok (bill_of q (lines_of_quote id s.quote_items) party, t)
unfolding sale_from
stamped-drawn id sale_id now q party s t same h =
    subst
      (λ xs.
        bill_or_throw (stamped_sale sale_id now q) (lines_of_quote id xs) party t
        ≡ ok (bill_of q (lines_of_quote id s.quote_items) party, t))
      (sym same) (bill_or_throw-stamped sale_id now q (lines_of_quote id s.quote_items) party s t h)

pub sale_from-ok :
    (id : RowId) (q : Quote) (party : SaleParty) (s : Db) {dto : CreateSale} {t : Db}
    → sale_from id q party s ≡ ok (dto, t)
    → (dto ≡ bill_of q (lines_of_quote id s.quote_items) party) × (t ≡ s)
unfolding sale_from
sale_from-ok id q party s h = bill_or_throw-ok q (lines_of_quote id s.quote_items) party s h

pub create_sale-id :
    (dto : CreateSale) (actor : Actor) (s : Db) {r : CreateSaleResult} {t : Db}
    → create_sale dto actor s ≡ ok (r, t)
    → (r.id ≡ dto.id) × (t.quotes ≡ s.quotes) × (t.quote_items ≡ s.quote_items) × (t.now ≡ s.now)
unfolding replay
create_sale-id dto actor s h = elim (create_sale-cases dto actor s h) [
  | inl (x, found, live, answer, same) ↦ (rw answer refl, cc, cc, cc)
  | inr w ↦ (
    ap (λ (z : CreateSaleResult). z.id) w.told,
    cc (w.untouched),
    cc (w.untouched),
    cc (w.untouched),
  )
]

-- A conversion of a quote that was not converted: its bill is a new one, and the quote is marked.
pub record Sold (id : RowId) (party : SaleParty) (actor : Actor) (s : Db) (r : ConvertQuoteResult)
    (t : Db) : Type 0 where
  pub quote : Quote
  pub found : s.quotes id ≡ some quote
  pub pending : is_converted quote.status ≡ false
  pub in_time : s.now ≤ quote.valid_until
  pub fresh : s.sales party.id ≡ none
  pub drawn :
      sale_from id quote party s ≡ ok (bill_of quote (lines_of_quote id s.quote_items) party, s)
  pub after : Db
  pub sold :
      create_sale (bill_of quote (lines_of_quote id s.quote_items) party) actor s
      ≡ ok (r.sale, after)
  pub marked : t ≡ record after { quotes = update id (stamped_sale party.id s.now) s.quotes }
  pub told :
      r.quote
      ≡ to_quote id (stamped_sale party.id s.now quote) s.now (lines_of_quote id s.quote_items)

-- A conversion of a quote that was converted into the bill of that id: the bill's replay.
pub record Repeated (id : RowId) (party : SaleParty) (actor : Actor) (s : Db)
    (r : ConvertQuoteResult) (t : Db) : Type 0 where
  pub quote : Quote
  pub found : s.quotes id ≡ some quote
  pub done : is_converted quote.status ≡ true
  pub same_bill : is_bill quote.converted_sale_id party.id ≡ true
  pub sold :
      create_sale (bill_of quote (lines_of_quote id s.quote_items) party) actor s ≡ ok (r.sale, t)

convert_first-Sold :
    (id : RowId) (q : Quote) (party : SaleParty) (actor : Actor) (s : Db) {r : ConvertQuoteResult}
    {t : Db}
    → s.quotes id ≡ some q
    → is_converted q.status ≡ false
    → convert_first id q party actor s ≡ ok (r, t)
    → Sold id party actor s r t
unfolding convert_first
convert_first-Sold id q party actor s {r} {t} found pending h = ran _ _ _ h λ now a ea k.
    ran _ _ _ k λ u1 b eb k. ran _ _ _ k λ taken c ec k. ran _ _ _ k λ u2 d ed k.
      ran _ _ _ k λ dto e ee k. ran _ _ _ k λ sale f ef k. ran _ _ _ k λ u3 g eg k.
        ran _ _ _ k λ out w eh k.
          let (in_time, b_same) = throw_if-ok (is_expired q now) quote_expired a eb in
          let (is_free, d_same) = throw_if-ok taken sale_id_reused c ed in
          let d_s : d ≡ s = cc in
          let now_s : now ≡ s.now = cc in
          let (is_dto, e_same) = sale_from-ok id q party d ee in
          let e_s : e ≡ s = cc in
          let dto_s : dto ≡ bill_of q (lines_of_quote id s.quote_items) party = cc in
          let (named, kept, lines, clock) = create_sale-id dto actor e ef in
          let party_id : sale.id ≡ party.id = rw named (rw dto_s (unfold bill_of in refl)) in
          let ((x, there, told), w_same) = read_quote-ok id g eh in
          let t_g : t ≡ g = cc in
          let g_f : g ≡ record f { quotes = update id (stamped_sale sale.id now) f.quotes } = cc in
          let row : g.quotes id ≡ some (stamped_sale party.id s.now q) =
            rw (g_f, kept, e_s, party_id, now_s)
              (update_self id (stamped_sale party.id s.now) s.quotes q found) in
          let x_is : x ≡ stamped_sale party.id s.now q = cc in
          let g_now : g.now ≡ s.now = cc in
          let g_items : g.quote_items ≡ s.quote_items = cc in
          let result : sale ≡ r.sale = cc in
          let answered : r.quote ≡ out = cc in
          record {
            quote = q;
            found = found;
            pending = pending;
            in_time = ground (arith, in_time, now_s);
            fresh = elim (Option-cases (s.sales party.id)) [
              | inl free ↦ free
              | inr (y, there) ↦ absurd (ground arith)
            ];
            drawn = rw (d_s, dto_s, e_s) at ee;
            after = f;
            sold = rw (dto_s, e_s, result) at ef;
            marked = rw (t_g, g_f, kept, e_s, party_id, now_s) refl;
            told = rw (answered, told, x_is, g_now, g_items) refl;
          }

convert_again-Repeated :
    (id : RowId) (q : Quote) (party : SaleParty) (actor : Actor) (s : Db) {r : ConvertQuoteResult}
    {t : Db}
    → s.quotes id ≡ some q
    → is_converted q.status ≡ true
    → convert_again id q party actor s ≡ ok (r, t)
    → Repeated id party actor s r t
unfolding convert_again
convert_again-Repeated id q party actor s {r} {t} found done h = ran _ _ _ h λ u1 a ea k.
    ran _ _ _ k λ dto b eb k. ran _ _ _ k λ sale c ec k. ran _ _ _ k λ out d ed k.
      let (matched, a_same) =
        throw_if-ok (not (is_bill q.converted_sale_id party.id))
          (quote_already_converted q.converted_sale_id) s ea in
      let (is_dto, b_same) = sale_from-ok id q party a eb in
      let b_s : b ≡ s = cc in
      let dto_s : dto ≡ bill_of q (lines_of_quote id s.quote_items) party = cc in
      let (shown, d_same) = read_quote-ok id c ed in
      let t_c : c ≡ t = cc in
      let result : sale ≡ r.sale = cc in
      record {
        quote = q;
        found = found;
        done = done;
        same_bill = ground arith;
        sold = rw (dto_s, b_s, result, t_c) at ec;
      }

pub convert_quote-cases :
    (id : RowId) (party : SaleParty) (actor : Actor) (s : Db) {r : ConvertQuoteResult} {t : Db}
    → convert_quote id party actor s ≡ ok (r, t)
    → Sold id party actor s r t ⊎ Repeated id party actor s r t
unfolding convert_quote
convert_quote-cases id party actor s {r} {t} h = ran _ _ _ h λ q a ea k.
    let (found, same) = lock_quote-ok id s ea in
    elim (Bool-cases (is_converted q.status)) [
      | inl done ↦ inr (convert_again-Repeated id q party actor s found done (rw (done, same) at k))
      | inr pending ↦
          inl (convert_first-Sold id q party actor s found pending (rw (pending, same) at k))
    ]

-- What a conversion writes beside its bill's rows is the mark on the quote.
pub convert_quote-bill :
    (id : RowId) (party : SaleParty) (actor : Actor) (s : Db) {r : ConvertQuoteResult} {t : Db}
    → convert_quote id party actor s ≡ ok (r, t)
    → (dto : CreateSale) × (u : Db) × (rows : Table Quote) × (create_sale dto actor s
        ≡ ok (r.sale, u))
      × (t ≡ record u { quotes = rows })
convert_quote-bill id party actor s {r} {t} h = elim (convert_quote-cases id party actor s h) [
  | inl w ↦ (_, w.after, _, w.sold, w.marked)
  | inr w ↦ (_, t, t.quotes, w.sold, refl)
]
