-- ===== src/Quotes.antt =====
-- Quotes (server/src/quotes/quotes.service.ts): saving one, its header text, deleting and
-- duplicating it, and selling it.
pub mod Sold
pub mod Settled
pub mod Saved
pub mod Accepted
pub mod Copied
use jenkin_sri_store.Prelude.{
  ℕ, suc, ◌+◌, ◌*◌, Bool, true, false, Option, none, some, List, [], ◌∷◌, ◌++◌, ◌==◌, ltb, leb,
  if◌then◌else◌, map, keep, sort_by, not,
}
use jenkin_sri_store.Prelude.Int.{ℤ, sub_ℕ}
use jenkin_sri_store.Store.{
  Text, RowId, PaymentMethod, DocType, QuoteStatus, Quote, QuoteItem, Table, put, update, is_some,
  Db, Tx, ok, err, internal, pure, modify, throw, throw_if, gets, or_throw, ◌>>=◌, ◌>>◌, new_id,
  total_mismatch, sale_id_reused, quote_not_found, quote_expired, quote_has_no_lines,
  quote_already_converted,
}
use jenkin_sri_store.Documents.{issue}
use jenkin_sri_store.Shifts.{Actor}
use jenkin_sri_store.Sales.Request.{SaleLine, CreateSale, totals_off, computed_subtotal}
use jenkin_sri_store.Sales.Create.{CreateSaleResult, create_sale}

-- The parsed body of `POST /quotes`.
pub record QuoteLine : Type 0 where
  pub line_no : ℕ
  pub product_id : Option RowId
  pub name : Text
  pub qty : ℕ
  pub price : ℕ

pub record QuoteCreate : Type 0 where
  pub subtotal : ℕ
  pub discount : ℕ
  pub total : ℕ
  pub customer_name : Option Text
  pub customer_phone : Option Text
  pub notes : Option Text
  pub valid_days : Option ℕ
  pub items : List QuoteLine

-- A field that a patch leaves out is absent; one that it clears is null.
pub record QuotePatch : Type 0 where
  pub customer_name : Option (Option Text)
  pub customer_phone : Option (Option Text)
  pub notes : Option (Option Text)

-- Everything on a bill that is not its lines or its money.
pub record SaleParty : Type 0 where
  pub id : RowId
  pub payment_method : PaymentMethod
  pub customer_id : Option RowId
  pub customer_name : Option Text
  pub mechanic_id : Option RowId
  pub mechanic_name : Option Text
  pub mechanic_delta : Option ℤ
  pub override_credit_limit : Bool

pub record QuoteItemOut : Type 0 where
  pub line_no : ℕ
  pub product_id : Option RowId
  pub name : Text
  pub qty : ℕ
  pub price : ℕ

pub record QuoteOut : Type 0 where
  pub id : RowId
  pub row : Quote
  pub is_expired : Bool
  pub is_converted : Bool
  pub items : List QuoteItemOut

pub record ConvertQuoteResult : Type 0 where
  pub sale : CreateSaleResult
  pub quote : QuoteOut

-- `DEFAULT_VALID_DAYS`, and 24 hours in microseconds.
abbrev pub default_valid_days : ℕ
default_valid_days = 30

abbrev pub day : ℕ
day = 86400000000

abbrev pub days_or_default : Option ℕ → ℕ
days_or_default none = default_valid_days
days_or_default (some n) = n

abbrev pub is_converted : QuoteStatus → Bool
is_converted QuoteStatus.converted = true
is_converted _ = false

-- `valid_until < now()`.
abbrev pub is_expired : Quote → ℕ → Bool
is_expired q now = ltb q.valid_until now

-- `ORDER BY line_no` over the lines of one quote.
unfoldable pub lines_of_quote : RowId → List QuoteItem → List QuoteItem
lines_of_quote id items =
    sort_by (λ a b. leb a.line_no b.line_no) (keep (λ i. i.quote_id == id) items)

abbrev pub quote_item_out : QuoteItem → QuoteItemOut
quote_item_out i = record {
  line_no = i.line_no;
  product_id = i.product_id;
  name = i.name;
  qty = i.qty;
  price = i.price;
}

-- `toQuote`.
unfoldable pub to_quote : RowId → Quote → ℕ → List QuoteItem → QuoteOut
to_quote id q now items = record {
  id = id;
  row = q;
  is_expired = is_expired q now;
  is_converted = is_converted q.status;
  items = map quote_item_out items;
}

-- The row under the id, `SELECT … FOR UPDATE` or the one that `read` selects.
unfoldable pub lock_quote : RowId → Tx Quote
lock_quote id s = or_throw (s.quotes id) quote_not_found s

-- `read`, with `withItems` for one quote.
unfoldable pub read_quote : RowId → Tx QuoteOut
unfolding lock_quote to_quote lines_of_quote
read_quote id = do
  q ← lock_quote id
  gets (λ s. to_quote id q s.now (lines_of_quote id s.quote_items))

-- `l.product_id ?? ''`: the id 0 stands for the empty text, which names no product.
abbrev pub product_or_empty : Option RowId → RowId
product_or_empty none = 0
product_or_empty (some p) = p

-- A line as the bill has it.
abbrev pub sale_line : QuoteItem → SaleLine
sale_line l = record {
  line_no = l.line_no;
  product_id = product_or_empty l.product_id;
  part_no = none;
  name = l.name;
  name_th = none;
  qty = l.qty;
  price = l.price;
}

abbrev pub stored_line : RowId → QuoteLine → QuoteItem
stored_line id l = record {
  quote_id = id;
  line_no = l.line_no;
  product_id = l.product_id;
  name = l.name;
  qty = l.qty;
  price = l.price;
}

-- The lines as `assertSaleTotals` reads them: by quantity and price alone.
abbrev pub priced_line : QuoteLine → SaleLine
priced_line l = sale_line (stored_line 0 l)

unfoldable pub assert_quote_totals : QuoteCreate → Tx (Unit {0})
assert_quote_totals input =
    let lines = map priced_line input.items in
    throw_if (totals_off lines input.subtotal input.discount input.total)
      (total_mismatch (computed_subtotal lines) (sub_ℕ (computed_subtotal lines) input.discount))

abbrev pub new_quote : QuoteCreate → List ℕ → ℕ → Quote
new_quote input quote_no now = record {
  quote_no = quote_no;
  status = QuoteStatus.still_open;
  date = now;
  valid_until = now + days_or_default input.valid_days * day;
  converted_at = none;
  converted_sale_id = none;
  subtotal = input.subtotal;
  discount = input.discount;
  total = input.total;
  customer_name = input.customer_name;
  customer_phone = input.customer_phone;
  notes = input.notes;
  valid_days = input.valid_days;
}

-- The insert of the header and `insertItems`; the key of a quote is no other quote's.
unfoldable pub insert_quote : RowId → Quote → List QuoteItem → Tx (Unit {0})
insert_quote id q lines s =
    if is_some (s.quotes id)
    then err internal
    else ok (tt, record s { quotes = put id q s.quotes; quote_items = s.quote_items ++ lines })

-- `createIn`.
unfoldable pub create_quote : QuoteCreate → RowId → Tx QuoteOut
unfolding assert_quote_totals insert_quote read_quote
create_quote input device = do
  assert_quote_totals input
  id ← new_id
  quote_no ← issue device DocType.quote
  now ← gets (λ s. s.now)
  insert_quote id (new_quote input quote_no now) (map (stored_line id) input.items)
  read_quote id

abbrev pub patched_field : Option (Option Text) → Option Text → Option Text
patched_field none old = old
patched_field (some new) old = new

abbrev pub patched : QuotePatch → Quote → Quote
patched patch q = record q {
  customer_name = patched_field patch.customer_name q.customer_name;
  customer_phone = patched_field patch.customer_phone q.customer_phone;
  notes = patched_field patch.notes q.notes;
}

-- `updateIn`: an update that found no row to change looks for the reason.
unfoldable pub update_quote : RowId → QuotePatch → Tx QuoteOut
unfolding lock_quote read_quote
update_quote id patch = do
  q ← lock_quote id
  throw_if (is_converted q.status) (quote_already_converted q.converted_sale_id)
  modify (λ s. record s { quotes = update id (patched patch) s.quotes })
  read_quote id

-- `DELETE`, with the lines by `ON DELETE CASCADE`.
abbrev pub without_quote : RowId → Db → Db
without_quote id s = record s {
  quotes = λ j. if id == j then none else s.quotes j;
  quote_items = keep (λ i. not (i.quote_id == id)) s.quote_items;
}

-- `deleteIn`.
unfoldable pub delete_quote : RowId → Tx RowId
unfolding lock_quote
delete_quote id = do _ ← lock_quote id; modify (without_quote id); pure id

abbrev pub renewed : Quote → List ℕ → ℕ → Quote
renewed q quote_no now = record q {
  quote_no = quote_no;
  status = QuoteStatus.still_open;
  date = now;
  valid_until = now + days_or_default q.valid_days * day;
  converted_at = none;
  converted_sale_id = none;
}

abbrev pub copied_line : RowId → QuoteItemOut → QuoteItem
copied_line id i = record {
  quote_id = id;
  line_no = i.line_no;
  product_id = i.product_id;
  name = i.name;
  qty = i.qty;
  price = i.price;
}

-- `duplicateIn`.
unfoldable pub duplicate_quote : RowId → RowId → Tx QuoteOut
unfolding insert_quote read_quote
duplicate_quote id device = do
  src ← read_quote id
  new ← new_id
  quote_no ← issue device DocType.quote
  now ← gets (λ s. s.now)
  insert_quote new (renewed src.row quote_no now) (map (copied_line new) src.items)
  read_quote new

-- The bill that the lines and the money of a quote come to.
unfoldable pub bill_of : Quote → List QuoteItem → SaleParty → CreateSale
bill_of q lines party = record {
  id = party.id;
  subtotal = q.subtotal;
  discount = q.discount;
  total = q.total;
  payment_method = party.payment_method;
  customer_id = party.customer_id;
  customer_name = party.customer_name;
  mechanic_id = party.mechanic_id;
  mechanic_name = party.mechanic_name;
  mechanic_delta = party.mechanic_delta;
  override_credit_limit = party.override_credit_limit;
  items = map sale_line lines;
}

abbrev pub bill_or_throw : Quote → List QuoteItem → SaleParty → Tx CreateSale
bill_or_throw q [] party = throw quote_has_no_lines
bill_or_throw q (l ∷ ls) party = pure (bill_of q (l ∷ ls) party)

-- `saleFrom`.
unfoldable pub sale_from : RowId → Quote → SaleParty → Tx CreateSale
unfolding lines_of_quote bill_of
sale_from id q party s = bill_or_throw q (lines_of_quote id s.quote_items) party s

abbrev pub is_bill : Option RowId → RowId → Bool
is_bill none id = false
is_bill (some x) id = x == id

-- A quote that is converted answers a retry with its bill.
unfoldable pub convert_again : RowId → Quote → SaleParty → Actor → Tx ConvertQuoteResult
unfolding sale_from read_quote
convert_again id q party actor = do
  throw_if (not (is_bill q.converted_sale_id party.id))
      (quote_already_converted q.converted_sale_id)
  dto ← sale_from id q party
  sale ← create_sale dto actor
  quote ← read_quote id
  pure (record { sale = sale; quote = quote })

abbrev pub stamped_sale : RowId → ℕ → Quote → Quote
stamped_sale sale_id now q = record q {
  status = QuoteStatus.converted;
  converted_at = some now;
  converted_sale_id = some sale_id;
}

-- A quote that is not: its bill is a new one.
unfoldable pub convert_first : RowId → Quote → SaleParty → Actor → Tx ConvertQuoteResult
unfolding sale_from read_quote
convert_first id q party actor = do
  now ← gets (λ s. s.now)
  throw_if (is_expired q now) quote_expired
  taken ← gets (λ s. is_some (s.sales party.id))
  throw_if taken sale_id_reused
  dto ← sale_from id q party
  sale ← create_sale dto actor
  modify (λ s. record s { quotes = update id (stamped_sale sale.id now) s.quotes })
  quote ← read_quote id
  pure (record { sale = sale; quote = quote })

abbrev pub convert_row : RowId → Quote → SaleParty → Actor → Bool → Tx ConvertQuoteResult
convert_row id q party actor true = convert_again id q party actor
convert_row id q party actor false = convert_first id q party actor

-- `convertIn`.
unfoldable pub convert_quote : RowId → SaleParty → Actor → Tx ConvertQuoteResult
unfolding lock_quote convert_again convert_first
convert_quote id party actor = do
  q ← lock_quote id
  convert_row id q party actor (is_converted q.status)
