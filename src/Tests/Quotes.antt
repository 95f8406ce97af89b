-- ===== src/Tests/Quotes.antt =====
-- A quote for two bolts and a chain, saved and sold.
use jenkin_sri_store.Prelude.{
  ℕ, ◌+◌, ◌≤◌, ◌≡◌, refl, arith, true, false, some, none, [], ◌∷◌, keep, map, sum_by, sort_by,
  insert_by,
}
use jenkin_sri_store.Money.{points_for}
use jenkin_sri_store.Store.{
  RowId, PaymentMethod, Sale, Shift, Quote, QuoteStatus, put, new_id, each, on_commit, Db, Returns,
  ok, err, ◌>>=◌, quote_already_converted,
}
use jenkin_sri_store.Shifts.{open_drawer_of, latest, require_open_shift_id_for}
use jenkin_sri_store.Sales.Request.{
  computed_subtotal, totals_off, assert_sale_totals, add_line, add_lines, aggregate,
}
use jenkin_sri_store.Sales.Request.Demands.{line_qty}
use jenkin_sri_store.Sales.Stock.Deduction.{stock_of}
use jenkin_sri_store.Prelude.Int.{◌+ℤ◌, ◌-ℤ◌}
use jenkin_sri_store.Documents.{device_no, bump_counter, issue}
use jenkin_sri_store.Sales.Stock.{lock_products, by_id, shortages, assert_stock, deduct_one, deduct}
use jenkin_sri_store.Sales.Ledger.{
  lock_mechanic_and_check_limit, apply_customer, apply_mechanic, log_override,
}
use jenkin_sri_store.Sales.Bill.{
  insert_sale, insert_line, insert_lines, insert_movement, insert_movements,
}
use jenkin_sri_store.Sales.Create.{
  CreateSaleResult, existing_sale, sale_hooks, new_sale, create_sale,
}
use jenkin_sri_store.Sales.Create.Acceptable.{IsAcceptable}
use jenkin_sri_store.Quotes.{
  QuoteLine, QuoteCreate, QuotePatch, QuoteOut, SaleParty, ConvertQuoteResult, sale_line,
  stamped_sale, lines_of_quote, bill_of, stored_line, lock_quote, read_quote, sale_from,
  convert_first, convert_again, create_quote, convert_quote, update_quote, to_quote,
}
use jenkin_sri_store.Quotes.Settled.{convert_quote_sells, convert_quote_settles}
use jenkin_sri_store.Quotes.Accepted.{convert_quote_accepts}
use jenkin_sri_store.Tests.Shop.{
  shop, empty, till, drawer, clerk, rows_of, answer_of, returned, returned-eq,
}

abbrev quote_line : ℕ → RowId → ℕ → ℕ → QuoteLine
quote_line n product qty price = record {
  line_no = n;
  product_id = some product;
  name = 12;
  qty = qty;
  price = price;
}

abbrev offer : QuoteCreate
offer = record {
  subtotal = 36000;
  discount = 1000;
  total = 35000;
  customer_name = none;
  customer_phone = none;
  notes = none;
  valid_days = some 7;
  items = quote_line 1 1 2 6000 ∷ (quote_line 2 2 1 24000 ∷ []);
}

abbrev buyer : RowId → SaleParty
buyer id = record {
  id = id;
  payment_method = PaymentMethod.cash;
  customer_id = none;
  customer_name = none;
  mechanic_id = none;
  mechanic_name = none;
  mechanic_delta = none;
  override_credit_limit = false;
}

-- The row of the offer.
abbrev standing : Quote
standing = record {
  quote_no = [];
  status = QuoteStatus.still_open;
  date = 4;
  valid_until = 604800000004;
  converted_at = none;
  converted_sale_id = none;
  subtotal = 36000;
  discount = 1000;
  total = 35000;
  customer_name = none;
  customer_phone = none;
  notes = none;
  valid_days = some 7;
}

abbrev offered : Db
offered = rows_of (create_quote offer 1 shop)

abbrev blank : QuoteOut
blank = record { id = 0; row = standing; is_expired = false; is_converted = false; items = [] }

-- The same quote as a row of the shop, and the shop with it.
abbrev quoted : Db
quoted = record shop {
  quotes = put 60 standing empty;
  quote_items = map (stored_line 60) offer.items;
}

abbrev after_sale : Db
after_sale = rows_of (convert_quote 60 (buyer 300) clerk quoted)

abbrev no_sale : CreateSaleResult
no_sale = record {
  id = 0;
  receipt_no = [];
  total = 0;
  points_granted = 0;
  date = 0;
  shift_id = none;
  products = [];
  items = [];
  movements = [];
  mechanic_credit_balance_after = none;
  mechanic_after = none;
  customer_after = none;
}

abbrev unsold : ConvertQuoteResult
unsold = record { sale = no_sale; quote = blank }

sale_returns : returned (convert_quote 60 (buyer 300) clerk quoted) ≡ true
unfolding convert_quote convert_first convert_again sale_from bill_of read_quote lock_quote
    lines_of_quote to_quote create_sale existing_sale new_sale sale_hooks assert_sale_totals
    totals_off computed_subtotal ◌>>=◌ require_open_shift_id_for open_drawer_of latest keep
    lock_mechanic_and_check_limit aggregate add_lines add_line sort_by insert_by sum_by
    lock_products by_id shortages assert_stock deduct deduct_one each issue device_no bump_counter
    insert_sale insert_lines insert_line insert_movements insert_movement new_id apply_customer
    apply_mechanic log_override on_commit ◌-ℤ◌ points_for ◌+ℤ◌
sale_returns = refl

sale_ran :
    convert_quote 60 (buyer 300) clerk quoted
    ≡ ok (answer_of unsold (convert_quote 60 (buyer 300) clerk quoted), after_sale)
sale_ran = returned-eq unsold (convert_quote 60 (buyer 300) clerk quoted) sale_returns

convert_quote_sells_example :
    (quoted.now ≤ standing.valid_until)
    × (quoted.sales 300 ≡ none)
    × ((x : Shift) × (open_drawer_of 1 quoted.shifts ≡ some x)
        × ((bill : Sale) × (after_sale.sales 300 ≡ some bill)
            × (bill.shift_id ≡ some x.id)
            × (bill.total ≡ 35000)
            × (bill.voided ≡ false)))
    × ((p : RowId)
        → stock_of (after_sale.products p)
            + sum_by (line_qty p) (map sale_line (lines_of_quote 60 quoted.quote_items))
          ≡ stock_of (quoted.products p))
    × (after_sale.quotes 60 ≡ some (stamped_sale 300 4 standing))
convert_quote_sells_example =
    convert_quote_sells 60 (buyer 300) clerk quoted standing refl refl sale_ran

abbrev no_patch : QuotePatch
no_patch = record { customer_name = none; customer_phone = none; notes = none }

convert_quote_settles_example :
    (convert_quote 60 (buyer 301) clerk after_sale ≡ err (quote_already_converted (some 300)))
    × (update_quote 60 no_patch after_sale ≡ err (quote_already_converted (some 300)))
convert_quote_settles_example =
    convert_quote_settles 60 (buyer 300) (buyer 301) clerk clerk no_patch quoted standing refl refl
      refl sale_ran

quoted-IsAcceptable :
    IsAcceptable (bill_of standing (lines_of_quote 60 quoted.quote_items) (buyer 300)) clerk quoted
unfolding bill_of lines_of_quote computed_subtotal sum_by open_drawer_of latest keep aggregate
    add_lines add_line sort_by insert_by points_for ◌+ℤ◌
quoted-IsAcceptable = record {
  honest = omega arith;
  deliverable = record {
    fresh = refl;
    drawer = drawer;
    drawer_open = refl;
    in_limit = λ m e row flag. ground arith;
    covered = omega arith;
    customer_known = refl;
    mechanic_known = refl;
    device = till;
    device_known = refl;
    device_active = refl;
    points_fit = refl;
    tab_fits = refl;
    lines_apart = ground arith;
    no_lines = ground arith;
    numbers_left = omega arith;
  };
}

convert_quote_accepts_example : Returns (convert_quote 60 (buyer 300) clerk) quoted
unfolding lines_of_quote keep sort_by insert_by
convert_quote_accepts_example =
    convert_quote_accepts 60 (buyer 300) clerk quoted standing refl refl (omega arith)
      (λ e. absurd (cc)) quoted-IsAcceptable
