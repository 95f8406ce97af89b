-- ===== src/Tests/Wire.antt =====
-- Bodies as they come over the wire.
use jenkin_sri_store.Prelude.{
  ℕ, ◌≤◌, ◌<◌, ◌≡◌, refl, arith, false, Option, none, some, List, [], ◌∷◌, ◌==◌, length, keep, All,
}
use jenkin_sri_store.Prelude.Int.{ℤ, pos, negsuc}
use jenkin_sri_store.Prelude.Decimal.{digits, pad_start}
use jenkin_sri_store.Store.{Text, PaymentMethod, RefundMethod}
use jenkin_sri_store.Sales.Request.{SaleLine, CreateSale}
use jenkin_sri_store.Quotes.{QuoteLine, QuoteCreate}
use jenkin_sri_store.Returns.Request.{CreateReturn}
use jenkin_sri_store.Wire.{
  Field, Json, end, item, undefined, integer, string, array, object, ◌>>=◌, from_satang, to_satang,
  to_natural, parse_amount, signed, unsigned, units, trim, trim_start, trim_end, same_text,
  required_string, optional_string, text_keeping_empty, as_object, boolean_or_false, entries,
  parse_items_array, parse_line_qty, each_line,
}
use jenkin_sri_store.Wire.Amounts.{to_satang-from_satang}
use jenkin_sri_store.Wire.Bodies.{
  cash_text, parse_payment_method, parse_refund_method, parse_line_no, optional_count,
  parse_valid_days, has_number, all_apart, optional_satang, parse_sale_line, parse_sale_party,
  parse_create_sale, parse_quote_line, parse_quote_create, parse_return_line, parse_create_return,
  max_valid_days,
}
use jenkin_sri_store.Wire.Accepted.{
  Priced, Coherent, parse_create_sale_bounds, parse_quote_create_bounds,
}

-- No fraction is an amount here, and a text is known by its length.
abbrev no_fraction : ℕ → Option ℤ
no_fraction k = none

abbrev by_length : List ℕ → Text
by_length s = length s

abbrev unread : Json → Text
unread j = 0

-- -12.05 baht.
debt_text : from_satang (negsuc 1204) ≡ b'-' ∷ b'1' ∷ b'2' ∷ b'.' ∷ b'0' ∷ b'5' ∷ []
unfolding from_satang digits pad_start
debt_text = refl

to_satang-from_satang_example :
    to_satang no_fraction (string (from_satang (negsuc 1204))) ≡ some (negsuc 1204)
to_satang-from_satang_example = to_satang-from_satang no_fraction (negsuc 1204) (omega arith)

-- "60.50"
abbrev amount_text : List ℕ
amount_text = b'6' ∷ b'0' ∷ b'.' ∷ b'5' ∷ []

abbrev line_field : Field → Json
line_field Field.product_id = string (b'p' ∷ b'1' ∷ [])
line_field Field.name = string (b'b' ∷ [])
line_field Field.qty = integer (pos 2)
line_field Field.price = string amount_text
line_field _ = undefined

abbrev body_field : Field → Json
body_field Field.id = string (b's' ∷ b'1' ∷ [])
body_field Field.sale_id = string (b's' ∷ b'1' ∷ [])
body_field Field.items = array (item (object line_field) end)
body_field Field.subtotal = integer (pos 121)
body_field Field.total = integer (pos 121)
body_field Field.payment_method = string cash_text
body_field Field.refund_method = string cash_text
body_field Field.valid_days = integer (pos 7)
body_field _ = undefined

abbrev body : Json
body = object body_field

abbrev read_sale : CreateSale
read_sale = record {
  id = 2;
  subtotal = 12100;
  discount = 0;
  total = 12100;
  payment_method = PaymentMethod.cash;
  customer_id = none;
  customer_name = none;
  mechanic_id = none;
  mechanic_name = none;
  mechanic_delta = none;
  override_credit_limit = false;
  items =
      record {
        line_no = 1;
        product_id = 2;
        part_no = none;
        name = 1;
        name_th = none;
        qty = 2;
        price = 6050;
      }
      ∷ [];
}

sale_read : parse_create_sale no_fraction by_length body ≡ some read_sale
unfolding parse_create_sale parse_sale_party parse_sale_line parse_payment_method optional_satang
    parse_line_no all_apart has_number ◌>>=◌ to_natural to_satang parse_amount signed unsigned units
    trim trim_start trim_end same_text required_string optional_string as_object boolean_or_false
    entries parse_items_array parse_line_qty each_line
sale_read = refl

parse_create_sale_bounds_example :
    Coherent 12100 0 12100 1
    × All (λ (l : SaleLine). Priced l.qty l.price × (0 < l.line_no)) read_sale.items
    × ((n : ℕ) → length (keep (λ (l : SaleLine). l.line_no == n) read_sale.items) ≤ 1)
parse_create_sale_bounds_example =
    parse_create_sale_bounds no_fraction by_length body read_sale sale_read

abbrev read_quote : QuoteCreate
read_quote = record {
  subtotal = 12100;
  discount = 0;
  total = 12100;
  customer_name = none;
  customer_phone = none;
  notes = none;
  valid_days = some 7;
  items = record { line_no = 1; product_id = some 2; name = 1; qty = 2; price = 6050 } ∷ [];
}

quote_read : parse_quote_create no_fraction by_length body ≡ some read_quote
unfolding parse_quote_create parse_quote_line parse_valid_days text_keeping_empty ◌>>=◌ to_natural
    to_satang parse_amount signed unsigned units trim trim_start trim_end same_text required_string
    optional_string as_object entries parse_items_array parse_line_qty each_line
quote_read = refl

parse_quote_create_bounds_example :
    Coherent 12100 0 12100 1
    × All (λ (l : QuoteLine). Priced l.qty l.price) read_quote.items
    × ((n : ℕ) → read_quote.valid_days ≡ some n → (0 < n) × (n ≤ max_valid_days))
parse_quote_create_bounds_example =
    parse_quote_create_bounds no_fraction by_length body read_quote quote_read

abbrev read_return : CreateReturn
read_return = record {
  sale_id = 2;
  refund_method = RefundMethod.cash;
  reason = 0;
  items = record { product_id = 2; name = 1; qty = 2; price = 6050; original_qty = none } ∷ [];
}

return_read : parse_create_return no_fraction by_length unread body ≡ some read_return
unfolding parse_create_return parse_return_line parse_refund_method optional_count ◌>>=◌ to_natural
    to_satang parse_amount signed unsigned units trim trim_start trim_end same_text required_string
    as_object entries parse_items_array parse_line_qty each_line
return_read = refl
