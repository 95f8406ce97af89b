-- ===== src/Wire/Bodies.antt =====
-- The bodies of `POST /sales`, of `POST /quotes` and its conversion, of `POST /returns` and of a
-- payment off the tab (server/src/sales/sales.dto.ts, server/src/quotes/quotes.dto.ts,
-- server/src/returns/returns.dto.ts, server/src/mechanics/credit-payments.dto.ts).
use jenkin_sri_store.Prelude.{
  ℕ, ◌+◌, Bool, true, false, ◌&&◌, not, Option, none, some, List, [], ◌∷◌, ◌==◌, ltb, leb,
  if◌then◌else◌,
}
use jenkin_sri_store.Prelude.Int.{ℤ, pos}
use jenkin_sri_store.Store.{Text, PaymentMethod, RefundMethod, SettleMethod}
use jenkin_sri_store.Sales.Request.{SaleLine, CreateSale}
use jenkin_sri_store.Quotes.{SaleParty, QuoteLine, QuoteCreate}
use jenkin_sri_store.Returns.Request.{ReturnLine, CreateReturn}
use jenkin_sri_store.CreditPayments.{CreateCreditPayment}
use jenkin_sri_store.Wire.{
  Field, Json, undefined, null, integer, string, ◌>>=◌, ◌>>◌, require, is_empty, same_text,
  to_satang, to_natural, required_string, optional_string, text_keeping_empty, as_object,
  boolean_or_false, parse_items_array, parse_line_qty, each_line, or_else,
}

-- The literals of the methods, by their codes.
abbrev pub cash_text : List ℕ
cash_text = 3648 ∷ 3591 ∷ 3636 ∷ 3609 ∷ 3626 ∷ 3604 ∷ []

abbrev pub transfer_qr_text : List ℕ
transfer_qr_text = 3650 ∷ 3629 ∷ 3609 ∷ 47 ∷ 81 ∷ 82 ∷ []

abbrev pub transfer_text : List ℕ
transfer_text = 3650 ∷ 3629 ∷ 3609 ∷ []

abbrev pub mechanic_credit_text : List ℕ
mechanic_credit_text = 3648 ∷ 3588 ∷ 3619 ∷ 3604 ∷ 3636 ∷ 3605 ∷ 3594 ∷ 3656 ∷ 3634 ∷ 3591 ∷ []

abbrev pub deduct_from_credit_text : List ℕ
deduct_from_credit_text =
    3627 ∷ 3633 ∷ 3585 ∷ 3592 ∷ 3634 ∷ 3585 ∷ 3648 ∷ 3588 ∷ 3619 ∷ 3604 ∷ 3636 ∷ 3605 ∷ []

abbrev pub payment_method_of : List ℕ → Option PaymentMethod
payment_method_of s =
    if same_text s cash_text
    then some PaymentMethod.cash
    else if same_text s transfer_qr_text
    then some PaymentMethod.transfer
    else if same_text s mechanic_credit_text
    then some PaymentMethod.mechanic_credit
    else none

-- `requiredPaymentMethod` of a sale.
unfoldable pub parse_payment_method : Json → Option PaymentMethod
unfolding required_string same_text
parse_payment_method j = do s ← required_string j; payment_method_of s

abbrev pub refund_method_of : List ℕ → Option RefundMethod
refund_method_of s =
    if same_text s cash_text
    then some RefundMethod.cash
    else if same_text s transfer_text
    then some RefundMethod.transfer
    else if same_text s deduct_from_credit_text
    then some RefundMethod.deduct_from_credit
    else none

-- `requiredRefundMethod`.
unfoldable pub parse_refund_method : Json → Option RefundMethod
unfolding required_string same_text
parse_refund_method j = do s ← required_string j; refund_method_of s

abbrev pub settle_method_of : List ℕ → Option SettleMethod
settle_method_of s =
    if same_text s cash_text
    then some SettleMethod.cash
    else if same_text s transfer_qr_text
    then some SettleMethod.transfer
    else none

-- `requiredPaymentMethod` of a payment off the tab.
unfoldable pub parse_settle_method : Json → Option SettleMethod
unfolding required_string same_text
parse_settle_method j = do s ← required_string j; settle_method_of s

-- A line's own number, or its place.
unfoldable pub parse_line_no : ℕ → Json → Option ℕ
parse_line_no i undefined = some (i + 1)
parse_line_no i (integer (pos n)) = if ltb 0 n then some n else none
parse_line_no i _ = none

-- `optionalCount`.
unfoldable pub optional_count : Json → Option (Option ℕ)
optional_count undefined = some none
optional_count null = some none
optional_count (integer (pos n)) = some (some n)
optional_count _ = none

-- `parseValidDays`: a hundred years at most.
abbrev pub max_valid_days : ℕ
max_valid_days = 36500

unfoldable pub parse_valid_days : Json → Option (Option ℕ)
parse_valid_days undefined = some none
parse_valid_days null = some none
parse_valid_days (integer (pos n)) =
    if ltb 0 n then (if leb n max_valid_days then some (some n) else none) else none
parse_valid_days _ = none

-- The numbers that `seen` holds, in the loop of `parseLines`.
unfoldable pub has_number : ℕ → List SaleLine → Bool
has_number n [] = false
has_number n (l ∷ ls) = let rest = has_number n ls in if l.line_no == n then true else rest

unfoldable pub all_apart : List SaleLine → Bool
unfolding has_number
all_apart [] = true
all_apart (l ∷ ls) = not (has_number l.line_no ls) && all_apart ls

-- The satang of a fraction are the runtime's; `intern` numbers the texts of the store.
module _ (satang_of_fraction : ℕ → Option ℤ) (intern : List ℕ → Text) where
  -- `mechanicDelta`, which may be a debt.
  unfoldable pub optional_satang : Json → Option (Option ℤ)
  unfolding to_satang
  optional_satang undefined = some none
  optional_satang null = some none
  optional_satang j = do a ← to_satang satang_of_fraction j; some (some a)

  -- `parseLine` of a sale.
  unfoldable pub parse_sale_line : ℕ → Json → Option SaleLine
  unfolding as_object parse_line_qty parse_line_no required_string optional_string to_natural
  parse_sale_line i raw = do
    l ← as_object raw
    qty ← parse_line_qty (l Field.qty)
    line_no ← parse_line_no i (l Field.line_no)
    price ← to_natural satang_of_fraction (l Field.price)
    product_id ← required_string (l Field.product_id)
    part_no ← optional_string intern (l Field.part_no)
    name ← required_string (l Field.name)
    name_th ← optional_string intern (l Field.name_th)
    some (record {
      line_no = line_no;
      product_id = intern product_id;
      part_no = part_no;
      name = intern name;
      name_th = name_th;
      qty = qty;
      price = price;
    })

  -- `parseSaleParty`.
  unfoldable pub parse_sale_party : (Field → Json) → Option SaleParty
  unfolding required_string optional_string optional_satang boolean_or_false parse_payment_method
  parse_sale_party b = do
    id ← required_string (b Field.id)
    payment_method ← parse_payment_method (b Field.payment_method)
    customer_id ← optional_string intern (b Field.customer_id)
    customer_name ← optional_string intern (b Field.customer_name)
    mechanic_id ← optional_string intern (b Field.mechanic_id)
    mechanic_name ← optional_string intern (b Field.mechanic_name)
    mechanic_delta ← optional_satang (b Field.mechanic_delta)
    override ← boolean_or_false (b Field.override_credit_limit)
    some (record {
      id = intern id;
      payment_method = payment_method;
      customer_id = customer_id;
      customer_name = customer_name;
      mechanic_id = mechanic_id;
      mechanic_name = mechanic_name;
      mechanic_delta = mechanic_delta;
      override_credit_limit = override;
    })

  -- `parseCreateSale`, with `assertMoneyMakesSense` and the loop of `parseLines`.
  unfoldable pub parse_create_sale : Json → Option CreateSale
  unfolding as_object parse_items_array to_natural parse_sale_party each_line parse_sale_line
      all_apart
  parse_create_sale body = do
    b ← as_object body
    raw ← parse_items_array (b Field.items)
    subtotal ← to_natural satang_of_fraction (b Field.subtotal)
    discount ← to_natural satang_of_fraction (or_else (b Field.discount) (integer (pos 0)))
    total ← to_natural satang_of_fraction (b Field.total)
    party ← parse_sale_party b
    items ← each_line parse_sale_line 0 raw
    require (all_apart items)
    require (leb discount subtotal)
    some (record {
      id = party.id;
      subtotal = subtotal;
      discount = discount;
      total = total;
      payment_method = party.payment_method;
      customer_id = party.customer_id;
      customer_name = party.customer_name;
      mechanic_id = party.mechanic_id;
      mechanic_name = party.mechanic_name;
      mechanic_delta = party.mechanic_delta;
      override_credit_limit = party.override_credit_limit;
      items = items;
    })

  -- `parseLine` of a quote.
  unfoldable pub parse_quote_line : ℕ → Json → Option QuoteLine
  unfolding as_object parse_line_qty required_string optional_string to_natural
  parse_quote_line i raw = do
    l ← as_object raw
    qty ← parse_line_qty (l Field.qty)
    price ← to_natural satang_of_fraction (l Field.price)
    product_id ← optional_string intern (l Field.product_id)
    name ← required_string (l Field.name)
    some (record {
      line_no = i + 1;
      product_id = product_id;
      name = intern name;
      qty = qty;
      price = price;
    })

  -- `'open'`.
  abbrev open_text : List ℕ
  open_text = b'o' ∷ b'p' ∷ b'e' ∷ b'n' ∷ []

  abbrev may_be_open : Json → Bool
  may_be_open undefined = true
  may_be_open null = true
  may_be_open (string s) = same_text s open_text
  may_be_open _ = false

  -- `parseQuoteCreate`.
  unfoldable pub parse_quote_create : Json → Option QuoteCreate
  unfolding as_object parse_items_array to_natural each_line parse_quote_line text_keeping_empty
      parse_valid_days same_text
  parse_quote_create body = do
    b ← as_object body
    require (may_be_open (b Field.status))
    raw ← parse_items_array (b Field.items)
    subtotal ← to_natural satang_of_fraction (b Field.subtotal)
    discount ← to_natural satang_of_fraction (or_else (b Field.discount) (integer (pos 0)))
    total ← to_natural satang_of_fraction (b Field.total)
    customer_name ← text_keeping_empty intern (b Field.customer_name)
    customer_phone ← text_keeping_empty intern (b Field.customer_phone)
    notes ← text_keeping_empty intern (b Field.notes)
    valid_days ← parse_valid_days (b Field.valid_days)
    items ← each_line parse_quote_line 0 raw
    require (leb discount subtotal)
    some (record {
      subtotal = subtotal;
      discount = discount;
      total = total;
      customer_name = customer_name;
      customer_phone = customer_phone;
      notes = notes;
      valid_days = valid_days;
      items = items;
    })

  -- `parseLine` of a credit note.
  unfoldable pub parse_return_line : ℕ → Json → Option ReturnLine
  unfolding as_object parse_line_qty required_string to_natural optional_count
  parse_return_line i raw = do
    l ← as_object raw
    qty ← parse_line_qty (l Field.qty)
    price ← to_natural satang_of_fraction (l Field.price)
    product_id ← required_string (l Field.product_id)
    name ← required_string (l Field.name)
    original_qty ← optional_count (l Field.original_qty)
    some (record {
      product_id = intern product_id;
      name = intern name;
      qty = qty;
      price = price;
      original_qty = original_qty;
    })

-- `String(value)` of the runtime is an argument too.
module _ (satang_of_fraction : ℕ → Option ℤ) (intern : List ℕ → Text) (text_of : Json → Text) where
  abbrev reason_of : Json → Text
  reason_of undefined = intern []
  reason_of null = intern []
  reason_of j = text_of j

  -- `parseCreateReturn`.
  unfoldable pub parse_create_return : Json → Option CreateReturn
  unfolding as_object parse_items_array each_line parse_return_line required_string
      parse_refund_method
  parse_create_return body = do
    b ← as_object body
    raw ← parse_items_array (b Field.items)
    sale_id ← required_string (b Field.sale_id)
    refund_method ← parse_refund_method (b Field.refund_method)
    items ← each_line (parse_return_line satang_of_fraction intern) 0 raw
    some (record {
      sale_id = intern sale_id;
      refund_method = refund_method;
      reason = reason_of (b Field.reason);
      items = items;
    })

  -- `optionalId`: a blank id is refused.
  unfoldable pub optional_id : Json → Option (Option Text)
  unfolding required_string
  optional_id undefined = some none
  optional_id null = some none
  optional_id j = do s ← required_string j; some (some (intern s))

  abbrev note_or_null : Json → Option Text
  note_or_null undefined = none
  note_or_null null = none
  note_or_null (string s) = if is_empty s then none else some (text_of (string s))
  note_or_null j = some (text_of j)

  -- `parseCreateCreditPayment`: an amount that is absent or blank is no amount, which `to_natural`
  -- refuses too.
  unfoldable pub parse_create_credit_payment : Json → Option CreateCreditPayment
  unfolding as_object to_natural optional_id parse_settle_method boolean_or_false
  parse_create_credit_payment body = do
    b ← as_object body
    amount ← to_natural satang_of_fraction (b Field.amount)
    require (ltb 0 amount)
    id ← optional_id (b Field.id)
    payment_method ← parse_settle_method (b Field.payment_method)
    allow_overpayment ← boolean_or_false (b Field.allow_overpayment)
    some (record {
      id = id;
      amount = amount;
      payment_method = payment_method;
      note = note_or_null (b Field.note);
      allow_overpayment = allow_overpayment;
    })
