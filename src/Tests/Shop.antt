-- ===== src/Tests/Shop.antt =====
-- A shop with two products, one customer, one mechanic and one machine, whose drawer is open; a
-- bill on the mechanic's tab, and a credit note for a part of it.
use jenkin_sri_store.Prelude.{◌≡◌, refl, ℕ, Bool, true, false, none, some, [], ◌∷◌}
use jenkin_sri_store.Prelude.Int.{pos, negsuc}
use jenkin_sri_store.Store.{
  RowId, PaymentMethod, RefundMethod, Product, Mechanic, Shift, Device, DeviceRole, Table, put, Db,
  Result, ok, err,
}
use jenkin_sri_store.Shifts.{Actor}
use jenkin_sri_store.Sales.Request.{SaleLine, CreateSale}
use jenkin_sri_store.Sales.Void.{AuthorisedVoid}
use jenkin_sri_store.Returns.Request.{ReturnLine, CreateReturn}

abbrev pub empty : {V : Type 0} → Table V
empty k = none

abbrev pub bolt : Product
bolt = record { part_no = 11; name = 12; cost = 5000; stock = 10; deleted = false }

abbrev pub chain : Product
chain = record { part_no = 21; name = 22; cost = 20000; stock = 4; deleted = false }

abbrev pub garage : Mechanic
garage = record {
  credit_limit = pos 200000;
  credit_balance = 30000;
  total_sales = pos 30000;
  total_credit = pos 0;
  total_discount = pos 0;
  total_markup = pos 0;
}

abbrev pub drawer : Shift
drawer = record {
  id = 7;
  date_str = 20;
  starting_cash = 100000;
  opened_at = 3;
  closed_at = none;
  physical_cash = none;
  is_active = true;
  auto_archived = false;
  archived_at = none;
  opened_by = some 1;
  device_id = 1;
}

abbrev pub till : Device
till = record {
  device_no = 1;
  label = 14;
  role = DeviceRole.pos;
  enrol_code_hash = none;
  retired = false;
}

abbrev pub shop : Db
shop = record {
  products = put 1 bolt (put 2 chain empty);
  product_ids = 1 ∷ (2 ∷ []);
  customers = put 1 (record { points = 5; total_spend = pos 50000 }) empty;
  mechanics = put 1 garage empty;
  devices = put 1 till empty;
  device_ids = 1 ∷ [];
  sales = empty;
  sale_items = [];
  returns = [];
  return_items = [];
  movements = [];
  shifts = drawer ∷ [];
  drawer_entries = [];
  audit_log = [];
  purchase_orders = empty;
  po_items = [];
  credit_payments = empty;
  quotes = empty;
  quote_items = [];
  doc_counters = λ d t y m. none;
  now = 4;
  today = 20;
  local_year = 2026;
  local_month = 9;
  next_id = 500;
  hooks = [];
}

abbrev pub clerk : Actor
clerk = record { user_id = 1; device_id = 1 }

abbrev pub line : ℕ → RowId → ℕ → ℕ → SaleLine
line n product qty price = record {
  line_no = n;
  product_id = product;
  part_no = none;
  name = 12;
  name_th = none;
  qty = qty;
  price = price;
}

-- Two bolts, a chain, and a bolt more at another price: 410.00 less 10.00.
abbrev pub bill : CreateSale
bill = record {
  id = 100;
  subtotal = 41000;
  discount = 1000;
  total = 40000;
  payment_method = PaymentMethod.mechanic_credit;
  customer_id = some 1;
  customer_name = none;
  mechanic_id = some 1;
  mechanic_name = none;
  mechanic_delta = some (negsuc 499);
  override_credit_limit = false;
  items = line 1 1 2 6000 ∷ (line 2 2 1 24000 ∷ (line 3 1 1 5000 ∷ []));
}

abbrev pub note_line : RowId → ℕ → ℕ → ReturnLine
note_line product qty price = record {
  product_id = product;
  name = 12;
  qty = qty;
  price = price;
  original_qty = none;
}

abbrev pub credit_note : CreateReturn
credit_note = record {
  sale_id = 100;
  refund_method = RefundMethod.deduct_from_credit;
  reason = 1;
  items = note_line 1 1 6000 ∷ (note_line 1 1 5000 ∷ []);
}

abbrev pub approved : AuthorisedVoid
approved = record { actor = clerk; sale_id = 100 }

-- The rows and the answer of a call that returned.
abbrev pub rows_of : {A : Type 0} → Result (A × Db) → Db
rows_of (ok (a, t)) = t
rows_of (err e) = shop

abbrev pub answer_of : {A : Type 0} → A → Result (A × Db) → A
answer_of d (ok (a, t)) = a
answer_of d (err e) = d

abbrev pub returned : {A : Type 0} → Result (A × Db) → Bool
returned (ok x) = true
returned (err e) = false

-- A call that returned is the answer with the rows.
pub returned-eq :
    {A : Type 0} (d : A) (r : Result (A × Db))
    → returned r ≡ true
    → r ≡ ok (answer_of d r, rows_of r)
returned-eq d (ok (a, t)) h = refl
returned-eq d (err e) h = cc
