-- ===== src/Sales/Request.antt =====
-- A validated `POST /sales` body, the demand for each product on it, and the check of its
-- arithmetic (sales.dto.ts, and `aggregate` and `assertSaleTotals` of sales.service.ts).
pub mod Demands
pub mod Totals
use jenkin_sri_store.Prelude.{
  ℕ, suc, ◌+◌, ◌*◌, ◌/◌, Bool, ◌||◌, Option, List, [], ◌∷◌, ltb, leb, ◌==◌, if◌then◌else◌, sum_by,
  sort_by,
}
use jenkin_sri_store.Prelude.Int.{ℤ, pos, sub_ℕ, ◌-ℤ◌, abs}
use jenkin_sri_store.Store.{Text, RowId, PaymentMethod, Tx, throw_if, total_mismatch}

pub record SaleLine : Type 0 where
  pub line_no : ℕ
  pub product_id : RowId
  pub part_no : Option Text
  pub name : Text
  pub name_th : Option Text
  pub qty : ℕ
  pub price : ℕ

-- Money has passed `assertMoneyMakesSense` and `parseLinePrice`, so only the delta has a sign.
pub record CreateSale : Type 0 where
  pub id : RowId
  pub subtotal : ℕ
  pub discount : ℕ
  pub total : ℕ
  pub payment_method : PaymentMethod
  pub customer_id : Option RowId
  pub customer_name : Option Text
  pub mechanic_id : Option RowId
  pub mechanic_name : Option Text
  pub mechanic_delta : Option ℤ
  pub override_credit_limit : Bool
  pub items : List SaleLine

pub record Demand : Type 0 where
  pub product_id : RowId
  pub qty : ℕ
  pub requested_name : Text
  pub first_line_index : ℕ

-- One round of `aggregate`: the map by product keeps the order in which keys came.
unfoldable pub add_line : ℕ → SaleLine → List Demand → List Demand
add_line i line [] =
    record {
      product_id = line.product_id;
      qty = line.qty;
      requested_name = line.name;
      first_line_index = i;
    }
    ∷ []
add_line i line (d ∷ ds) =
    if d.product_id == line.product_id
    then record d { qty = d.qty + line.qty } ∷ ds
    else d ∷ add_line i line ds

unfoldable pub add_lines : ℕ → List SaleLine → List Demand → List Demand
unfolding add_line
add_lines i [] ds = ds
add_lines i (line ∷ lines) ds = add_lines (suc i) lines (add_line i line ds)

unfoldable pub aggregate : List SaleLine → List Demand
unfolding add_lines
aggregate items = sort_by (λ a b. leb a.first_line_index b.first_line_index) (add_lines 0 items [])

-- `TOTAL_TOLERANCE_SATANG`.
abbrev pub total_tolerance : ℕ
total_tolerance = 1

-- The lines' own sum, `computedSubtotal`.
unfoldable pub computed_subtotal : List SaleLine → ℕ
unfolding sum_by
computed_subtotal items = sum_by (λ line. line.qty * line.price) items

-- `assertSaleTotals`.
unfoldable pub totals_off : List SaleLine → ℕ → ℕ → ℕ → Bool
unfolding computed_subtotal ◌-ℤ◌
totals_off items subtotal discount total =
    let computed_total = sub_ℕ (computed_subtotal items) discount in
    ltb total_tolerance (abs (sub_ℕ (computed_subtotal items) subtotal))
    || ltb total_tolerance (abs (computed_total -ℤ pos total))

unfoldable pub assert_sale_totals : CreateSale → Tx (Unit {0})
unfolding totals_off
assert_sale_totals dto = throw_if (totals_off dto.items dto.subtotal dto.discount dto.total) (
    total_mismatch (computed_subtotal dto.items) (sub_ℕ (computed_subtotal dto.items) dto.discount))
