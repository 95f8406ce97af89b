-- ===== src/Returns/Request.antt =====
-- The body of `POST /returns` (returns.dto.ts) and its demands, one for each product and price.
use jenkin_sri_store.Prelude.{
  ℕ, suc, ◌+◌, Bool, Option, List, [], ◌∷◌, ◌==◌, ◌&&◌, if◌then◌else◌, leb, sort_by,
}
use jenkin_sri_store.Store.{Text, RowId, RefundMethod}

pub record ReturnLine : Type 0 where
  pub product_id : RowId
  pub name : Text
  pub qty : ℕ
  pub price : ℕ
  pub original_qty : Option ℕ

pub record CreateReturn : Type 0 where
  pub sale_id : RowId
  pub refund_method : RefundMethod
  pub reason : Text
  pub items : List ReturnLine

-- How much of one product, at one price, the credit note takes back.
pub record Demand : Type 0 where
  pub product_id : RowId
  pub qty : ℕ
  pub price : ℕ
  pub original_qty : Option ℕ
  pub requested_name : Text
  pub first_line_index : ℕ

-- Two `priceKey`s are equal: the separator is in no product id.
abbrev pub same_key : RowId → ℕ → RowId → ℕ → Bool
same_key p c q d = (p == q) && (c == d)

abbrev demand_of : ℕ → ReturnLine → Demand
demand_of i line = record {
  product_id = line.product_id;
  qty = line.qty;
  price = line.price;
  original_qty = line.original_qty;
  requested_name = line.name;
  first_line_index = i;
}

-- One round of the loop of `aggregate`.
unfoldable pub add_line : ℕ → ReturnLine → List Demand → List Demand
add_line i line [] = demand_of i line ∷ []
add_line i line (d ∷ ds) =
    let rest = add_line i line ds in
    if same_key d.product_id d.price line.product_id line.price
    then record d { qty = d.qty + line.qty } ∷ ds
    else d ∷ rest

unfoldable pub add_lines : ℕ → List ReturnLine → List Demand → List Demand
unfolding add_line
add_lines i [] ds = ds
add_lines i (line ∷ lines) ds = add_lines (suc i) lines (add_line i line ds)

-- `aggregate`.
unfoldable pub aggregate : List ReturnLine → List Demand
unfolding add_lines
aggregate items = sort_by (λ a b. leb a.first_line_index b.first_line_index) (add_lines 0 items [])
