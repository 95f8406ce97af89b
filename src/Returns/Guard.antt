-- ===== src/Returns/Guard.antt =====
-- What a bill sold, what has come back, and the two guards on a credit note (`lockSale`,
-- `soldLines`, `refundedSoFar`, `assertRefundable`).
pub mod Within
use jenkin_sri_store.Prelude.{
  ℕ, Bool, true, false, Option, none, some, List, [], ◌∷◌, ◌++◌, ◌==◌, ◌&&◌, not, if◌then◌else◌,
  leb, keep, sort_by, sum_by, map,
}
use jenkin_sri_store.Prelude.Int.{ℤ, pos, sub_ℕ, ltb_ℤ, leb_ℤ}
use jenkin_sri_store.Store.{
  RowId, Sale, SaleItem, ReturnItem, Db, Tx, ok, err, pure, throw, throw_if, gets, or_throw, ◌>>=◌,
  ◌>>◌, PriceLine, RefundLine, sale_not_found, sale_voided, return_price_mismatch, over_refund,
}
use jenkin_sri_store.Returns.Request.{Demand, same_key}

-- `lockSale`.
unfoldable pub lock_sale : RowId → Tx Sale
lock_sale id = do
  row ← gets (λ s. s.sales id)
  sale ← or_throw row sale_not_found
  throw_if sale.voided sale_voided
  pure sale

-- The bill's lines, in their order; the maps of `Sold` are read off them.
unfoldable pub sold_lines : RowId → List SaleItem → List SaleItem
sold_lines id items = sort_by (λ a b. leb a.line_no b.line_no) (keep (λ i. i.sale_id == id) items)

abbrev pub sold_of : RowId → SaleItem → ℕ
sold_of p i = if i.product_id == p then i.qty else 0

abbrev pub sold_for : RowId → ℕ → SaleItem → ℕ
sold_for p c i = if same_key i.product_id i.price p c then i.qty else 0

-- `qtyByProduct.get(id) ?? 0`.
abbrev pub sold_qty : RowId → List SaleItem → ℕ
sold_qty p = sum_by (sold_of p)

-- `qtyByProduct.has(id)`.
unfoldable pub sells : RowId → List SaleItem → Bool
sells p [] = false
sells p (i ∷ is) = if i.product_id == p then true else sells p is

-- `byPrice.get(key)?.qty`, and `?.costAtSale`: the cost is the first such line's.
abbrev pub found_at : RowId → ℕ → SaleItem → Option (Option ℕ) → Option (Option ℕ)
found_at p c i rest = if same_key i.product_id i.price p c then some i.cost_at_sale else rest

unfoldable pub cost_at : RowId → ℕ → List SaleItem → Option (Option ℕ)
cost_at p c [] = none
cost_at p c (i ∷ is) = found_at p c i (cost_at p c is)

abbrev pub qty_of : Option (Option ℕ) → ℕ → Option ℕ
qty_of none n = none
qty_of (some cost) n = some n

abbrev pub sold_at : RowId → ℕ → List SaleItem → Option ℕ
sold_at p c sold = qty_of (cost_at p c sold) (sum_by (sold_for p c) sold)

-- `pricesByProduct.get(id) ?? []`: each price once, in order.
unfoldable pub add_price : ℕ → List ℕ → List ℕ
add_price c [] = c ∷ []
add_price c (d ∷ ds) = if c == d then d ∷ ds else d ∷ add_price c ds

unfoldable pub sold_prices : RowId → List SaleItem → List ℕ
unfolding add_price
sold_prices p [] = []
sold_prices p (i ∷ is) =
    if i.product_id == p then add_price i.price (sold_prices p is) else sold_prices p is

-- `refundedSoFar`: the lines of the bill's credit notes, whose sums are `byProduct` and `byPrice`.
unfoldable pub refunded_lines : RowId → List ReturnItem → List ReturnItem
refunded_lines id items = keep (λ i. i.sale_id == id) items

abbrev pub back_of : RowId → ReturnItem → ℕ
back_of p i = if i.product_id == p then i.qty else 0

abbrev pub back_for : RowId → ℕ → ReturnItem → ℕ
back_for p c i = if same_key i.product_id i.price p c then i.qty else 0

abbrev pub min_ℤ : ℤ → ℤ → ℤ
min_ℤ a b = if leb_ℤ a b then a else b

-- The least of what is left at the price, and of the product over all.
abbrev pub remaining : Demand → ℕ → List SaleItem → List ReturnItem → ℤ
remaining d sold_here sold refunded =
    min_ℤ (sub_ℕ sold_here (sum_by (back_for d.product_id d.price) refunded))
      (sub_ℕ (sold_qty d.product_id sold) (sum_by (back_of d.product_id) refunded))

abbrev pub is_some_price : Option ℕ → Bool
is_some_price none = false
is_some_price (some n) = true

-- The lines of the two refusals.
unfoldable pub mispriced : List Demand → List SaleItem → List PriceLine
unfolding sells cost_at sold_prices
mispriced [] sold = []
mispriced (d ∷ ds) sold =
    if sells d.product_id sold && not (is_some_price (sold_at d.product_id d.price sold))
    then record {
      product_id = d.product_id;
      price = d.price;
      sold_at = sort_by leb (sold_prices d.product_id sold);
    }
      ∷ mispriced ds sold
    else mispriced ds sold

abbrev pub over_line : Demand → Option ℕ → List SaleItem → List ReturnItem → List RefundLine
over_line d none sold refunded =
    record { name = d.requested_name; remaining = none; requested = d.qty } ∷ []
over_line d (some here) sold refunded =
    let room = remaining d here sold refunded in
    if ltb_ℤ room (pos d.qty)
    then record { name = d.requested_name; remaining = some room; requested = d.qty } ∷ []
    else []

unfoldable pub over_lines : List Demand → List SaleItem → List ReturnItem → List RefundLine
unfolding cost_at
over_lines [] sold refunded = []
over_lines (d ∷ ds) sold refunded =
    over_line d (sold_at d.product_id d.price sold) sold refunded ++ over_lines ds sold refunded

abbrev pub refuse_prices : List PriceLine → Tx (Unit {0})
refuse_prices [] = pure tt
refuse_prices (l ∷ ls) = throw (return_price_mismatch (l ∷ ls))

abbrev pub refuse_over : List RefundLine → Tx (Unit {0})
refuse_over [] = pure tt
refuse_over (l ∷ ls) = throw (over_refund (l ∷ ls))

-- `assertRefundable`: price before quantity.
unfoldable pub assert_refundable : List Demand → List SaleItem → List ReturnItem → Tx (Unit {0})
unfolding mispriced over_lines
assert_refundable demands sold refunded = do
  refuse_prices (mispriced demands sold)
  refuse_over (over_lines demands sold refunded)
