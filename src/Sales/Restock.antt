-- ===== src/Sales/Restock.antt =====
-- Goods that go back on the shelf: what a void and a credit note both do to the stock and the
-- movements (`restoreStock` of sales/void.service.ts and of returns/returns.service.ts).
pub mod Added
use jenkin_sri_store.Prelude.{
  ℕ, ◌+◌, Bool, true, false, Option, none, some, List, [], ◌∷◌, ◌++◌, ◌==◌, if◌then◌else◌,
}
use jenkin_sri_store.Prelude.Int.{pos}
use jenkin_sri_store.Store.{
  RowId, Product, Movement, MovementType, Db, Tx, ok, put, new_id, ◌>>=◌, each,
}

-- How many pieces of one product go back.
pub record Restock : Type 0 where
  pub product_id : RowId
  pub qty : ℕ

-- `GROUP BY product_id` with `sum(qty)`, and `byProduct.set(id, (byProduct.get(id) ?? 0) + qty)`: a
-- product keeps the place where it first came.
unfoldable pub add_restock : RowId → ℕ → List Restock → List Restock
add_restock id qty [] = record { product_id = id; qty = qty } ∷ []
add_restock id qty (r ∷ rs) =
    let rest = add_restock id qty rs in
    if r.product_id == id then record r { qty = r.qty + qty } ∷ rs else r ∷ rest

unfoldable pub restock_movement : RowId → MovementType → RowId → Restock → Product → ℕ → Movement
restock_movement id type ref r p now = record {
  id = id;
  product_id = r.product_id;
  part_no = p.part_no;
  name = p.name;
  delta = pos r.qty;
  type = type;
  note = none;
  stock_after = p.stock;
  ref_id = some ref;
  date = now;
}

abbrev pub restocked : ℕ → Product → Product
restocked qty p = record p { stock = p.stock + qty }

-- One round: the `UPDATE … RETURNING`, and the movement that records it. A product without a row
-- is skipped; a soft-deleted one is not.
abbrev pub restock_row : MovementType → RowId → Restock → Option Product → Tx (Option Movement)
restock_row type ref r none s = ok (none, s)
restock_row type ref r (some p) s =
    let after = restocked r.qty p in
    let row = restock_movement s.next_id type ref r after s.now in
    ok (
      some row,
      record s {
        products = put r.product_id after s.products;
        movements = s.movements ++ row ∷ [];
        next_id = s.next_id + 1;
      },
    )

unfoldable pub restock_one : MovementType → RowId → Restock → Tx (Option Movement)
unfolding restock_movement
restock_one type ref r s = restock_row type ref r (s.products r.product_id) s

unfoldable pub restock : MovementType → RowId → List Restock → Tx (List (Option Movement))
unfolding restock_one
restock type ref = each (restock_one type ref)
