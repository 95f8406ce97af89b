-- ===== src/Sales/Stock.antt =====
-- The stock of a bill: the locked read, the check that reports every short line at once, and the
-- deduction (`lockProducts`, `assertStock`, `deduct`).
pub mod Check
pub mod Deduction
pub mod Enough
use jenkin_sri_store.Prelude.{
  ℕ, ◌-◌, Bool, true, false, Option, none, some, List, [], ◌∷◌, ◌++◌, ltb, leb, ◌==◌, if◌then◌else◌,
}
use jenkin_sri_store.Store.{
  Text, RowId, Product, Table, put, Db, Tx, ok, err, pure, throw, each, StockLine,
  insufficient_stock, stock_underflow,
}
use jenkin_sri_store.Sales.Request.{Demand}

pub record LockedProduct : Type 0 where
  pub id : RowId
  pub row : Product

-- `WHERE id = … AND deleted_at IS NULL`.
abbrev pub live : Option Product → Option Product
live none = none
live (some p) = if p.deleted then none else some p

abbrev pub locked_row : RowId → Option Product → List LockedProduct → List LockedProduct
locked_row id none rest = rest
locked_row id (some p) rest = record { id = id; row = p } ∷ rest

-- `lockProducts`. The order in which the rows are locked prevents deadlock and shows in no result,
-- since every reader goes by id.
unfoldable pub lock_products : List Demand → Table Product → List LockedProduct
lock_products [] products = []
lock_products (d ∷ ds) products =
    locked_row d.product_id (live (products d.product_id)) (lock_products ds products)

-- `new Map(locked.map((p) => [p.id, p]))`.
unfoldable pub by_id : RowId → List LockedProduct → Option Product
by_id id [] = none
by_id id (p ∷ ps) = if p.id == id then some p.row else by_id id ps

-- The line that one demand adds to the refusal, if it cannot be met.
abbrev pub shortage : Demand → Option Product → List StockLine
shortage d none = record { product_id = d.product_id; stock = none; requested = d.qty } ∷ []
shortage d (some p) =
    if ltb p.stock d.qty
    then record { product_id = d.product_id; stock = some p.stock; requested = d.qty } ∷ []
    else []

unfoldable pub shortages : List Demand → List LockedProduct → List StockLine
shortages [] locked = []
shortages (d ∷ ds) locked = shortage d (by_id d.product_id locked) ++ shortages ds locked

abbrev pub refuse_short : List StockLine → Tx (Unit {0})
refuse_short [] = pure tt
refuse_short (line ∷ lines) = throw (insufficient_stock (line ∷ lines))

-- `assertStock`.
unfoldable pub assert_stock : List Demand → List LockedProduct → Tx (Unit {0})
assert_stock ds locked = refuse_short (shortages ds locked)

-- One round of `deduct`: the `UPDATE … WHERE stock >= $3` of one product.
abbrev pub deduct_row : Demand → Option Product → Tx (RowId × ℕ)
deduct_row d none s = err (stock_underflow d.product_id)
deduct_row d (some p) s =
    if leb d.qty p.stock
    then ok (
      (d.product_id, p.stock - d.qty),
      record s { products = put d.product_id (record p { stock = p.stock - d.qty }) s.products },
    )
    else err (stock_underflow d.product_id)

unfoldable pub deduct_one : Demand → Tx (RowId × ℕ)
deduct_one d s = deduct_row d (s.products d.product_id) s

-- `deduct`: the stock that is left of each product, in the order of the demands.
unfoldable pub deduct : List Demand → Tx (List (RowId × ℕ))
unfolding deduct_one
deduct = each deduct_one
