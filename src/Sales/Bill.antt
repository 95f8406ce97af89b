-- ===== src/Sales/Bill.antt =====
-- The rows that a sale inserts: the header, the lines and the movements (`insertSale`,
-- `insertLines`, `insertMovements`).
pub mod Rows
use jenkin_sri_store.Prelude.{
  ℕ, ◌-◌, Bool, true, false, Option, none, some, List, [], ◌∷◌, ◌++◌, leb, ◌==◌, ◌&&◌, ◌||◌, not,
  if◌then◌else◌, sort_by,
}
use jenkin_sri_store.Prelude.Int.{ℤ, neg}
use jenkin_sri_store.Store.{
  Text, RowId, Product, Sale, SaleItem, Movement, MovementType, Table, put, is_some, is_none, Db,
  Tx, Result, ok, err, pure, gets, or_throw, throw_if, modify, new_id, each, ◌>>=◌, ◌>>◌,
  sale_id_reused, unknown_reference, internal,
}
use jenkin_sri_store.Shifts.{Actor}
use jenkin_sri_store.Sales.Request.{SaleLine, CreateSale, Demand}
use jenkin_sri_store.Sales.Stock.{LockedProduct, by_id}

pub record SaleLineOut : Type 0 where
  pub line_no : ℕ
  pub product_id : RowId
  pub cost_at_sale : Option ℕ

-- A foreign key that may be null.
abbrev pub refers : {V : Type 0} → Option RowId → Table V → Bool
refers none t = true
refers (some id) t = is_some (t id)

unfoldable pub sale_row : CreateSale → Actor → List ℕ → ℕ → RowId → ℕ → Sale
sale_row dto actor receipt_no points_granted shift_id date = record {
  receipt_no = receipt_no;
  subtotal = dto.subtotal;
  discount = dto.discount;
  total = dto.total;
  payment_method = dto.payment_method;
  customer_id = dto.customer_id;
  customer_name = dto.customer_name;
  mechanic_id = dto.mechanic_id;
  mechanic_name = dto.mechanic_name;
  mechanic_delta = dto.mechanic_delta;
  points_granted = points_granted;
  user_id = actor.user_id;
  device_id = actor.device_id;
  shift_id = some shift_id;
  date = date;
  voided = false;
  voided_at = none;
}

-- `insertSale` with `mapConstraintErrors`: the primary key, and the two foreign keys.
unfoldable pub insert_sale : CreateSale → Actor → List ℕ → ℕ → RowId → Tx ℕ
unfolding sale_row
insert_sale dto actor receipt_no points_granted shift_id s =
    if is_some (s.sales dto.id)
    then err sale_id_reused
    else (if not (refers dto.customer_id s.customers) || not (refers dto.mechanic_id s.mechanics)
        then err unknown_reference
        else ok (
          s.now,
          record s {
            sales =
                put dto.id (sale_row dto actor receipt_no points_granted shift_id s.now) s.sales;
          },
        ))

-- `line.partNo ?? byId.get(line.productId)?.part_no`.
abbrev pub part_no_of : Option Text → Product → Option Text
part_no_of none p = some p.part_no
part_no_of (some part_no) p = some part_no

unfoldable pub item_row : RowId → SaleLine → Product → SaleItem
item_row sale_id line p = record {
  sale_id = sale_id;
  line_no = line.line_no;
  product_id = line.product_id;
  part_no = part_no_of line.part_no p;
  name = line.name;
  name_th = line.name_th;
  qty = line.qty;
  price = line.price;
  cost_at_sale = some p.cost;
}

-- The primary key of the lines: a number that the bill has already is an error that no handler
-- maps.
abbrev pub has_line : RowId → ℕ → List SaleItem → Bool
has_line sale_id line_no [] = false
has_line sale_id line_no (i ∷ is) =
    ((i.sale_id == sale_id) && (i.line_no == line_no)) || has_line sale_id line_no is

abbrev pub assert_new_line : RowId → ℕ → Tx (Unit {0})
assert_new_line sale_id line_no s = throw_if (has_line sale_id line_no s.sale_items) internal s

-- One round of `insertLines`: the cost is the locked row's, never the client's.
unfoldable pub insert_line : RowId → List LockedProduct → SaleLine → Tx SaleLineOut
unfolding item_row
insert_line sale_id locked line = do
  p ← or_throw (by_id line.product_id locked) internal
  assert_new_line sale_id line.line_no
  modify (λ s. record s { sale_items = s.sale_items ++ item_row sale_id line p ∷ [] })
  pure (record { line_no = line.line_no; product_id = line.product_id; cost_at_sale = some p.cost })

-- A stored line as it is answered.
abbrev pub line_out : SaleItem → SaleLineOut
line_out i = record {
  line_no = i.line_no;
  product_id = i.product_id;
  cost_at_sale = i.cost_at_sale;
}

abbrev pub by_line_no : List SaleLineOut → List SaleLineOut
by_line_no = sort_by (λ a b. leb a.line_no b.line_no)

unfoldable pub insert_lines : CreateSale → List LockedProduct → Tx (List SaleLineOut)
unfolding insert_line
insert_lines dto locked = do out ← each (insert_line dto.id locked) dto.items; pure (by_line_no out)

-- `Map.get`.
abbrev pub value_of : RowId → List (RowId × ℕ) → Option ℕ
value_of id [] = none
value_of id ((k, v) ∷ m) = if k == id then some v else value_of id m

unfoldable pub sale_movement : RowId → RowId → Demand → Product → ℕ → ℕ → Movement
sale_movement id sale_id d p stock_after now = record {
  id = id;
  product_id = d.product_id;
  part_no = p.part_no;
  name = p.name;
  delta = neg d.qty;
  type = MovementType.sale;
  note = none;
  stock_after = stock_after;
  ref_id = some sale_id;
  date = now;
}

-- One round of `insertMovements`.
unfoldable pub insert_movement :
    RowId → List LockedProduct → List (RowId × ℕ) → Demand → Tx Movement
unfolding sale_movement new_id
insert_movement sale_id locked stock_after d = do
  p ← or_throw (by_id d.product_id locked) internal
  after ← or_throw (value_of d.product_id stock_after) internal
  id ← new_id
  now ← gets (λ s. s.now)
  let row : Movement = sale_movement id sale_id d p after now
  modify (λ s. record s { movements = s.movements ++ row ∷ [] })
  pure row

unfoldable pub insert_movements :
    RowId → List Demand → List LockedProduct → List (RowId × ℕ) → Tx (List Movement)
unfolding insert_movement
insert_movements sale_id ds locked stock_after =
    each (insert_movement sale_id locked stock_after) ds
