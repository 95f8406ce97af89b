-- ===== src/Sales/Create.antt =====
-- `SalesService.createIn`: the replay of a bill that was already written, and the sale itself.
pub mod Written
pub mod Acceptable
pub mod Accepted
pub mod Stocktake
pub mod Replay
use jenkin_sri_store.Prelude.{
  ℕ, Bool, true, false, Option, none, some, List, [], ◌∷◌, ◌==◌, ◌&&◌, if◌then◌else◌, map, keep,
  sort_by, leb,
}
use jenkin_sri_store.Store.{
  RowId, Product, Sale, SaleItem, Movement, MovementType, DocType, Hook, CacheName, Table, Db, Tx,
  ok, err, pure, throw, gets, on_commit, is_some, ◌>>=◌, ◌>>◌, sale_id_reused, sale_voided,
}
use jenkin_sri_store.Money.{points_for}
use jenkin_sri_store.Documents.{issue}
use jenkin_sri_store.Shifts.{Actor, require_open_shift_id_for}
use jenkin_sri_store.Sales.Request.{SaleLine, CreateSale, Demand, aggregate, assert_sale_totals}
use jenkin_sri_store.Sales.Stock.{LockedProduct, lock_products, assert_stock, deduct}
use jenkin_sri_store.Sales.Ledger.{
  CustomerAfter, MechanicAfter, customer_after, mechanic_after, lock_mechanic_and_check_limit,
  apply_customer, apply_mechanic, log_override,
}
use jenkin_sri_store.Sales.Bill.{
  SaleLineOut, line_out, insert_sale, insert_lines, insert_movements, by_line_no,
}

pub record CreateSaleResult : Type 0 where
  pub id : RowId
  pub receipt_no : List ℕ
  pub total : ℕ
  pub points_granted : ℕ
  pub date : ℕ
  pub shift_id : Option RowId
  pub products : List (RowId × ℕ)
  pub items : List SaleLineOut
  pub movements : List Movement
  pub mechanic_credit_balance_after : Option ℕ
  pub mechanic_after : Option MechanicAfter
  pub customer_after : Option CustomerAfter

abbrev pub balance_of : Option MechanicAfter → Option ℕ
balance_of none = none
balance_of (some m) = some m.credit_balance

-- The stock of each demanded product that has a row, as it stands now.
abbrev stock_entry : Demand → Option Product → List (RowId × ℕ) → List (RowId × ℕ)
stock_entry d none rest = rest
stock_entry d (some p) rest = (d.product_id, p.stock) ∷ rest

unfoldable pub stock_now : List Demand → Table Product → List (RowId × ℕ)
stock_now [] products = []
stock_now (d ∷ ds) products = stock_entry d (products d.product_id) (stock_now ds products)

-- The lines of the bill, as stored and in the order of their numbers.
unfoldable pub stored_lines : RowId → List SaleItem → List SaleLineOut
stored_lines id items = by_line_no (map line_out (keep (λ i. i.sale_id == id) items))

-- `WHERE type = 'sale' AND ref_id = $2`.
abbrev pub is_sale_type : MovementType → Bool
is_sale_type MovementType.sale = true
is_sale_type _ = false

abbrev pub refers_to : RowId → Option RowId → Bool
refers_to id none = false
refers_to id (some ref) = ref == id

abbrev pub is_sale_movement : RowId → Movement → Bool
is_sale_movement id m = is_sale_type m.type && refers_to id m.ref_id

-- `new Map(movements.map((m) => [m.product_id, m])).get(id)`: the last one wins.
abbrev later_or : Option Movement → RowId → Movement → Option Movement
later_or (some later) id m = some later
later_or none id m = if m.product_id == id then some m else none

unfoldable pub movement_of : RowId → List Movement → Option Movement
movement_of id [] = none
movement_of id (m ∷ ms) = later_or (movement_of id ms) id m

abbrev movement_entry : Option Movement → List Movement → List Movement
movement_entry none rest = rest
movement_entry (some m) rest = m ∷ rest

unfoldable pub movements_now : List Demand → List Movement → List Movement
unfolding movement_of
movements_now [] ms = []
movements_now (d ∷ ds) ms = movement_entry (movement_of d.product_id ms) (movements_now ds ms)

abbrev pub customer_now : Option RowId → Db → Option CustomerAfter
customer_now none s = none
customer_now (some id) s = customer_after id (s.customers id)

abbrev pub mechanic_now : Option RowId → Db → Option MechanicAfter
mechanic_now none s = none
mechanic_now (some id) s = mechanic_after id (s.mechanics id)

-- The answer of `existingSale`: the bill as stored, the stock and the ledger as they stand now.
unfoldable pub replay : CreateSale → Sale → Db → CreateSaleResult
unfolding stock_now stored_lines movements_now
replay dto sale s = record {
  id = dto.id;
  receipt_no = sale.receipt_no;
  total = sale.total;
  points_granted = sale.points_granted;
  date = sale.date;
  shift_id = sale.shift_id;
  products = stock_now (aggregate dto.items) s.products;
  items = stored_lines dto.id s.sale_items;
  movements = movements_now (aggregate dto.items) (keep (is_sale_movement dto.id) s.movements);
  mechanic_credit_balance_after = balance_of (mechanic_now dto.mechanic_id s);
  mechanic_after = mechanic_now dto.mechanic_id s;
  customer_after = customer_now dto.customer_id s;
}

-- `existingSale`, on the row under the bill's id.
abbrev pub existing : CreateSale → Option Sale → Tx (Option CreateSaleResult)
existing dto none s = ok (none, s)
existing dto (some sale) s =
    if sale.total == dto.total
    then (if sale.voided then err sale_voided else ok (some (replay dto sale s), s))
    else err sale_id_reused

unfoldable pub existing_sale : CreateSale → Tx (Option CreateSaleResult)
unfolding replay
existing_sale dto s = existing dto (s.sales dto.id) s

-- The hooks of the bill: cached pages to drop, and the worker's job.
abbrev pub if_named : Option RowId → CacheName → Tx (Unit {0})
if_named none name = pure tt
if_named (some id) name = on_commit (Hook.invalidate name)

unfoldable pub sale_hooks : CreateSale → List Demand → Tx (Unit {0})
unfolding on_commit
sale_hooks dto demands = do
  on_commit (Hook.invalidate CacheName.products)
  if_named dto.customer_id CacheName.customers
  if_named dto.mechanic_id CacheName.mechanics
  on_commit (Hook.sale_created dto.id (map (λ (d : Demand). d.product_id) demands))

-- The sale, once no bill was found under its id.
unfoldable pub new_sale : CreateSale → Actor → Tx CreateSaleResult
new_sale dto actor = do
  shift_id ← require_open_shift_id_for actor.device_id
  override ← lock_mechanic_and_check_limit dto
  let demands = aggregate dto.items
  locked ← gets (λ s. lock_products demands s.products)
  assert_stock demands locked
  stock_after ← deduct demands
  receipt_no ← issue actor.device_id DocType.receipt
  let points_granted = points_for dto.total
  date ← insert_sale dto actor receipt_no points_granted shift_id
  items ← insert_lines dto locked
  movements ← insert_movements dto.id demands locked stock_after
  customer ← apply_customer dto.customer_id points_granted dto.total
  mechanic ← apply_mechanic dto.mechanic_id dto.total dto.mechanic_delta dto.payment_method
  log_override actor.user_id actor.device_id dto.mechanic_id override mechanic
  sale_hooks dto demands
  pure (record {
    id = dto.id;
    receipt_no = receipt_no;
    total = dto.total;
    points_granted = points_granted;
    date = date;
    shift_id = some shift_id;
    products = stock_after;
    items = items;
    movements = movements;
    mechanic_credit_balance_after = balance_of mechanic;
    mechanic_after = mechanic;
    customer_after = customer;
  })

abbrev pub or_run : {A : Type 0} → Option A → Tx A → Tx A
or_run none m = m
or_run (some a) m = pure a

-- `SalesService.create`.
unfoldable pub create_sale : CreateSale → Actor → Tx CreateSaleResult
unfolding new_sale
create_sale dto actor = do
  assert_sale_totals dto
  existing ← existing_sale dto
  or_run existing (new_sale dto actor)
