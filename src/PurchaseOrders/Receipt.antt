-- ===== src/PurchaseOrders/Receipt.antt =====
-- `PurchaseOrdersService.receive`: the lines are applied in turn to the rows that were locked, and
-- each product that they touched is written once.
pub mod Runnings
pub mod Applied
pub mod Wrote
pub mod Received
pub mod Accepted
use jenkin_sri_store.Prelude.{
  ℕ, ◌+◌, Bool, true, false, Option, none, some, List, [], ◌∷◌, ◌++◌, ◌==◌, ◌&&◌, ◌||◌, ltb, leb,
  if◌then◌else◌, map, keep, rewrite, sort_by, not,
}
use jenkin_sri_store.Prelude.Int.{pos}
use jenkin_sri_store.Store.{
  Text, RowId, int4_max, Product, Movement, MovementType, Note, PoStatus, PurchaseOrder, PoLine,
  Action, AuditRow, Hook, CacheName, Table, update, Db, Tx, ok, pure, throw, modify, throw_if, gets,
  each, on_commit, ◌>>=◌, ◌>>◌, po_already_received, po_cancelled, stock_out_of_range,
}
use jenkin_sri_store.Shifts.{Actor}
use jenkin_sri_store.Purchasing.{weighted_average_cost}
use jenkin_sri_store.PurchaseOrders.{is_received, is_cancelled, lines_of_po, lock_po}

pub record Running : Type 0 where
  pub id : RowId
  pub part_no : Text
  pub name : Text
  pub stock_before : ℕ
  pub cost_before : ℕ
  pub stock : ℕ
  pub cost : ℕ
  pub delta : ℕ

-- The runnings as the loop has left them, and the part numbers that met no product.
pub record Tally : Type 0 where
  pub runnings : List Running
  pub unmatched : List Text

pub record Updated : Type 0 where
  pub product_id : RowId
  pub part_no : Text
  pub stock_after : ℕ
  pub cost_after : ℕ

pub record ReceiveResult : Type 0 where
  pub po_id : RowId
  pub received_at : ℕ
  pub updated : List Updated
  pub unmatched : List Text
  pub movements : List Movement

abbrev pub running_of : RowId → Product → Running
running_of id p = record {
  id = id;
  part_no = p.part_no;
  name = p.name;
  stock_before = p.stock;
  cost_before = p.cost;
  stock = p.stock;
  cost = p.cost;
  delta = 0;
}

-- What a line does to the product that it names.
abbrev pub add_to : PoLine → Running → Running
add_to line r = record r {
  cost = weighted_average_cost r.stock r.cost line.qty line.cost;
  stock = r.stock + line.qty;
  delta = r.delta + line.qty;
}

abbrev pub later_of : Option Running → Option Running → Option Running
later_of (some later) earlier = some later
later_of none earlier = earlier

-- `lower` is the database's own function on texts.
module _ (lower : Text → Text) where
  -- `lower(p.part_no) = lower(l.key)`, for some line.
  unfoldable pub named_by : List PoLine → Text → Bool
  named_by [] part_no = false
  named_by (l ∷ ls) part_no = lower part_no == lower l.part_no || named_by ls part_no

  abbrev pub locked_entry : List PoLine → RowId → Option Product → List Running → List Running
  locked_entry lines id none rest = rest
  locked_entry lines id (some p) rest =
      if not p.deleted && named_by lines p.part_no then running_of id p ∷ rest else rest

  -- The join, `ORDER BY p.id`, and `byId`: the live products that some line names.
  unfoldable pub lock_named : List PoLine → List RowId → Table Product → List Running
  lock_named lines [] products = []
  lock_named lines (id ∷ ids) products =
      locked_entry lines id (products id) (lock_named lines ids products)

  -- `byKey.get(key)`: of the rows that the key joins, the last one was set.
  unfoldable pub state_of : Text → List Running → Option Running
  state_of key [] = none
  state_of key (r ∷ rs) =
      later_of (state_of key rs) (if lower r.part_no == lower key then some r else none)

  abbrev pub apply_at : PoLine → Tally → Option Running → Tx Tally
  apply_at line t none = pure (record t { unmatched = t.unmatched ++ line.part_no ∷ [] })
  apply_at line t (some r) =
      if ltb int4_max (r.stock + line.qty)
      then throw stock_out_of_range
      else pure (record t { runnings = rewrite (λ x. x.id == r.id) (add_to line) t.runnings })

  unfoldable pub apply_line : PoLine → Tally → Tx Tally
  unfolding state_of
  apply_line line t = apply_at line t (state_of line.part_no t.runnings)

  -- `for (const line of lines)`.
  unfoldable pub apply_lines : List PoLine → Tally → Tx Tally
  unfolding apply_line
  apply_lines [] t = pure t
  apply_lines (l ∷ ls) t = do t' ← apply_line l t; apply_lines ls t'

-- The products that the lines touched, by id.
unfoldable pub touched_of : List Running → List Running
touched_of rs = sort_by (λ a b. leb a.id b.id) (keep (λ r. ltb 0 r.delta) rs)

unfoldable pub receive_movement : RowId → RowId → PurchaseOrder → Running → ℕ → Movement
receive_movement id po_id po r now = record {
  id = id;
  product_id = r.id;
  part_no = r.part_no;
  name = r.name;
  delta = pos r.delta;
  type = MovementType.receive;
  note = some (Note.received_on po.po_no po.supplier r.cost);
  stock_after = r.stock;
  ref_id = some po_id;
  date = now;
}

abbrev pub restocked_at : Running → Product → Product
restocked_at r p = record p { stock = r.stock; cost = r.cost }

-- One round: the `UPDATE` of the product, and its row in the ledger.
unfoldable pub write_product : RowId → PurchaseOrder → Running → Tx Movement
unfolding receive_movement
write_product po_id po r s =
    let m = receive_movement s.next_id po_id po r s.now in
    ok (
      m,
      record s {
        products = update r.id (restocked_at r) s.products;
        movements = s.movements ++ m ∷ [];
        next_id = s.next_id + 1;
      },
    )

abbrev pub stamped_receipt : ℕ → PurchaseOrder → PurchaseOrder
stamped_receipt now po = record po { status = PoStatus.received; received_at = some now }

unfoldable pub mark_received : RowId → Tx ℕ
mark_received id s =
    ok (s.now, record s { purchase_orders = update id (stamped_receipt s.now) s.purchase_orders })

abbrev pub updated_out : Running → Updated
updated_out r = record {
  product_id = r.id;
  part_no = r.part_no;
  stock_after = r.stock;
  cost_after = r.cost;
}

abbrev pub invalidate_touched : List Running → Tx (Unit {0})
invalidate_touched [] = pure tt
invalidate_touched (r ∷ rs) = on_commit (Hook.invalidate CacheName.products)

-- The audit row, and the cached page dropped if a product changed.
unfoldable pub close_receipt : RowId → Actor → List Running → Tx (Unit {0})
close_receipt id actor touched = do
  modify (λ s. record s {
    audit_log =
        s.audit_log
        ++ record {
          user_id = actor.user_id;
          device_id = actor.device_id;
          action = Action.po_receive;
          entity_id = id;
        }
          ∷ [];
  })
  invalidate_touched touched

unfoldable pub receive_po : (Text → Text) → RowId → Actor → Tx ReceiveResult
unfolding lock_named apply_lines touched_of write_product mark_received close_receipt
receive_po lower id actor = do
  po ← lock_po id
  throw_if (is_received po.status) po_already_received
  throw_if (is_cancelled po.status) po_cancelled
  lines ← gets (λ s. lines_of_po id s.po_items)
  locked ← gets (λ s. lock_named lower lines s.product_ids s.products)
  tally ← apply_lines lower lines (record { runnings = locked; unmatched = [] })
  let touched = touched_of tally.runnings
  movements ← each (write_product id po) touched
  received_at ← mark_received id
  close_receipt id actor touched
  pure (record {
    po_id = id;
    received_at = received_at;
    updated = map updated_out touched;
    unmatched = tally.unmatched;
    movements = movements;
  })
