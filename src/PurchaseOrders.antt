-- ===== src/PurchaseOrders.antt =====
-- Purchase orders (server/src/purchasing/purchase-orders.service.ts): placing, cancelling and
-- deleting one. Receiving it is in the child `Receipt`.
pub mod Receipt
pub mod Status
pub mod Placed
use jenkin_sri_store.Prelude.{
  ℕ, suc, ◌+◌, Bool, true, false, Option, none, some, List, [], ◌∷◌, ◌++◌, ◌==◌, if◌then◌else◌, map,
  keep, sort_by, leb, not,
}
use jenkin_sri_store.Store.{
  Text, RowId, DocType, PoStatus, PurchaseOrder, PoLine, Table, put, update, is_some, Db, Tx, ok,
  err, internal, pure, modify, throw_if, gets, or_throw, ◌>>=◌, ◌>>◌, new_id, po_not_found,
  po_already_received,
}
use jenkin_sri_store.Documents.{issue}
use jenkin_sri_store.Shifts.{Actor}

-- `PoLineCreate` and `PoCreate`: the parsed body.
pub record PoLineCreate : Type 0 where
  pub part_no : Text
  pub name : Text
  pub qty : ℕ
  pub cost : ℕ

pub record PoCreate : Type 0 where
  pub supplier : Text
  pub items : List PoLineCreate

pub record PoLineOut : Type 0 where
  pub line_no : ℕ
  pub part_no : Text
  pub name : Text
  pub qty : ℕ
  pub cost : ℕ

pub record PurchaseOrderOut : Type 0 where
  pub id : RowId
  pub po_no : List ℕ
  pub supplier : Text
  pub status : PoStatus
  pub created_at : ℕ
  pub received_at : Option ℕ
  pub cancelled_at : Option ℕ
  pub items : List PoLineOut

abbrev pub po_line_out : PoLine → PoLineOut
po_line_out l = record {
  line_no = l.line_no;
  part_no = l.part_no;
  name = l.name;
  qty = l.qty;
  cost = l.cost;
}

-- `toPurchaseOrder`.
unfoldable pub to_purchase_order : RowId → PurchaseOrder → List PoLine → PurchaseOrderOut
to_purchase_order id po lines = record {
  id = id;
  po_no = po.po_no;
  supplier = po.supplier;
  status = po.status;
  created_at = po.created_at;
  received_at = po.received_at;
  cancelled_at = po.cancelled_at;
  items = map po_line_out lines;
}

abbrev pub is_received : PoStatus → Bool
is_received PoStatus.received = true
is_received _ = false

abbrev pub is_cancelled : PoStatus → Bool
is_cancelled PoStatus.cancelled = true
is_cancelled _ = false

abbrev pub is_placed : PoStatus → Bool
is_placed PoStatus.placed = true
is_placed _ = false

-- `linesOf`, for one order: `ORDER BY line_no`.
abbrev pub lines_of_po : RowId → List PoLine → List PoLine
lines_of_po id lines = sort_by (λ a b. leb a.line_no b.line_no) (keep (λ l. l.po_id == id) lines)

-- `lockPo`.
unfoldable pub lock_po : RowId → Tx PurchaseOrder
lock_po id s = or_throw (s.purchase_orders id) po_not_found s

-- `WITH ORDINALITY`: the lines are numbered from 1.
unfoldable pub numbered : RowId → ℕ → List PoLineCreate → List PoLine
numbered id n [] = []
numbered id n (l ∷ ls) =
    record {
      po_id = id;
      line_no = n;
      part_no = l.part_no;
      name = l.name;
      qty = l.qty;
      cost = l.cost;
    }
    ∷ numbered id (suc n) ls

abbrev pub new_po : List ℕ → Text → ℕ → PurchaseOrder
new_po po_no supplier now = record {
  po_no = po_no;
  supplier = supplier;
  status = PoStatus.placed;
  created_at = now;
  received_at = none;
  cancelled_at = none;
}

-- The two inserts; the key of an order is no other order's.
unfoldable pub insert_po : RowId → PurchaseOrder → List PoLine → Tx (Unit {0})
insert_po id po lines s =
    if is_some (s.purchase_orders id)
    then err internal
    else ok (
      tt,
      record s { purchase_orders = put id po s.purchase_orders; po_items = s.po_items ++ lines },
    )

-- `create`: a server-minted id and number; it touches no stock.
unfoldable pub create_po : PoCreate → RowId → Tx PurchaseOrderOut
unfolding to_purchase_order numbered insert_po
create_po input device = do
  po_no ← issue device DocType.po
  id ← new_id
  now ← gets (λ s. s.now)
  let po = new_po po_no input.supplier now
  let lines = numbered id 1 input.items
  insert_po id po lines
  pure (to_purchase_order id po (sort_by (λ a b. leb a.line_no b.line_no) lines))

abbrev pub stamped_cancel : ℕ → PurchaseOrder → PurchaseOrder
stamped_cancel now po = record po { status = PoStatus.cancelled; cancelled_at = some now }

-- The `UPDATE … RETURNING` of a cancellation, made of an order that is still open.
abbrev pub cancel_row : RowId → PurchaseOrder → Bool → Tx PurchaseOrder
cancel_row id po false = pure po
cancel_row id po true = do
  now ← gets (λ s. s.now)
  modify (λ s. record s { purchase_orders = update id (stamped_cancel now) s.purchase_orders })
  pure (stamped_cancel now po)

-- `cancel`.
unfoldable pub cancel_po : RowId → Tx PurchaseOrderOut
unfolding lock_po to_purchase_order
cancel_po id = do
  po ← lock_po id
  throw_if (is_received po.status) po_already_received
  after ← cancel_row id po (is_placed po.status)
  lines ← gets (λ s. lines_of_po id s.po_items)
  pure (to_purchase_order id after lines)

abbrev pub received_row : Option PurchaseOrder → Bool
received_row none = false
received_row (some po) = is_received po.status

-- `DELETE`, with the lines by `ON DELETE CASCADE`; an absent id has no lines.
abbrev pub without_po : RowId → Db → Db
without_po id s = record s {
  purchase_orders = λ j. if id == j then none else s.purchase_orders j;
  po_items = keep (λ l. not (l.po_id == id)) s.po_items;
}

abbrev pub delete_row : RowId → Option PurchaseOrder → Tx (Unit {0})
delete_row id none = pure tt
delete_row id (some po) = modify (without_po id)

-- `delete`: an absent id is answered as deleted.
unfoldable pub delete_po : RowId → Tx RowId
delete_po id = do
  row ← gets (λ s. s.purchase_orders id)
  throw_if (received_row row) po_already_received
  delete_row id row
  pure id
