-- ===== src/Requests/Kept.antt =====
-- What each request does to the ledger of the stock, and what it keeps.
use jenkin_sri_store.Devices.{retire_device}
use jenkin_sri_store.Devices.Rest.{retire_device-drawers}
use jenkin_sri_store.Prelude.{
  ℕ, ◌-◌, ◌≤◌, ◌≡◌, refl, arith, All, All-append, All-map, true, Option, none, some, List, [], ◌∷◌,
  ◌++◌, ◌==◌, sum_by, sum_by-append, sum_by-sort_by, keep, keep-append, Option-cases, inl, inr,
  rewrite, leb, ap,
}
use jenkin_sri_store.Store.{
  RowId, Shift, Sale, SaleItem, Movement, Table, is_some, Db, ok, ran, throw_if-ok,
  po_already_received,
}
use jenkin_sri_store.Shifts.{
  Actor, ShiftWithEntries, update_shift, shelved, settle, retire_drawer, close_for_retirement,
}
use jenkin_sri_store.Shifts.Drawer.{OneDrawer}
use jenkin_sri_store.Shifts.Opening.{rewrite-OneDrawer}
use jenkin_sri_store.Shifts.Closing.{close-Closed}
use jenkin_sri_store.Sales.Request.{CreateSale, SaleLine, Demand, aggregate}
use jenkin_sri_store.Sales.Request.Demands.{demand_qty, sum_by-aggregate}
use jenkin_sri_store.Sales.Stock.Deduction.{stock_of}
use jenkin_sri_store.Sales.Movements.{move_stock, ledger_stock, Posted, Posted-same}
use jenkin_sri_store.Sales.Bill.Rows.{CopiesAll, TakesAll}
use jenkin_sri_store.Sales.Create.{CreateSaleResult, create_sale}
use jenkin_sri_store.Sales.Create.Stocktake.{create_sale-cases}
use jenkin_sri_store.Sales.Void.RoundTrip.{HaveBills}
use jenkin_sri_store.Returns.Guard.{sold_for, sold_lines}
use jenkin_sri_store.PurchaseOrders.{received_row, delete_po}

-- The movements of a bill come to what its demands take.
TakesAll-ledger_stock :
    (p id : RowId) (ds : List Demand) (ms : List Movement) (n : ℕ)
    → TakesAll id ds ms
    → ledger_stock p ms n ≡ n - sum_by (demand_qty p) ds
unfolding ledger_stock sum_by
TakesAll-ledger_stock p id [] [] n h = omega arith
TakesAll-ledger_stock p id (d ∷ ds) (m ∷ ms) n (one, h) =
    ground (arith, TakesAll-ledger_stock p id ds ms (move_stock p m n) h, one.product, one.delta)
TakesAll-ledger_stock p id [] (m ∷ ms) n h = absurd h
TakesAll-ledger_stock p id (d ∷ ds) [] n h = absurd h

pub create_sale-Posted :
    (dto : CreateSale) (actor : Actor) (s : Db) {r : CreateSaleResult} {t : Db}
    → create_sale dto actor s ≡ ok (r, t)
    → Posted s t
create_sale-Posted dto actor s {r} {t} h = elim (create_sale-cases dto actor s h) [
  | inl (x, found, live, answer, same) ↦ rw same (Posted-same refl refl)
  | inr w ↦ record {
    rows = r.movements;
    appended = w.moved;
    stock = λ p. omega (
      arith,
      w.took p,
      sum_by-aggregate p dto.items,
      TakesAll-ledger_stock p dto.id (aggregate dto.items) r.movements (stock_of (s.products p))
          w.taken,
    );
  }
]

-- The lines that are sold of a bill only grow by a new bill.
sold_lines-append :
    (id p c : RowId) (xs ys : List SaleItem)
    → sum_by (sold_for p c) (sold_lines id xs) ≤ sum_by (sold_for p c) (sold_lines id (xs ++ ys))
unfolding sold_lines
sold_lines-append id p c xs ys = omega (
  arith,
  sum_by-sort_by (sold_for p c) (λ a b. leb a.line_no b.line_no) (keep (λ i. i.sale_id == id) xs),
  sum_by-sort_by (sold_for p c) (λ a b. leb a.line_no b.line_no)
      (keep (λ i. i.sale_id == id) (xs ++ ys)),
  ap (sum_by (sold_for p c)) (keep-append (λ (i : SaleItem). i.sale_id == id) xs ys),
  sum_by-append (sold_for p c) (keep (λ i. i.sale_id == id) xs) (keep (λ i. i.sale_id == id) ys),
)

pub create_sale_sold :
    (dto : CreateSale) (actor : Actor) (s : Db) (id p c : RowId) {r : CreateSaleResult} {t : Db}
    → create_sale dto actor s ≡ ok (r, t)
    → sum_by (sold_for p c) (sold_lines id s.sale_items)
      ≤ sum_by (sold_for p c) (sold_lines id t.sale_items)
create_sale_sold dto actor s id p c h = elim (create_sale-cases dto actor s h) [
  | inl (x, found, live, answer, same) ↦ rw same (omega arith)
  | inr w ↦ rw w.lined (sold_lines-append id p c s.sale_items w.lines)
]

-- Tables that a bill does not write.
pub create_sale-rest :
    (dto : CreateSale) (actor : Actor) (s : Db) {r : CreateSaleResult} {t : Db}
    → create_sale dto actor s ≡ ok (r, t)
    → (t.shifts ≡ s.shifts) × (t.return_items ≡ s.return_items) × (t.product_ids ≡ s.product_ids)
create_sale-rest dto actor s h = elim (create_sale-cases dto actor s h) [
  | inl (x, found, live, answer, same) ↦ (cc, cc, cc)
  | inr w ↦ (cc (w.untouched), cc (w.untouched), cc (w.untouched))
]

-- Lines whose bills are there stay so while no bill is taken away.
pub HaveBills-kept :
    (before after : Table Sale) (items : List SaleItem)
    → ((k : RowId) → is_some (before k) ≡ true → is_some (after k) ≡ true)
    → All (λ (i : SaleItem). is_some (before i.sale_id) ≡ true) items
    → All (λ (i : SaleItem). is_some (after i.sale_id) ≡ true) items
HaveBills-kept before after items kept h = All-map (λ (i : SaleItem) e. kept i.sale_id e) items h

Copies-HaveBills :
    (id : RowId) (sales : Table Sale) (lines : List SaleLine) (items : List SaleItem)
    → is_some (sales id) ≡ true
    → CopiesAll id lines items
    → All (λ (i : SaleItem). is_some (sales i.sale_id) ≡ true) items
Copies-HaveBills id sales [] [] there h = tt
Copies-HaveBills id sales (l ∷ ls) (i ∷ is) there (one, h) =
    (rw (one.of_sale) there, Copies-HaveBills id sales ls is there h)
Copies-HaveBills id sales [] (i ∷ is) there h = absurd h
Copies-HaveBills id sales (l ∷ ls) [] there h = absurd h

pub create_sale-HaveBills :
    (dto : CreateSale) (actor : Actor) (s : Db) {r : CreateSaleResult} {t : Db}
    → HaveBills s
    → create_sale dto actor s ≡ ok (r, t)
    → HaveBills t
create_sale-HaveBills dto actor s {r} {t} billed h = elim (create_sale-cases dto actor s h) [
  | inl (x, found, live, answer, same) ↦ rw same billed
  | inr w ↦
      let kept : (k : RowId) → is_some (s.sales k) ≡ true → is_some (t.sales k) ≡ true =
        λ k there. rw w.headed (ground arith) in
      let there : is_some (t.sales dto.id) ≡ true = rw w.headed (ground arith) in
      rw w.lined (
        All-append (λ (i : SaleItem). is_some (t.sales i.sale_id) ≡ true) s.sale_items w.lines
          (HaveBills-kept s.sales t.sales s.sale_items kept billed)
          (Copies-HaveBills dto.id t.sales dto.items w.lines there w.copied))
]

-- Deleting an order touches the orders alone.
pub delete_po-only :
    (id : RowId) (s : Db) {x : RowId} {t : Db}
    → delete_po id s ≡ ok (x, t)
    → t ≡ record s { purchase_orders = t.purchase_orders; po_items = t.po_items }
unfolding delete_po
delete_po-only id s h = ran _ _ _ h λ row a ea k. ran _ _ _ k λ u b eb k. ran _ _ _ k λ v c ec k.
    let (fresh, same) = throw_if-ok (received_row row) po_already_received a eb in
    elim (Option-cases row) [ inl absent ↦ ground arith | inr (po, there) ↦ ground arith ]

settle-OneDrawer :
    (device : RowId) (cash : Option ℕ) (x : Shift) (o : Option ℕ) (s : Db) {r : ShiftWithEntries}
    {t : Db}
    → OneDrawer s.shifts
    → settle device cash x o s ≡ ok (r, t)
    → OneDrawer t.shifts
unfolding settle
settle-OneDrawer device cash x (some n) s {r} {t} one h =
    let same : t ≡ s = ground arith in rw same one
settle-OneDrawer device none x none s one h = absurd (cc)
settle-OneDrawer device (some n) x none s one h = (close-Closed device n s one h).one

-- If no device has two current drawers, then none has after a machine was retired.
close_for_retirement-OneDrawer :
    (device : RowId) (cash : Option ℕ) (s : Db) {r : Option ShiftWithEntries} {t : Db}
    → OneDrawer s.shifts
    → close_for_retirement device cash s ≡ ok (r, t)
    → OneDrawer t.shifts
unfolding close_for_retirement retire_drawer update_shift
close_for_retirement-OneDrawer device cash s {r} {t} one h = ran _ _ _ h λ x u e k.
    let at : u ≡ s = ground arith in
    elim (Option-cases x) [
      | inl empty ↦ let same : t ≡ s = ground arith in rw same one
      | inr (y, there) ↦ ran _ _ _ (rw there at k) λ result v e' k'. ran _ _ _ k' λ now w f k2.
          ran _ _ _ k2 λ a z g k3.
            let still = settle-OneDrawer device cash y y.closed_at u (rw at one) e' in
            let shifts : t.shifts ≡ rewrite (λ z. z.id == y.id) (shelved now) v.shifts =
              ground arith in
            rw shifts (rewrite-OneDrawer _ (shelved now) v.shifts (λ d z p. ground arith) still)
    ]

-- If no device has two current drawers, then none has after `retireIn` returned.
pub retire_device-OneDrawer :
    (actor : Actor) (id : RowId) (cash : Option ℕ) (s : Db) {r : Option ShiftWithEntries} {t : Db}
    → OneDrawer s.shifts
    → retire_device actor id cash s ≡ ok (r, t)
    → OneDrawer t.shifts
retire_device-OneDrawer actor id cash s one h =
    let (frame, (u, shelved_ran, drawers)) = retire_device-drawers actor id cash s h in
    rw drawers (close_for_retirement-OneDrawer id cash s one shelved_ran)
