-- ===== src/Sales/Create/Written.antt =====
-- What a sale that returned has written.
use jenkin_sri_store.Prelude.{
  All, true, ℕ, ◌+◌, ◌≡◌, sym, subst, ◌∙◌, ap, map, arith, true, false, Option, none, some, List,
  [], ◌∷◌, ◌++◌, sum_by, Option-cases, inl, inr,
}
use jenkin_sri_store.Store.{
  RowId, SaleItem, DocType, Customer, Mechanic, Table, put, update, is_some, PaymentMethod, Shift,
  Db, ok, ran, ◌>>=◌, on_commit,
}
use jenkin_sri_store.Money.{points_for}
use jenkin_sri_store.Documents.Series.{issue-Issued}
use jenkin_sri_store.Shifts.{Actor, open_drawer_of}
use jenkin_sri_store.Shifts.Drawer.{require_open_shift_id_for-ok}
use jenkin_sri_store.Sales.Request.{CreateSale, Demand, aggregate}
use jenkin_sri_store.Sales.Request.Demands.{line_qty, sum_by-aggregate, aggregate-IsDistinct}
use jenkin_sri_store.Sales.Stock.{refuse_short, assert_stock, shortages}
use jenkin_sri_store.Sales.Stock.Deduction.{stock_of, left_of, deduct-ok, deduct-after, deduct-rows}
use jenkin_sri_store.Sales.Ledger.{
  CreditOverride, MechanicAfter, CustomerAfter, mechanic_row, customer_after, mechanic_after,
  customer_plus, apply_customer, mechanic_plus, apply_mechanic, log_override,
}
use jenkin_sri_store.Sales.Ledger.Limit.{within_limit, lock_mechanic_and_check_limit-ok}
use jenkin_sri_store.Sales.Bill.{sale_row, insert_sale, line_out, by_line_no, SaleLineOut}
use jenkin_sri_store.Sales.Bill.Rows.{
  CopiesAll, TakesAll, insert_lines-Inserted, insert_movements-Moved,
}
use jenkin_sri_store.Sales.Create.{CreateSaleResult, balance_of, sale_hooks, new_sale}

refuse_short-same :
    (lines : List _) (s : Db) {u : Unit {0}} {t : Db} → refuse_short lines s ≡ ok (u, t) → t ≡ s
refuse_short-same [] s h = cc
refuse_short-same (line ∷ lines) s h = cc

pub insert_sale-ok :
    (dto : CreateSale) (actor : Actor) (no : List ℕ) (points : ℕ) (shift : RowId) (s : Db)
    {date : ℕ} {t : Db}
    → insert_sale dto actor no points shift s ≡ ok (date, t)
    → (is_some (s.sales dto.id) ≡ false)
      × (date ≡ s.now)
      × (t ≡ record s { sales = put dto.id (sale_row dto actor no points shift s.now) s.sales })
unfolding insert_sale
insert_sale-ok dto actor receipt_no points shift s h = (ground arith, ground arith, ground arith)

-- The customers' and mechanics' rows with the bill added to the one that it names.
abbrev pub customers_with : Option RowId → ℕ → ℕ → Table Customer → Table Customer
customers_with none points total t = t
customers_with (some id) points total t = update id (customer_plus points total) t

abbrev pub mechanics_with : CreateSale → Option RowId → Table Mechanic → Table Mechanic
mechanics_with dto none t = t
mechanics_with dto (some id) t =
    update id (mechanic_plus dto.total dto.mechanic_delta dto.payment_method) t

abbrev pub after_of :
    {A B : Type 0} → (RowId → Option A → Option B) → Option RowId → Table A → Option B
after_of f none t = none
after_of f (some id) t = f id (t id)

pub apply_customer-ok :
    (id : Option RowId) (points total : ℕ) (s : Db) {o : Option CustomerAfter} {t : Db}
    → apply_customer id points total s ≡ ok (o, t)
    → (o ≡ after_of customer_after id (customers_with id points total s.customers))
      × (t ≡ record s { customers = customers_with id points total s.customers })
unfolding apply_customer
apply_customer-ok none points total s h = (cc, cc)
apply_customer-ok (some id) points total s h = (ground arith, ground arith)

pub apply_mechanic-ok :
    (id : Option RowId) (dto : CreateSale) (s : Db) {o : Option MechanicAfter} {t : Db}
    → apply_mechanic id dto.total dto.mechanic_delta dto.payment_method s ≡ ok (o, t)
    → (o ≡ after_of mechanic_after id (mechanics_with dto id s.mechanics))
      × (t ≡ record s { mechanics = mechanics_with dto id s.mechanics })
unfolding apply_mechanic
apply_mechanic-ok none dto s h = (cc, cc)
apply_mechanic-ok (some id) dto s h = (ground arith, ground arith)

-- The log and the hooks are all that the end of the call writes.
abbrev pub OnlyLog : Db → Db → Type 0
OnlyLog s t = t ≡ record s { audit_log = t.audit_log; hooks = t.hooks }

log_override-ok :
    (user device : RowId) (m : Option RowId) (o : Option CreditOverride) (a : Option MechanicAfter)
    (s : Db) {u : Unit {0}} {t : Db}
    → log_override user device m o a s ≡ ok (u, t)
    → OnlyLog s t
unfolding log_override
log_override-ok user device none o a s h = ground arith
log_override-ok user device (some m) none a s h = ground arith
log_override-ok user device (some m) (some o) none s h = ground arith
log_override-ok user device (some m) (some o) (some a) s h = ground arith

sale_hooks-ok :
    (dto : CreateSale) (s : Db) {u : Unit {0}} {t : Db}
    → sale_hooks dto (aggregate dto.items) s ≡ ok (u, t)
    → OnlyLog s t
unfolding sale_hooks on_commit ◌>>=◌
sale_hooks-ok dto s h = elim (Option-cases dto.customer_id) [
  | inl no_customer ↦ elim (Option-cases dto.mechanic_id) [
    | inl no_mechanic ↦ ground arith
    | inr (m, e) ↦ ground arith
  ]
  | inr (c, e) ↦ elim (Option-cases dto.mechanic_id) [
    | inl no_mechanic ↦ ground arith
    | inr (m, e') ↦ ground arith
  ]
]

-- What a bill that was written leaves behind, table by table.
pub record Written (dto : CreateSale) (actor : Actor) (s : Db) (r : CreateSaleResult) (t : Db)
    : Type 0 where
  pub drawer : Shift
  pub drawer_open : open_drawer_of actor.device_id s.shifts ≡ some drawer
  pub was_new : is_some (s.sales dto.id) ≡ false
  pub headed :
      t.sales
      ≡ put dto.id (sale_row dto actor r.receipt_no (points_for dto.total) drawer.id s.now) s.sales
  pub took :
      (p : RowId)
      → stock_of (t.products p) + sum_by (line_qty p) dto.items ≡ stock_of (s.products p)
  pub rows : (p : RowId) → is_some (t.products p) ≡ is_some (s.products p)
  pub raw : List SaleLineOut
  pub listed : r.items ≡ by_line_no raw
  pub lines : List SaleItem
  pub lined : t.sale_items ≡ s.sale_items ++ lines
  pub answered : raw ≡ map line_out lines
  pub copied : CopiesAll dto.id dto.items lines
  pub moved : t.movements ≡ s.movements ++ r.movements
  pub taken : TakesAll dto.id (aggregate dto.items) r.movements
  pub left : r.products ≡ map (left_of t.products) (aggregate dto.items)
  pub customers :
      t.customers ≡ customers_with dto.customer_id (points_for dto.total) dto.total s.customers
  pub mechanics : t.mechanics ≡ mechanics_with dto dto.mechanic_id s.mechanics
  pub in_limit :
      (m : Mechanic)
      → dto.payment_method ≡ PaymentMethod.mechanic_credit
      → mechanic_row dto.mechanic_id s ≡ some m
      → dto.override_credit_limit ≡ false
      → within_limit m dto ≡ true
  pub customer_told : r.customer_after ≡ after_of customer_after dto.customer_id t.customers
  pub mechanic_told : r.mechanic_after ≡ after_of mechanic_after dto.mechanic_id t.mechanics
  pub told : r ≡ record {
    id = dto.id;
    receipt_no = r.receipt_no;
    total = dto.total;
    points_granted = points_for dto.total;
    date = s.now;
    shift_id = some drawer.id;
    products = r.products;
    items = r.items;
    movements = r.movements;
    mechanic_credit_balance_after = balance_of r.mechanic_after;
    mechanic_after = r.mechanic_after;
    customer_after = r.customer_after;
  }
  pub demanded :
      All (λ (d : Demand). is_some (t.products d.product_id) ≡ true) (aggregate dto.items)
  pub untouched : t ≡ record s {
    products = t.products;
    sales = t.sales;
    sale_items = t.sale_items;
    movements = t.movements;
    customers = t.customers;
    mechanics = t.mechanics;
    audit_log = t.audit_log;
    doc_counters = t.doc_counters;
    next_id = t.next_id;
    hooks = t.hooks;
  }

pub new_sale-Written :
    (dto : CreateSale) (actor : Actor) (s : Db) {r : CreateSaleResult} {t : Db}
    → new_sale dto actor s ≡ ok (r, t)
    → Written dto actor s r t
unfolding new_sale assert_stock
new_sale-Written dto actor s {r} {t} h = ran _ _ _ h λ shift a ea k. ran _ _ _ k λ override b eb k.
    ran _ _ _ k λ locked c ec k. ran _ _ _ k λ u d ed k. ran _ _ _ k λ after e ee k.
      ran _ _ _ k λ receipt f ef k. ran _ _ _ k λ date g eg k. ran _ _ _ k λ items i ei k.
        ran _ _ _ k λ movements j ej k. ran _ _ _ k λ customer l el k.
          ran _ _ _ k λ mechanic m em k. ran _ _ _ k λ v n en k. ran _ _ _ k λ w z ez k.
            let (a_same, (x, found, named)) = require_open_shift_id_for-ok actor.device_id s ea in
            let (b_same, limit) = lock_mechanic_and_check_limit-ok dto a eb in
            let c_same : c ≡ s = cc in
            let d_same : d ≡ s =
              refuse_short-same (shortages (aggregate dto.items) locked) c ed ∙ c_same in
            let ds = aggregate dto.items in
            let (only_products, took) = deduct-ok ds d ee in
            let left = deduct-after ds d (aggregate-IsDistinct dto.items) ee in
            let only_counters = (issue-Issued actor.device_id DocType.receipt e ef).only_counters in
            let (fresh, dated, headed) =
              insert_sale-ok dto actor receipt (points_for dto.total) shift f eg in
            let (raw, listed, lined) = insert_lines-Inserted dto locked g ei in
            let moved = insert_movements-Moved dto.id ds locked after i ej in
            let (c_after, customers) =
              apply_customer-ok dto.customer_id (points_for dto.total) dto.total j el in
            let (m_after, mechanics) = apply_mechanic-ok dto.mechanic_id dto l em in
            let logged =
              log_override-ok actor.user_id actor.device_id dto.mechanic_id override mechanic m
                en in
            let hooked = sale_hooks-ok dto n ez in
            let same : t ≡ z = ground arith in
            let products : t.products ≡ e.products = cc (moved.only_movements, lined.only_items) in
            let answer : r.receipt_no ≡ receipt = cc in
            let now : f.now ≡ s.now = cc in
            let f_sales : f.sales ≡ s.sales = cc in
            let t_sales : t.sales ≡ g.sales = cc (moved.only_movements, lined.only_items) in
            let j_customers : j.customers ≡ s.customers =
              cc (moved.only_movements, lined.only_items) in
            let l_mechanics : l.mechanics ≡ s.mechanics =
              cc (moved.only_movements, lined.only_items) in
            let t_customers : t.customers ≡ l.customers = cc in
            let t_mechanics : t.mechanics ≡ m.mechanics = cc in
            record {
              drawer = x;
              drawer_open = found;
              was_new = rw (sym f_sales) fresh;
              headed =
                  rw (t_sales, answer, named, sym f_sales, sym now)
                    (ap (λ (y : Db). y.sales) headed);
              took =
                  λ p. rw (products, sym d_same, sym (sum_by-aggregate p dto.items)) ((took p).0);
              rows = λ p. rw (products, sym d_same) ((took p).1);
              raw = raw;
              listed = cc;
              lines = lined.rows;
              lined = cc (moved.only_movements, lined.appended);
              answered = lined.answered;
              copied = lined.copied;
              moved = cc (moved.appended, lined.only_items);
              taken = subst (TakesAll dto.id ds) (cc) moved.taken;
              left = cc;
              customers =
                  rw (t_customers, sym j_customers) (ap (λ (y : Db). y.customers) customers);
              mechanics =
                  rw (t_mechanics, sym l_mechanics) (ap (λ (y : Db). y.mechanics) mechanics);
              in_limit = λ y e1 e2 e3. limit y e1 (rw a_same e2) e3;
              customer_told = cc;
              mechanic_told = cc;
              told = cc;
              demanded = rw products (deduct-rows ds d ee);
              untouched = cc (moved.only_movements, lined.only_items);
            }
