-- ===== src/Sales/Void/Undo.antt =====
-- A void undoes the bill that it is of.
use jenkin_sri_store.Prelude.{
  ℕ, ◌+◌, ◌≡◌, refl, sym, ◌∙◌, arith, true, false, Option, none, some, List, [], ◌∷◌, sum_by,
  sum_by-sort_by, keep, Option-cases, inl, inr, if◌then◌else◌, ◌==◌, length, not,
}
use jenkin_sri_store.Store.{
  RowId, Sale, SaleItem, Customer, Mechanic, Table, update, MovementType, Shift, Db, ok, ran,
  or_throw-ok, throw_if-ok, ◌>>=◌, sale_not_found, sale_voided, sale_has_returns, internal,
  on_commit,
}
use jenkin_sri_store.Shifts.{open_drawer_of}
use jenkin_sri_store.Shifts.Drawer.{require_open_shift_id_for-ok}
use jenkin_sri_store.Sales.Stock.Deduction.{stock_of}
use jenkin_sri_store.Sales.Movements.{in_qty, out_qty, Posted, Posted-view}
use jenkin_sri_store.Sales.Restock.Added.{restock_qty, add_restock-qty, gained, restock-Added}
use jenkin_sri_store.Sales.Void.{
  AuthorisedVoid, add_items, grouped, restore_stock, reverse_ledger, customer_minus, mechanic_minus,
  stamped_void, mark_voided, in_shift, returns_of, ledger_hooks, log_void, void_sale,
}

abbrev pub item_qty : RowId → SaleItem → ℕ
item_qty p i = if i.product_id == p then i.qty else 0

add_items-qty :
    (p : RowId) (items : List SaleItem)
    → sum_by (restock_qty p) (add_items items) ≡ sum_by (item_qty p) items
unfolding add_items sum_by
add_items-qty p [] = refl
add_items-qty p (i ∷ is) =
    add_restock-qty p i.product_id i.qty (add_items is) ∙ ground (arith, add_items-qty p is)

-- The goods that go back are those on the bill's lines.
pub grouped-qty :
    (p id : RowId) (items : List SaleItem)
    → sum_by (restock_qty p) (grouped id items)
      ≡ sum_by (item_qty p) (keep (λ i. i.sale_id == id) items)
unfolding grouped
grouped-qty p id items =
    sum_by-sort_by (restock_qty p) _ (add_items (keep (λ i. i.sale_id == id) items))
    ∙ add_items-qty p (keep (λ i. i.sale_id == id) items)

-- The rows of a ledger with a bill taken off the one that it names.
abbrev pub customers_without : Sale → Option RowId → Table Customer → Table Customer
customers_without sale none t = t
customers_without sale (some id) t = update id (customer_minus sale.points_granted sale.total) t

abbrev pub mechanics_without : Sale → Option RowId → Table Mechanic → Table Mechanic
mechanics_without sale none t = t
mechanics_without sale (some id) t =
    update id (mechanic_minus sale.total sale.mechanic_delta sale.payment_method) t

reverse_ledger-ok :
    (sale : Sale) (s : Db) {x : Unit {0}} {t : Db}
    → reverse_ledger sale s ≡ ok (x, t)
    → t ≡ record s {
      customers = customers_without sale sale.customer_id s.customers;
      mechanics = mechanics_without sale sale.mechanic_id s.mechanics;
    }
unfolding reverse_ledger
reverse_ledger-ok sale s h = elim (Option-cases sale.customer_id) [
  | inl no_customer ↦ elim (Option-cases sale.mechanic_id) [
    | inl no_mechanic ↦ ground arith
    | inr (m, e) ↦ ground arith
  ]
  | inr (c, e) ↦ elim (Option-cases sale.mechanic_id) [
    | inl no_mechanic ↦ ground arith
    | inr (m, e') ↦ ground arith
  ]
]

pub ledger_hooks-ok :
    (sale : Sale) (s : Db) {x : Unit {0}} {t : Db}
    → ledger_hooks sale s ≡ ok (x, t)
    → t ≡ record s { hooks = t.hooks }
unfolding ledger_hooks on_commit ◌>>=◌
ledger_hooks-ok sale s h = elim (Option-cases sale.customer_id) [
  | inl no_customer ↦ elim (Option-cases sale.mechanic_id) [
    | inl no_mechanic ↦ ground arith
    | inr (m, e) ↦ ground arith
  ]
  | inr (c, e) ↦ elim (Option-cases sale.mechanic_id) [
    | inl no_mechanic ↦ ground arith
    | inr (m, e') ↦ ground arith
  ]
]

-- What a void that returned did.
pub record Voided (id : RowId) (auth : AuthorisedVoid) (s t : Db) : Type 0 where
  pub matched : (auth.sale_id == id) ≡ true
  pub sale : Sale
  pub found : s.sales id ≡ some sale
  pub live : sale.voided ≡ false
  pub uncredited : length (returns_of id s.returns) ≡ 0
  pub drawer : Shift
  pub drawer_open : open_drawer_of auth.actor.device_id s.shifts ≡ some drawer
  pub in_drawer : in_shift sale.shift_id drawer.id ≡ true
  pub stock :
      (p : RowId)
      → stock_of (t.products p)
        ≡ stock_of (s.products p)
          + gained p s.products (sum_by (item_qty p) (keep (λ i. i.sale_id == id) s.sale_items))
  pub ins :
      (p : RowId)
      → sum_by (in_qty p) t.movements
        ≡ sum_by (in_qty p) s.movements
          + gained p s.products (sum_by (item_qty p) (keep (λ i. i.sale_id == id) s.sale_items))
  pub outs : (p : RowId) → sum_by (out_qty p) t.movements ≡ sum_by (out_qty p) s.movements
  pub posted : Posted s t
  pub customers : t.customers ≡ customers_without sale sale.customer_id s.customers
  pub mechanics : t.mechanics ≡ mechanics_without sale sale.mechanic_id s.mechanics
  pub marked : t.sales ≡ update id (stamped_void s.now) s.sales
  pub only : t ≡ record s {
    products = t.products;
    movements = t.movements;
    customers = t.customers;
    mechanics = t.mechanics;
    sales = t.sales;
    audit_log = t.audit_log;
    next_id = t.next_id;
    hooks = t.hooks;
  }

pub void_sale-Voided :
    (id : RowId) (auth : AuthorisedVoid) (s : Db) {x : Unit {0}} {t : Db}
    → void_sale id auth s ≡ ok (x, t)
    → Voided id auth s t
unfolding void_sale mark_voided log_void restore_stock
void_sale-Voided id auth s {x} {t} h = ran _ _ _ h λ u1 a ea k. ran _ _ _ k λ row b eb k.
    ran _ _ _ k λ sale c ec k. ran _ _ _ k λ u2 d ed k. ran _ _ _ k λ credited e ee k.
      ran _ _ _ k λ u3 f ef k. ran _ _ _ k λ shift g eg k. ran _ _ _ k λ u4 i ei k.
        ran _ _ _ k λ moved j ej k. ran _ _ _ k λ u5 l el k. ran _ _ _ k λ u6 m em k.
          ran _ _ _ k λ u7 n en k.
            let (matched, a_same) = throw_if-ok _ internal s ea in
            let (found, c_same) = or_throw-ok row sale_not_found b ec in
            let (live, d_same) = throw_if-ok sale.voided sale_voided c ed in
            let (none_credited, f_same) = throw_if-ok _ sale_has_returns e ef in
            let (g_same, (drawer, drawer_open, named)) =
              require_open_shift_id_for-ok auth.actor.device_id f eg in
            let (in_drawer, i_same) = throw_if-ok (not (in_shift sale.shift_id shift)) _ g ei in
            let b_same : b ≡ s = cc in
            let d_at : d ≡ s = cc in
            let at : i ≡ s = cc in
            let f_at : f ≡ s = cc in
            let added = restock-Added MovementType.void id (grouped id i.sale_items) i ej in
            let back = reverse_ledger-ok sale j el in
            let hooked = ledger_hooks-ok sale l em in
            let from_items = λ (p : RowId). grouped-qty p id s.sale_items in
            let t_products : t.products ≡ j.products = cc in
            let t_movements : t.movements ≡ j.movements = cc in
            record {
              matched = ground (arith, matched);
              sale = sale;
              found = cc;
              live = live;
              uncredited = ground arith;
              drawer = drawer;
              drawer_open = rw (sym f_at) drawer_open;
              in_drawer = rw named (ground (arith, in_drawer));
              stock =
                  λ p. rw (t_products, sym at, sym (grouped-qty p id i.sale_items)) (added.stock p);
              ins =
                  λ p. rw (t_movements, sym at, sym (grouped-qty p id i.sale_items)) (added.ins p);
              outs = λ p. rw (t_movements, sym at) (added.outs p);
              posted = Posted-view s t (cc) (cc) t_products t_movements added.posted;
              only = cc (added.only);
              customers = cc (added.only);
              mechanics = cc (added.only);
              marked = cc (added.only);
            }
