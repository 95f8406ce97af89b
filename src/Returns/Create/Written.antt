-- ===== src/Returns/Create/Written.antt =====
-- What a credit note that returned has written.
use jenkin_sri_store.Prelude.{
  ℕ, ◌≡◌, sym, ap, arith, Bool, true, false, Option, none, some, List, [], ◌∷◌, ◌++◌, if◌then◌else◌,
  All,
}
use jenkin_sri_store.Store.{
  RowId, RefundMethod, Sale, SaleItem, Return, MovementType, DocType, Db, ok, ran, or_throw-ok,
  throw_if-ok, sale_not_found, sale_voided, refund_method_not_allowed, ◌>>=◌, on_commit, new_id,
  update,
}
use jenkin_sri_store.Documents.Series.{issue-Issued}
use jenkin_sri_store.Shifts.{Actor, current_shift_id_for}
use jenkin_sri_store.Shifts.Drawer.{require_open_shift_id_for-ok}
use jenkin_sri_store.Sales.Ledger.{CustomerAfter, MechanicAfter}
use jenkin_sri_store.Sales.Void.{mark_voided, stamped_void}
use jenkin_sri_store.Sales.Void.Undo.{ledger_hooks-ok}
use jenkin_sri_store.Sales.Restock.Added.{Added, restock-Added}
use jenkin_sri_store.Returns.Request.{CreateReturn, aggregate}
use jenkin_sri_store.Returns.Amounts.{RefundAmounts, refund_amounts}
use jenkin_sri_store.Returns.Guard.{lock_sale, sold_lines, refunded_lines}
use jenkin_sri_store.Returns.Guard.Within.{Fits, assert_refundable-Fits}
use jenkin_sri_store.Returns.Ledger.{reverse_customer, reverse_mechanic}
use jenkin_sri_store.Returns.Create.{
  CreateReturnResult, not_allowed, stamp, insert_return, return_row, return_items_from,
  insert_lines, by_product, restore_stock, all_back, void_if, auto_void, create_return,
}

lock_sale-ok :
    (id : RowId) (s : Db) {sale : Sale} {t : Db}
    → lock_sale id s ≡ ok (sale, t)
    → (s.sales id ≡ some sale) × (sale.voided ≡ false) × (t ≡ s)
unfolding lock_sale
lock_sale-ok id s {sale} {t} h = ran _ _ _ h λ row a ea k. ran _ _ _ k λ x b eb k.
    ran _ _ _ k λ u c ec k.
      let (found, b_same) = or_throw-ok row sale_not_found a eb in
      let (live, c_same) = throw_if-ok x.voided sale_voided b ec in
      let same : x ≡ sale = cc in (cc, rw (sym same) live, cc)

stamp-ok :
    (device : RowId) (method : RefundMethod) (s : Db) {o : Option RowId} {t : Db}
    → stamp device method s ≡ ok (o, t)
    → t ≡ s
unfolding current_shift_id_for
stamp-ok device RefundMethod.cash s h =
    ran _ _ _ h λ id a ea k. let (same, opened) = require_open_shift_id_for-ok device s ea in cc
stamp-ok device RefundMethod.transfer s h = cc
stamp-ok device RefundMethod.deduct_from_credit s h = cc

reverse_customer-ok :
    (id : Option RowId) (sale : Sale) (money : RefundAmounts) (s : Db) {o : Option CustomerAfter}
    {t : Db}
    → reverse_customer id sale money s ≡ ok (o, t)
    → t ≡ record s { customers = t.customers }
unfolding reverse_customer
reverse_customer-ok none sale money s h = ground arith
reverse_customer-ok (some id) sale money s h = ground arith

reverse_mechanic-ok :
    (id : Option RowId) (sale : Sale) (locked : Option _) (method : RefundMethod)
    (money : RefundAmounts) (s : Db) {o : Option MechanicAfter} {t : Db}
    → reverse_mechanic id sale locked method money s ≡ ok (o, t)
    → t ≡ record s { mechanics = t.mechanics }
unfolding reverse_mechanic
reverse_mechanic-ok none sale locked method money s h = ground arith
reverse_mechanic-ok (some id) sale none method money s h = ground arith
reverse_mechanic-ok (some id) sale (some m) method money s h = ground arith

void_if-ok :
    (b : Bool) (id : RowId) (s : Db) {v : Bool} {t : Db}
    → void_if b id s ≡ ok (v, t)
    → (v ≡ b)
      × (t ≡ record s { sales = if b then update id (stamped_void s.now) s.sales else s.sales })
unfolding mark_voided ◌>>=◌
void_if-ok false id s h = (cc, ground arith)
void_if-ok true id s h = (ground arith, ground arith)

insert_return-ok :
    (id : RowId) (cn_no : List ℕ) (dto : CreateReturn) (sale : Sale) (money : RefundAmounts)
    (shift : Option RowId) (s : Db) {row : Return} {t : Db}
    → insert_return id cn_no dto sale money shift s ≡ ok (row, t)
    → (row ≡ return_row id cn_no dto sale money shift s.now)
      × (t ≡ record s { returns = s.returns ++ row ∷ [] })
unfolding insert_return ◌>>=◌
insert_return-ok id cn_no dto sale money shift s h = (ground arith, ground arith)

auto_void-ok :
    (id : RowId) (sold : List SaleItem) (s : Db) {v : Bool} {t : Db}
    → auto_void id sold s ≡ ok (v, t)
    → (v ≡ all_back sold (refunded_lines id s.return_items))
      × (t ≡ record s { sales = if v then update id (stamped_void s.now) s.sales else s.sales })
unfolding auto_void
auto_void-ok id sold s {v} {t} h = ran _ _ _ h λ refunded a ea k.
    let same : a ≡ s = cc in
    let (decided, wrote) = void_if-ok (all_back sold refunded) id a k in
    (cc, rw (decided, sym same) wrote)

-- What a credit note that was written leaves behind.
pub record Credited (dto : CreateReturn) (s : Db) (r : CreateReturnResult) (t : Db) : Type 0 where
  pub sale : Sale
  pub found : s.sales dto.sale_id ≡ some sale
  pub live : sale.voided ≡ false
  pub allowed : not_allowed dto.refund_method sale.mechanic_id ≡ false
  pub fits :
      All
        (Fits (sold_lines dto.sale_id s.sale_items) (refunded_lines dto.sale_id s.return_items))
        (aggregate dto.items)
  pub id : RowId
  pub lined :
      t.return_items
      ≡ s.return_items
        ++ return_items_from id dto.sale_id 1
            (sold_lines dto.sale_id s.sale_items)
            (aggregate dto.items)
  pub headed : t.returns ≡ s.returns ++ r.header ∷ []
  pub subtotal :
      r.header.refund_subtotal ≡ (refund_amounts (aggregate dto.items) sale).refund_subtotal
  pub discount :
      r.header.refund_discount ≡ (refund_amounts (aggregate dto.items) sale).refund_discount
  pub total : r.header.refund_total ≡ (refund_amounts (aggregate dto.items) sale).refund_total
  pub sold_kept : t.sale_items ≡ s.sale_items
  pub back_at : Db
  pub back_start : (back_at.products ≡ s.products) × (back_at.movements ≡ s.movements)
  pub back_end : Db
  pub back_done : (t.products ≡ back_end.products) × (t.movements ≡ back_end.movements)
  pub restocked : Added (by_product (aggregate dto.items) []) back_at back_end
  pub decided :
      r.sale_voided
      ≡ all_back (sold_lines dto.sale_id s.sale_items) (refunded_lines dto.sale_id t.return_items)
  pub only : t ≡ record s {
    products = t.products;
    movements = t.movements;
    sales = t.sales;
    returns = t.returns;
    return_items = t.return_items;
    customers = t.customers;
    mechanics = t.mechanics;
    doc_counters = t.doc_counters;
    next_id = t.next_id;
    hooks = t.hooks;
  }
  pub flagged :
      t.sales ≡ (if r.sale_voided then update dto.sale_id (stamped_void s.now) s.sales else s.sales)

pub create_return-Credited :
    (dto : CreateReturn) (actor : Actor) (s : Db) {r : CreateReturnResult} {t : Db}
    → create_return dto actor s ≡ ok (r, t)
    → Credited dto s r t
unfolding create_return insert_lines restore_stock new_id on_commit return_row
create_return-Credited dto actor s {r} {t} h = ran _ _ _ h λ sale a ea k. ran _ _ _ k λ u1 b eb k.
    ran _ _ _ k λ sold c ec k. ran _ _ _ k λ refunded d ed k. ran _ _ _ k λ u2 e ee k.
      ran _ _ _ k λ shift f ef k. ran _ _ _ k λ mechanic g eg k. ran _ _ _ k λ cn_no i ei k.
        ran _ _ _ k λ id j ej k. ran _ _ _ k λ header l el k. ran _ _ _ k λ items m em k.
          ran _ _ _ k λ moved n en k. ran _ _ _ k λ customer p ep k. ran _ _ _ k λ after q eq k.
            ran _ _ _ k λ voided v ev k. ran _ _ _ k λ u3 w ew k. ran _ _ _ k λ u4 z ez k.
              let (found, live, a_same) = lock_sale-ok dto.sale_id s ea in
              let (allowed, b_same) = throw_if-ok _ refund_method_not_allowed a eb in
              let c_same : c ≡ s = cc in
              let d_same : d ≡ s = cc in
              let (fits, e_same) =
                assert_refundable-Fits (aggregate dto.items) sold refunded d ee in
              let f_same = stamp-ok actor.device_id dto.refund_method e ef in
              let g_same : g ≡ s = cc in
              let issued = (issue-Issued actor.device_id DocType.cn g ei).only_counters in
              let money = refund_amounts (aggregate dto.items) sale in
              let (row, headed) = insert_return-ok id cn_no dto sale money shift j el in
              let restocked =
                restock-Added MovementType.return id (by_product (aggregate dto.items) []) m en in
              let p_only = reverse_customer-ok sale.customer_id sale money n ep in
              let q_only =
                reverse_mechanic-ok sale.mechanic_id sale mechanic dto.refund_method money p eq in
              let (decided, v_only) = auto_void-ok dto.sale_id sold q ev in
              let hooked = ledger_hooks-ok sale v ew in
              let q_items : q.return_items ≡ t.return_items = cc (restocked.only) in
              let q_sales : q.sales ≡ s.sales = cc (restocked.only) in
              let q_now : q.now ≡ s.now = cc (restocked.only) in
              let answer : r.sale_voided ≡ voided = cc in
              let answer_header : r.header ≡ header = cc in
              let sold_at_s : sold ≡ sold_lines dto.sale_id s.sale_items = cc in
              let back_at_s : refunded ≡ refunded_lines dto.sale_id s.return_items = cc in
              let t_sales : t.sales ≡ v.sales = cc in
              record {
                sale = sale;
                found = found;
                live = live;
                allowed = allowed;
                fits = rw (sym sold_at_s, sym back_at_s) fits;
                id = id;
                lined = cc (restocked.only);
                headed = cc (restocked.only);
                subtotal = cc;
                discount = cc;
                total = cc;
                sold_kept = cc (restocked.only);
                back_at = m;
                back_start = (cc, cc);
                back_end = n;
                back_done = (cc, cc);
                restocked = restocked;
                only = cc (restocked.only);
                decided = rw (answer, sym q_items, sym sold_at_s) decided;
                flagged =
                    rw (t_sales, answer, sym q_sales, sym q_now) (ap (λ (y : Db). y.sales) v_only);
              }
