-- ===== src/PurchaseOrders/Receipt/Received.antt =====
-- What a receipt of goods that returned has written.
use jenkin_sri_store.Prelude.{
  ℕ, ◌+◌, ◌≡◌, refl, sym, ◌∙◌, arith, false, some, List, [], ◌∷◌, ◌==◌, sum_by, sum_by-sort_by,
  keep,
}
use jenkin_sri_store.Store.{
  Text, RowId, PoStatus, PurchaseOrder, update, is_some, Db, ok, ran, or_throw-ok, throw_if-ok,
  on_commit, po_not_found, po_already_received, po_cancelled,
}
use jenkin_sri_store.Shifts.{Actor}
use jenkin_sri_store.Sales.Stock.Deduction.{stock_of}
use jenkin_sri_store.Sales.Movements.{Posted, Posted-view}
use jenkin_sri_store.PurchaseOrders.{is_received, is_cancelled, lines_of_po, lock_po}
use jenkin_sri_store.PurchaseOrders.Receipt.{
  Running, ReceiveResult, lock_named, touched_of, mark_received, stamped_receipt,
  invalidate_touched, close_receipt, receive_po,
}
use jenkin_sri_store.PurchaseOrders.Receipt.Runnings.{
  OneRow, Tells, touched_of-sums, touched_of-All,
}
use jenkin_sri_store.PurchaseOrders.Receipt.Applied.{brought, apply_lines-brought}
use jenkin_sri_store.PurchaseOrders.Receipt.Wrote.{write_products-Wrote}

pub lock_po-ok :
    (id : RowId) (s : Db) {po : PurchaseOrder} {t : Db}
    → lock_po id s ≡ ok (po, t)
    → (s.purchase_orders id ≡ some po) × (t ≡ s)
unfolding lock_po
lock_po-ok id s h = or_throw-ok (s.purchase_orders id) po_not_found s h

placed_of : (x : PoStatus) → is_received x ≡ false → is_cancelled x ≡ false → x ≡ PoStatus.placed
placed_of PoStatus.placed h k = refl
placed_of PoStatus.received h k = cc
placed_of PoStatus.cancelled h k = cc

invalidate_touched-ok :
    (rs : List Running) (s : Db) {u : Unit {0}} {t : Db}
    → invalidate_touched rs s ≡ ok (u, t)
    → t ≡ record s { hooks = t.hooks }
unfolding on_commit
invalidate_touched-ok [] s h = ground arith
invalidate_touched-ok (r ∷ rs) s h = ground arith

close_receipt-ok :
    (id : RowId) (actor : Actor) (rs : List Running) (s : Db) {u : Unit {0}} {t : Db}
    → close_receipt id actor rs s ≡ ok (u, t)
    → t ≡ record s { audit_log = t.audit_log; hooks = t.hooks }
unfolding close_receipt
close_receipt-ok id actor rs s h =
    ran _ _ _ h λ a u e k. let hooked = invalidate_touched-ok rs u k in ground arith

-- What a receipt brings of a product: the quantities of the order's lines that land on it.
abbrev pub ordered : (Text → Text) → RowId → Db → RowId → ℕ
ordered lower id s p =
    sum_by (brought lower s.product_ids s.products p) (keep (λ l. l.po_id == id) s.po_items)

pub record Received (lower : Text → Text) (id : RowId) (s t : Db) : Type 0 where
  pub order : PurchaseOrder
  pub found : s.purchase_orders id ≡ some order
  pub placed : order.status ≡ PoStatus.placed
  pub marked : t.purchase_orders ≡ update id (stamped_receipt s.now) s.purchase_orders
  pub stock : (p : RowId) → stock_of (t.products p) ≡ stock_of (s.products p) + ordered lower id s p
  pub rows : (p : RowId) → is_some (t.products p) ≡ is_some (s.products p)
  pub posted : Posted s t
  pub only : t ≡ record s {
    products = t.products;
    movements = t.movements;
    purchase_orders = t.purchase_orders;
    audit_log = t.audit_log;
    next_id = t.next_id;
    hooks = t.hooks;
  }

pub receive_po-Received :
    (lower : Text → Text) (id : RowId) (actor : Actor) (s : Db) {r : ReceiveResult} {t : Db}
    → OneRow s.product_ids
    → receive_po lower id actor s ≡ ok (r, t)
    → Received lower id s t
unfolding receive_po mark_received
receive_po-Received lower id actor s {r} {t} one h = ran _ _ _ h λ po a ea k.
    ran _ _ _ k λ u1 b eb k. ran _ _ _ k λ u2 c ec k. ran _ _ _ k λ lines d ed k.
      ran _ _ _ k λ locked e ee k. ran _ _ _ k λ tally f ef k. ran _ _ _ k λ movements g eg k.
        ran _ _ _ k λ at i ei k. ran _ _ _ k λ u3 j ej k.
          let (found, a_same) = lock_po-ok id s ea in
          let (fresh, b_same) = throw_if-ok (is_received po.status) po_already_received a eb in
          let (live, c_same) = throw_if-ok (is_cancelled po.status) po_cancelled b ec in
          let c_at : c ≡ s = cc in
          let d_at : d ≡ s = cc in
          let e_at : e ≡ s = cc in
          let lines_at : lines ≡ lines_of_po id s.po_items = cc in
          let locked_at : locked
              ≡ lock_named lower (lines_of_po id s.po_items) s.product_ids s.products =
            cc in
          let (f_same, told, once, sums) =
            apply_lines-brought lower s.product_ids s.products (lines_of_po id s.po_items) e
              {t' = tally} {u = f} one (cc) in
          let f_at : f ≡ s = f_same ∙ e_at in
          let touched = touched_of tally.runnings in
          let w =
            write_products-Wrote id po touched f
              (rw f_at (touched_of-All (Tells s.products) tally.runnings told))
              (λ p. omega (arith, once p, (touched_of-sums p tally.runnings).1)) eg in
          let closed = close_receipt-ok id actor touched i ej in
          let total = λ (p : RowId).
            (touched_of-sums p tally.runnings).0
            ∙ sums p
            ∙ sum_by-sort_by (brought lower s.product_ids s.products p) _
                (keep (λ l. l.po_id == id) s.po_items) in
          let t_products : t.products ≡ g.products = cc in
          let t_movements : t.movements ≡ g.movements = cc in
          record {
            order = po;
            found = found;
            placed = placed_of po.status fresh live;
            marked = cc (w.only);
            stock = λ p. rw (t_products, sym (total p), sym f_at) (w.stock p);
            rows = λ p. rw (t_products, sym f_at) (w.rows p);
            posted = Posted-view s t (cc) (cc) t_products t_movements w.posted;
            only = cc (w.only);
          }

-- A receipt that returned brings each product exactly the quantities of the order's lines whose
-- part number, letters' case aside, is the product's, as long as a key is no two rows of the
-- products.
pub receive_po_adds :
    (lower : Text → Text) (id : RowId) (actor : Actor) (s : Db) (p : RowId) {r : ReceiveResult}
    {t : Db}
    → OneRow s.product_ids
    → receive_po lower id actor s ≡ ok (r, t)
    → stock_of (t.products p) ≡ stock_of (s.products p) + ordered lower id s p
receive_po_adds lower id actor s p one h = (receive_po-Received lower id actor s one h).stock p
