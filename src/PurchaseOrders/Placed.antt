-- ===== src/PurchaseOrders/Placed.antt =====
-- A purchase order from its placing to the receipt of its goods.
use jenkin_sri_store.Prelude.{
  ℕ, suc, ◌+◌, ◌≡◌, ◌≢◌, none, Option-cases, inl, inr, refl, ◌∙◌, arith, List, [], ◌∷◌, ◌++◌, ◌==◌,
  ==_refl, sum_by, keep, keep-append,
}
use jenkin_sri_store.Store.{
  Text, RowId, PoLine, PurchaseOrder, put, put_ne, DocType, Db, ok, ran, new_id,
}
use jenkin_sri_store.Documents.Series.{issue-Issued}
use jenkin_sri_store.Shifts.{Actor}
use jenkin_sri_store.Sales.Stock.Deduction.{stock_of}
use jenkin_sri_store.PurchaseOrders.{
  PoLineCreate, PoCreate, PurchaseOrderOut, new_po, numbered, insert_po, to_purchase_order,
  create_po,
}
use jenkin_sri_store.PurchaseOrders.Receipt.{ReceiveResult, receive_po}
use jenkin_sri_store.PurchaseOrders.Receipt.Runnings.{OneRow, product_of}
use jenkin_sri_store.PurchaseOrders.Receipt.Applied.{landed, brought}
use jenkin_sri_store.PurchaseOrders.Receipt.Received.{receive_po_adds, ordered}

-- What a line of the request asks for of a product.
abbrev pub line_brings : (Text → Text) → Db → RowId → PoLineCreate → ℕ
line_brings lower s p l = landed (product_of lower l.part_no s.product_ids s.products) p l.qty

numbered-brings :
    (lower : Text → Text) (s : Db) (p id n : ℕ) (items : List PoLineCreate)
    → sum_by
        (brought lower s.product_ids s.products p)
        (keep (λ (l : PoLine). l.po_id == id) (numbered id n items))
      ≡ sum_by (line_brings lower s p) items
unfolding numbered sum_by keep
numbered-brings lower s p id n [] = refl
numbered-brings lower s p id n (l ∷ ls) =
    rw (==_refl id, numbered-brings lower s p id (suc n) ls) refl

-- What placing an order writes.
pub record Placed (input : PoCreate) (s : Db) (o : PurchaseOrderOut) (t : Db) : Type 0 where
  pub id : o.id ≡ s.next_id
  pub lined : t.po_items ≡ s.po_items ++ numbered s.next_id 1 input.items
  pub fresh : s.purchase_orders s.next_id ≡ none
  pub others : (k : RowId) → s.next_id ≢ k → t.purchase_orders k ≡ s.purchase_orders k
  pub only : t ≡ record s {
    purchase_orders = t.purchase_orders;
    po_items = t.po_items;
    doc_counters = t.doc_counters;
    next_id = t.next_id;
  }

insert_po-ok :
    (id : RowId) (po : PurchaseOrder) (lines : List PoLine) (s : Db) {u : Unit {0}} {t : Db}
    → insert_po id po lines s ≡ ok (u, t)
    → (s.purchase_orders id ≡ none)
      × (t ≡ record s {
        purchase_orders = put id po s.purchase_orders;
        po_items = s.po_items ++ lines;
      })
unfolding insert_po
insert_po-ok id po lines s h = elim (Option-cases (s.purchase_orders id)) [
  | inl e ↦ (e, ground arith)
  | inr (x, e) ↦ absurd (ground arith)
]

pub create_po-Placed :
    (input : PoCreate) (device : RowId) (s : Db) {o : PurchaseOrderOut} {t : Db}
    → create_po input device s ≡ ok (o, t)
    → Placed input s o t
unfolding create_po new_id to_purchase_order
create_po-Placed input device s {o} {t} h = ran _ _ _ h λ number a ea k. ran _ _ _ k λ id b eb k.
    ran _ _ _ k λ now c ec k. ran _ _ _ k λ u d ed k.
      let counted = (issue-Issued device DocType.po s ea).only_counters in
      let next : a.next_id ≡ s.next_id = cc in
      let id_at : id ≡ s.next_id = cc in
      let (fresh, wrote) =
        insert_po-ok id (new_po number input.supplier now) (numbered id 1 input.items) c ed in
      let orders : c.purchase_orders ≡ s.purchase_orders = cc in
      let t_orders : t.purchase_orders
          ≡ put s.next_id (new_po number input.supplier now) s.purchase_orders =
        cc in
      record {
        id = cc;
        lined = cc;
        fresh = cc;
        others = λ k ne. rw t_orders (put_ne s.next_id k _ s.purchase_orders ne);
        only = cc;
      }

-- Goods that are ordered and then received bring each product exactly the quantities that the
-- request names it for, letters' case aside. The order's new id has no lines yet, and a key is no
-- two rows of the products.
pub create_po-receive_po :
    (lower : Text → Text) (input : PoCreate) (device : RowId) (actor : Actor) (s : Db) (p : RowId)
    {o : PurchaseOrderOut} {t : Db} {r : ReceiveResult} {u : Db}
    → OneRow s.product_ids
    → keep (λ (l : PoLine). l.po_id == s.next_id) s.po_items ≡ []
    → create_po input device s ≡ ok (o, t)
    → receive_po lower o.id actor t ≡ ok (r, u)
    → stock_of (u.products p) ≡ stock_of (s.products p) + sum_by (line_brings lower s p) input.items
create_po-receive_po lower input device actor s p {o} {t} {r} {u} one fresh h k =
    let w = create_po-Placed input device s h in
    let ids : t.product_ids ≡ s.product_ids = cc (w.only) in
    let products : t.products ≡ s.products = cc (w.only) in
    let adds = receive_po_adds lower o.id actor t p (rw ids one) k in
    let kept : keep (λ (l : PoLine). l.po_id == s.next_id) t.po_items
        ≡ keep (λ (l : PoLine). l.po_id == s.next_id) (numbered s.next_id 1 input.items) =
      rw
        (
          w.lined,
          keep-append (λ (l : PoLine). l.po_id == s.next_id) s.po_items
              (numbered s.next_id 1 input.items),
          fresh,
        )
        refl in
    let amount : ordered lower o.id t p ≡ sum_by (line_brings lower s p) input.items =
      rw (w.id, kept, ids, products) (numbered-brings lower s p s.next_id 1 input.items) in
    adds ∙ rw (amount, products) refl
