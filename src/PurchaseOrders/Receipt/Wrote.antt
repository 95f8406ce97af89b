-- ===== src/PurchaseOrders/Receipt/Wrote.antt =====
-- What writing the touched products does to the stock and to the ledger.
use jenkin_sri_store.Prelude.{
  ◌+◌, ◌≡◌, ◌≢◌, refl, ◌∙◌, arith, All, List, [], ◌∷◌, ◌++◌, sum_by, Option-cases, inl, inr,
}
use jenkin_sri_store.Store.{
  RowId, Product, Movement, PurchaseOrder, Table, is_some, Db, ok, ran, each,
}
use jenkin_sri_store.Sales.Stock.Deduction.{stock_of}
use jenkin_sri_store.Sales.Movements.{ledger_stock, Posted, Posted-same, Posted-trans}
use jenkin_sri_store.PurchaseOrders.Receipt.{Running, receive_movement, write_product}
use jenkin_sri_store.PurchaseOrders.Receipt.Runnings.{count_of, delta_of, OneEach, Tells}

-- What the writes of some products did.
pub record Wrote (rs : List Running) (s t : Db) : Type 0 where
  pub stock :
      (p : RowId) → stock_of (t.products p) ≡ stock_of (s.products p) + sum_by (delta_of p) rs
  pub rows : (p : RowId) → is_some (t.products p) ≡ is_some (s.products p)
  pub posted : Posted s t
  pub only : t ≡ record s { products = t.products; movements = t.movements; next_id = t.next_id }

write_product-Wrote :
    (id : RowId) (po : PurchaseOrder) (r : Running) (s : Db) {m : Movement} {t : Db}
    → Tells s.products r
    → write_product id po r s ≡ ok (m, t)
    → Wrote (r ∷ []) s t × ((p : RowId) → r.id ≢ p → t.products p ≡ s.products p)
unfolding write_product receive_movement sum_by ledger_stock
write_product-Wrote id po r s {m} {t} tells h = elim (Option-cases (s.products r.id)) [
  | inl missing ↦ absurd (ground (arith, tells.row))
  | inr (row, found) ↦
      let mv = receive_movement s.next_id id po r s.now in
      let moved : t.movements ≡ s.movements ++ mv ∷ [] = ground arith in
      (
        record {
          stock = λ p. ground (arith, tells.stock);
          rows = λ p. ground arith;
          posted = record {
            rows = mv ∷ [];
            appended = moved;
            stock = λ p. ground (arith, tells.stock);
          };
          only = ground arith;
        },
        λ p ne. ground arith,
      )
]

-- Writing one product leaves what is told of the others.
Tells-rest :
    (k : RowId) (before after : Table Product) (rs : List Running)
    → ((p : RowId) → k ≢ p → after p ≡ before p)
    → sum_by (count_of k) rs ≡ 0
    → All (Tells before) rs
    → All (Tells after) rs
unfolding sum_by
Tells-rest k before after [] same h all = tt
Tells-rest k before after (r ∷ rs) same h (one, all) =
    let other : k ≢ r.id = ground arith in
    let row : after r.id ≡ before r.id = same r.id other in
    (
      record { row = rw row one.row; stock = rw row one.stock },
      Tells-rest k before after rs same (ground arith) all,
    )

pub write_products-Wrote :
    (id : RowId) (po : PurchaseOrder) (rs : List Running) (s : Db) {ms : List Movement} {t : Db}
    → All (Tells s.products) rs
    → OneEach rs
    → each (write_product id po) rs s ≡ ok (ms, t)
    → Wrote rs s t
unfolding each sum_by
write_products-Wrote id po [] s {ms} {t} told once h =
    let same : t ≡ s = cc in
    rw same (record {
      stock = λ p. omega arith;
      rows = λ p. refl;
      posted = Posted-same refl refl;
      only = refl;
    })
write_products-Wrote id po (r ∷ rs) s {ms} {t} (one, told) once h = ran _ _ _ h λ m u e k.
    ran _ _ _ k λ os v e' k'.
      let (a, others) = write_product-Wrote id po r s one e in
      let alone : sum_by (count_of r.id) rs ≡ 0 = ground (arith, once r.id) in
      let rest : OneEach rs = λ p. ground (arith, once p) in
      let b =
        write_products-Wrote id po rs u (Tells-rest r.id s.products u.products rs others alone told)
          rest e' in
      let same : t ≡ v = cc in
      rw same (record {
        stock = λ p. ground (arith, a.stock p, b.stock p);
        rows = λ p. b.rows p ∙ a.rows p;
        posted = Posted-trans a.posted b.posted;
        only = cc (a.only, b.only);
      })
