-- ===== src/Returns/Create/Refunds.antt =====
-- The refunds, the stock and the bill after a credit note.
use jenkin_sri_store.Prelude.{
  ℕ, suc, ◌+◌, ◌≤◌, ◌≡◌, refl, sym, ap, ◌∙◌, arith, true, false, Option, List, [], ◌∷◌, ◌++◌, inl,
  inr, Bool-cases, if◌then◌else◌, ◌==◌, sum_by, sum_by-append, sum_by-sort_by, keep, keep-append,
}
use jenkin_sri_store.Store.{RowId, SaleItem, ReturnItem, Db, ok, is_some}
use jenkin_sri_store.Shifts.{Actor}
use jenkin_sri_store.Sales.Stock.Deduction.{stock_of}
use jenkin_sri_store.Sales.Movements.{in_qty, out_qty, IsBalanced}
use jenkin_sri_store.Sales.Restock.{Restock, add_restock}
use jenkin_sri_store.Sales.Restock.Added.{restock_qty, add_restock-qty}
use jenkin_sri_store.Returns.Request.{
  ReturnLine, CreateReturn, Demand, add_line, add_lines, aggregate,
}
use jenkin_sri_store.Returns.Guard.{sold_for, back_for, sold_lines, refunded_lines}
use jenkin_sri_store.Returns.Guard.Within.{demand_for, aggregate-IsDistinct, Fits-sum}
use jenkin_sri_store.Returns.Create.{
  CreateReturnResult, return_item, return_items_from, by_product, create_return,
}
use jenkin_sri_store.Returns.Create.Written.{create_return-Credited}

-- No bill has had more come back, of a product at a price, than it sold of it.
pub record IsWithin (s : Db) : Type 0 where
  pub within :
      (id p c : RowId)
      → sum_by (back_for p c) (refunded_lines id s.return_items)
        ≤ sum_by (sold_for p c) (sold_lines id s.sale_items)

items_for :
    (p c : ℕ) (id sale_id n : ℕ) (sold : List SaleItem) (ds : List Demand)
    → sum_by (back_for p c) (return_items_from id sale_id n sold ds) ≡ sum_by (demand_for p c) ds
unfolding sum_by return_items_from return_item
items_for p c id sale_id n sold [] = refl
items_for p c id sale_id n sold (d ∷ ds) = ground (arith, items_for p c id sale_id (suc n) sold ds)

items_of_other :
    (other : ℕ) (id sale_id n : ℕ) (sold : List SaleItem) (ds : List Demand)
    → (sale_id == other) ≡ false
    → refunded_lines other (return_items_from id sale_id n sold ds) ≡ []
unfolding refunded_lines keep return_items_from return_item
items_of_other other id sale_id n sold [] h = refl
items_of_other other id sale_id n sold (d ∷ ds) h =
    ground (arith, h, items_of_other other id sale_id (suc n) sold ds h)

items_of_sale :
    (id sale_id n : ℕ) (sold : List SaleItem) (ds : List Demand)
    → refunded_lines sale_id (return_items_from id sale_id n sold ds)
      ≡ return_items_from id sale_id n sold ds
unfolding refunded_lines keep return_items_from return_item
items_of_sale id sale_id n sold [] = refl
items_of_sale id sale_id n sold (d ∷ ds) = ground (arith, items_of_sale id sale_id (suc n) sold ds)

refunded-append :
    (id : RowId) (xs ys : List ReturnItem)
    → refunded_lines id (xs ++ ys) ≡ refunded_lines id xs ++ refunded_lines id ys
unfolding refunded_lines
refunded-append id xs ys = keep-append (λ (i : ReturnItem). i.sale_id == id) xs ys

-- If no bill has had more come back of a product, at a price, than it sold at that price, over all
-- its credit notes, then a credit note that is written leaves it so.
pub create_return-IsWithin :
    (dto : CreateReturn) (actor : Actor) (s : Db) {r : CreateReturnResult} {t : Db}
    → IsWithin s
    → create_return dto actor s ≡ ok (r, t)
    → IsWithin t
create_return-IsWithin dto actor s {r} {t} w h =
    let c = create_return-Credited dto actor s h in
    let ds = aggregate dto.items in
    let sold = sold_lines dto.sale_id s.sale_items in
    let rows = return_items_from c.id dto.sale_id 1 sold ds in
    record {
      within = λ id p q.
          rw
            (
              c.lined,
              c.sold_kept,
              refunded-append id s.return_items rows,
              sum_by-append (back_for p q) (refunded_lines id s.return_items)
                  (refunded_lines id rows),
            )
            (elim (Bool-cases (dto.sale_id == id)) [
              | inl same ↦
                  let here : dto.sale_id ≡ id = ground arith in
                  let one = (aggregate-IsDistinct dto.items).once p q in
                  let fits =
                    Fits-sum p q sold (refunded_lines dto.sale_id s.return_items) ds one
                      (w.within dto.sale_id p q) c.fits in
                  rw
                    (
                      sym here,
                      items_of_sale c.id dto.sale_id 1 sold ds,
                      items_for p q c.id dto.sale_id 1 sold ds,
                    )
                    (omega (arith, fits))
              | inr other ↦
                  rw (items_of_other id c.id dto.sale_id 1 sold ds other)
                    (unfold sum_by in omega (arith, w.within id p q))
            ]);
    }

-- How much of a product the demands, and the lines of a credit note, take back.
abbrev pub demand_of : RowId → Demand → ℕ
demand_of p d = if d.product_id == p then d.qty else 0

abbrev pub line_of : RowId → ReturnLine → ℕ
line_of p l = if l.product_id == p then l.qty else 0

add_line-of :
    (p i : ℕ) (line : ReturnLine) (ds : List Demand)
    → sum_by (demand_of p) (add_line i line ds) ≡ line_of p line + sum_by (demand_of p) ds
unfolding add_line sum_by
add_line-of p i line [] = refl
add_line-of p i line (d ∷ ds) = ground (arith, add_line-of p i line ds)

add_lines-of :
    (p i : ℕ) (lines : List ReturnLine) (ds : List Demand)
    → sum_by (demand_of p) (add_lines i lines ds)
      ≡ sum_by (line_of p) lines + sum_by (demand_of p) ds
unfolding add_lines sum_by
add_lines-of p i [] ds = omega arith
add_lines-of p i (line ∷ lines) ds =
    omega (arith, add_lines-of p (suc i) lines (add_line i line ds), add_line-of p i line ds)

aggregate-of :
    (p : ℕ) (items : List ReturnLine)
    → sum_by (demand_of p) (aggregate items) ≡ sum_by (line_of p) items
unfolding aggregate
aggregate-of p items =
    sum_by-sort_by (demand_of p) _ (add_lines 0 items [])
    ∙ (add_lines-of p 0 items [] ∙ (unfold sum_by in omega arith))

by_product-of :
    (p : ℕ) (ds : List Demand) (rs : List Restock)
    → sum_by (restock_qty p) (by_product ds rs)
      ≡ sum_by (demand_of p) ds + sum_by (restock_qty p) rs
unfolding by_product sum_by
by_product-of p [] rs = omega arith
by_product-of p (d ∷ ds) rs = omega (
  arith,
  by_product-of p ds (add_restock d.product_id d.qty rs),
  add_restock-qty p d.product_id d.qty rs,
)

-- What goes back on the shelf is what the lines of the credit note ask for, product by product.
back_qty :
    (p : ℕ) (items : List ReturnLine)
    → sum_by (restock_qty p) (by_product (aggregate items) []) ≡ sum_by (line_of p) items
back_qty p items =
    by_product-of p (aggregate items) [] ∙ (unfold sum_by in omega (arith, aggregate-of p items))

-- A credit note puts back of each product exactly what its lines take back, if the product has a
-- row.
pub create_return_restocks :
    (dto : CreateReturn) (actor : Actor) (s : Db) (p : RowId) {r : CreateReturnResult} {t : Db}
    → is_some (s.products p) ≡ true
    → create_return dto actor s ≡ ok (r, t)
    → stock_of (t.products p) ≡ stock_of (s.products p) + sum_by (line_of p) dto.items
create_return_restocks dto actor s p there h =
    let c = create_return-Credited dto actor s h in
    let stock = c.restocked.stock p in
    let before = ap (λ (f : RowId → Option _). f p) c.back_start.0 in
    let after = ap (λ (f : RowId → Option _). f p) c.back_done.0 in
    rw (after, stock, before, there, back_qty p dto.items) refl

-- If the movements account for the stock of every product, then they do after a credit note that
-- was written.
pub create_return-IsBalanced :
    (opening : RowId → ℕ) (dto : CreateReturn) (actor : Actor) (s : Db) {r : CreateReturnResult}
    {t : Db}
    → IsBalanced opening s
    → create_return dto actor s ≡ ok (r, t)
    → IsBalanced opening t
create_return-IsBalanced opening dto actor s {r} {t} b h =
    let c = create_return-Credited dto actor s h in
    let a = c.restocked in
    record {
      accounted = λ p.
          let stock = a.stock p in
          rw (c.back_done.0, c.back_done.1)
            (omega (
              arith,
              b.accounted p,
              a.stock p,
              a.ins p,
              a.outs p,
              ap (λ (f : RowId → Option _). stock_of (f p)) c.back_start.0,
              ap (sum_by (in_qty p)) c.back_start.1,
              ap (sum_by (out_qty p)) c.back_start.1,
            ));
    }
