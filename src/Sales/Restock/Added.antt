-- ===== src/Sales/Restock/Added.antt =====
-- What putting goods back adds to the stock and to the ledger.
use jenkin_sri_store.Prelude.{
  ℕ, ◌+◌, ◌≡◌, refl, arith, Option, List, [], ◌∷◌, ◌++◌, ◌==◌, if◌then◌else◌, sum_by, sum_by-append,
  Option-cases, inl, inr,
}
use jenkin_sri_store.Store.{
  RowId, Product, Movement, MovementType, Table, Db, ok, ran, is_some, each,
}
use jenkin_sri_store.Sales.Stock.Deduction.{stock_of}
use jenkin_sri_store.Sales.Movements.{
  in_qty, out_qty, ledger_stock, Posted, Posted-same, Posted-trans,
}
use jenkin_sri_store.Sales.Restock.{
  Restock, restock_movement, restocked, add_restock, restock_one, restock,
}

abbrev pub restock_qty : RowId → Restock → ℕ
restock_qty p r = if r.product_id == p then r.qty else 0

pub add_restock-qty :
    (p id qty : ℕ) (rs : List Restock)
    → sum_by (restock_qty p) (add_restock id qty rs)
      ≡ (if id == p then qty else 0) + sum_by (restock_qty p) rs
unfolding add_restock sum_by
add_restock-qty p id qty [] = ground arith
add_restock-qty p id qty (r ∷ rs) = ground (arith, add_restock-qty p id qty rs)

-- What a product gains, which is nothing if it has no row.
abbrev pub gained : RowId → Table Product → ℕ → ℕ
gained p products n = if is_some (products p) then n else 0

-- What putting the goods back did.
pub record Added (rs : List Restock) (s t : Db) : Type 0 where
  pub stock :
      (p : RowId)
      → stock_of (t.products p)
        ≡ stock_of (s.products p) + gained p s.products (sum_by (restock_qty p) rs)
  pub rows : (p : RowId) → is_some (t.products p) ≡ is_some (s.products p)
  pub ins :
      (p : RowId)
      → sum_by (in_qty p) t.movements
        ≡ sum_by (in_qty p) s.movements + gained p s.products (sum_by (restock_qty p) rs)
  pub outs : (p : RowId) → sum_by (out_qty p) t.movements ≡ sum_by (out_qty p) s.movements
  pub posted : Posted s t
  pub only : t ≡ record s { products = t.products; movements = t.movements; next_id = t.next_id }

restock_one-Added :
    (type : MovementType) (ref : RowId) (r : Restock) (s : Db) {o : Option Movement} {t : Db}
    → restock_one type ref r s ≡ ok (o, t)
    → Added (r ∷ []) s t
unfolding restock_one restock_movement sum_by ledger_stock
restock_one-Added type ref r s {o} {t} h = elim (Option-cases (s.products r.product_id)) [
  | inl missing ↦
      let same : t ≡ s = ground arith in
      record {
        stock = λ p. ground arith;
        rows = λ p. ground arith;
        ins = λ p. ground arith;
        outs = λ p. ground arith;
        posted = Posted-same (cc) (cc);
        only = rw same refl;
      }
  | inr (row, found) ↦
      let m = restock_movement s.next_id type ref r (restocked r.qty row) s.now in
      let moved : t.movements ≡ s.movements ++ m ∷ [] = ground arith in
      record {
        stock = λ p. ground arith;
        rows = λ p. ground arith;
        ins = λ p. rw (moved, sum_by-append (in_qty p) s.movements (m ∷ [])) (ground arith);
        outs = λ p. rw (moved, sum_by-append (out_qty p) s.movements (m ∷ [])) (ground arith);
        posted = record { rows = m ∷ []; appended = moved; stock = λ p. ground arith };
        only = ground arith;
      }
]

pub restock-Added :
    (type : MovementType) (ref : RowId) (rs : List Restock) (s : Db) {out : List (Option Movement)}
    {t : Db}
    → restock type ref rs s ≡ ok (out, t)
    → Added rs s t
unfolding restock each sum_by
restock-Added type ref [] s {out} {t} h =
    let same : t ≡ s = cc in
    record {
      stock = λ p. ground arith;
      rows = λ p. ground arith;
      ins = λ p. ground arith;
      outs = λ p. ground arith;
      posted = Posted-same (cc) (cc);
      only = rw same refl;
    }
restock-Added type ref (r ∷ rs) s {out} {t} h = ran _ _ _ h λ o u e k. ran _ _ _ k λ os v e' k'.
    let a = restock_one-Added type ref r s e in
    let b = restock-Added type ref rs u e' in
    let same : t ≡ v = cc in
    rw same (record {
      stock = λ p. ground (arith, a.stock p, a.rows p, b.stock p);
      rows = λ p. ground (arith, a.rows p, b.rows p);
      ins = λ p. ground (arith, a.ins p, a.rows p, b.ins p);
      outs = λ p. ground (arith, a.outs p, b.outs p);
      posted = Posted-trans a.posted b.posted;
      only = cc (a.only, b.only);
    })
