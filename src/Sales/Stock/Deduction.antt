-- ===== src/Sales/Stock/Deduction.antt =====
-- What the deduction takes off each product.
use jenkin_sri_store.Prelude.{
  All, true, ℕ, ◌+◌, ◌≡◌, sym, ◌∙◌, subst, ap₂, map, arith, Option, none, some, List, [], ◌∷◌, inl,
  inr, Option-cases, sum_by,
}
use jenkin_sri_store.Store.{RowId, Product, Table, is_some, Db, ok, each, ran}
use jenkin_sri_store.Sales.Request.{Demand}
use jenkin_sri_store.Sales.Request.Demands.{demand_qty, IsDistinct, uncounted}
use jenkin_sri_store.Sales.Stock.{deduct_one, deduct}

-- The stock of a product, none for one with no row.
abbrev pub stock_of : Option Product → ℕ
stock_of none = 0
stock_of (some p) = p.stock

-- Only the products table changed.
abbrev pub OnlyProducts : Db → Db → Type 0
OnlyProducts s t = t ≡ record s { products = t.products }

deduct_one-ok :
    (d : Demand) (s : Db) (y : RowId × ℕ) (t : Db)
    → deduct_one d s ≡ ok (y, t)
    → (OnlyProducts s t)
      × ((p : RowId)
          → (stock_of (t.products p) + demand_qty p d ≡ stock_of (s.products p))
            × (is_some (t.products p) ≡ is_some (s.products p)))
      × (y ≡ (d.product_id, stock_of (t.products d.product_id)))
unfolding deduct_one
deduct_one-ok d s y t h = elim (Option-cases (s.products d.product_id)) [
  | inl missing ↦ absurd (ground arith)
  | inr (row, found) ↦ (ground arith, λ p. (ground arith, ground arith), ground arith)
]

-- A deduction that returned took every demand off its product, touched no other table, and kept the
-- rows there are.
pub deduct-ok :
    (ds : List Demand) (s : Db) {after : List (RowId × ℕ)} {t : Db}
    → deduct ds s ≡ ok (after, t)
    → (OnlyProducts s t)
      × ((p : RowId)
          → (stock_of (t.products p) + sum_by (demand_qty p) ds ≡ stock_of (s.products p))
            × (is_some (t.products p) ≡ is_some (s.products p)))
unfolding deduct each sum_by
deduct-ok [] s {after} {t} h = (ground arith, λ p. (ground arith, ground arith))
deduct-ok (d ∷ ds) s {after} {t} h = ran _ _ _ h λ y u e k. ran _ _ _ k λ rest v e' k'.
    let (only, took, left) = deduct_one-ok d s y u e in
    let (only', took') = deduct-ok ds u (unfold deduct in e') in
    let same : t ≡ v = ground arith in
    (
      rw same (ground arith),
      λ p. rw same (omega (arith, (took p).0, (took' p).0), (took' p).1 ∙ (took p).1),
    )

-- A product of a demand, with the stock that it has.
abbrev pub left_of : Table Product → Demand → RowId × ℕ
left_of products d = (d.product_id, stock_of (products d.product_id))

-- The stock reported of each product is what it has in the end.
pub deduct-after :
    (ds : List Demand) (s : Db) {after : List (RowId × ℕ)} {t : Db}
    → IsDistinct ds
    → deduct ds s ≡ ok (after, t)
    → after ≡ map (left_of t.products) ds
unfolding deduct each sum_by
deduct-after [] s one h = ground arith
deduct-after (d ∷ ds) s {after} {t} one h = ran _ _ _ h λ y u e k. ran _ _ _ k λ rest v e' k'.
    let (only, took, left) = deduct_one-ok d s y u e in
    let distinct : IsDistinct ds = record { once = λ p. omega (arith, one.once p) } in
    let ih = deduct-after ds u distinct e' in
    let (only', took') = deduct-ok ds u e' in
    let zero_left : sum_by (demand_qty d.product_id) ds ≡ 0 =
      uncounted d.product_id ds (ground (arith, one.once d.product_id)) in
    let kept : stock_of (v.products d.product_id) ≡ stock_of (u.products d.product_id) =
      omega (arith, (took' d.product_id).0) in
    let out : after ≡ y ∷ rest = cc in
    let same : t ≡ v = cc in
    let reported : y ∷ rest ≡ map (left_of v.products) (d ∷ ds) = ap₂ ◌∷◌ (rw kept left) ih in
    subst (λ (w : Db). after ≡ map (left_of w.products) (d ∷ ds)) (sym same) (rw out reported)

deduct_one-row :
    (d : Demand) (s : Db) {y : RowId × ℕ} {t : Db}
    → deduct_one d s ≡ ok (y, t)
    → is_some (t.products d.product_id) ≡ true
unfolding deduct_one
deduct_one-row d s h = elim (Option-cases (s.products d.product_id)) [
  | inl missing ↦ absurd (ground arith)
  | inr (row, found) ↦ ground arith
]

-- Every product that was demanded has a row.
pub deduct-rows :
    (ds : List Demand) (s : Db) {after : List (RowId × ℕ)} {t : Db}
    → deduct ds s ≡ ok (after, t)
    → All (λ (d : Demand). is_some (t.products d.product_id) ≡ true) ds
unfolding deduct each
deduct-rows [] s h = tt
deduct-rows (d ∷ ds) s {after} {t} h = ran _ _ _ h λ y u e k. ran _ _ _ k λ rest v e' k'.
    let same : t ≡ v = ground arith in
    let kept = (deduct-ok ds u e').1 d.product_id in
    subst (λ (w : Db). All (λ (x : Demand). is_some (w.products x.product_id) ≡ true) (d ∷ ds))
      (sym same) (kept.1 ∙ deduct_one-row d s e, deduct-rows ds u e')
