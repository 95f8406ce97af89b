-- ===== src/Sales/Stock/Enough.antt =====
-- Where the stock is enough, the deduction returns, and every demanded product is found.
use jenkin_sri_store.Prelude.{
  ℕ, suc, ◌-◌, ◌≤◌, ◌≡◌, ◌≢◌, refl, arith, All, All-map, true, some, List, [], ◌∷◌, ◌==◌, leb, map,
  sum_by, sum_by-sort_by, Option-cases, Bool-cases, inl, inr,
}
use jenkin_sri_store.Store.{
  RowId, Product, Table, put, is_some, Db, ok, each, Returns, Returns-next,
}
use jenkin_sri_store.Sales.Request.{SaleLine, Demand, add_lines, aggregate}
use jenkin_sri_store.Sales.Request.Demands.{demand_count, IsDistinct, add_line-count}
use jenkin_sri_store.Sales.Stock.{live, lock_products, by_id, deduct_one, deduct}
use jenkin_sri_store.Sales.Stock.Check.{IsCovered}
use jenkin_sri_store.Sales.Stock.Deduction.{stock_of, left_of}
use jenkin_sri_store.Sales.Bill.{value_of}

-- A demand that the row of its product can meet.
record IsMet (products : Table Product) (d : Demand) : Type 0 where
  row : is_some (products d.product_id) ≡ true
  enough : d.qty ≤ stock_of (products d.product_id)

IsCovered-IsMet : (products : Table Product) (d : Demand) → IsCovered products d → IsMet products d
IsCovered-IsMet products d h = elim (Option-cases (products d.product_id)) [
  | inl missing ↦ absurd (rw missing at h)
  | inr (p, found) ↦ elim (Bool-cases p.deleted) [
    | inl gone ↦ absurd (rw (found, gone) at h)
    | inr alive ↦
        let fits : d.qty ≤ p.stock = rw (found, alive) at h in
        record { row = rw found refl; enough = rw found fits }
  ]
]

IsMet-rest :
    (k : RowId) (before after : Table Product) (ds : List Demand)
    → ((p : RowId) → k ≢ p → after p ≡ before p)
    → sum_by (demand_count k) ds ≡ 0
    → All (IsMet before) ds
    → All (IsMet after) ds
unfolding sum_by
IsMet-rest k before after [] same h all = tt
IsMet-rest k before after (d ∷ ds) same h (one, all) =
    let other : k ≢ d.product_id = ground arith in
    let row : after d.product_id ≡ before d.product_id = same d.product_id other in
    (
      record { row = rw row one.row; enough = rw row one.enough },
      IsMet-rest k before after ds same (ground arith) all,
    )

deduct_one-Returns :
    (d : Demand) (s : Db)
    → IsMet s.products d
    → (y : RowId × ℕ) × (t : Db) × (deduct_one d s ≡ ok (y, t))
      × ((p : RowId) → d.product_id ≢ p → t.products p ≡ s.products p)
unfolding deduct_one
deduct_one-Returns d s m = elim (Option-cases (s.products d.product_id)) [
  | inl missing ↦ absurd (ground (arith, m.row))
  | inr (p, found) ↦
      let fits : leb d.qty p.stock ≡ true = ground (arith, m.enough) in
      (
        (d.product_id, p.stock - d.qty),
        record s { products = put d.product_id (record p { stock = p.stock - d.qty }) s.products },
        rw (found, fits) refl,
        λ q ne. ground arith,
      )
]

deduct_loop :
    (ds : List Demand) (s : Db)
    → IsDistinct ds
    → All (IsMet s.products) ds
    → Returns (each deduct_one ds) s
unfolding each sum_by
deduct_loop [] s one all = ([], s, refl)
deduct_loop (d ∷ ds) s one (m, all) =
    let (y, u, e, others) = deduct_one-Returns d s m in
    let rest : IsDistinct ds = record { once = λ p. omega (arith, one.once p) } in
    let alone : sum_by (demand_count d.product_id) ds ≡ 0 = ground (arith, one.once d.product_id) in
    let (ys, t, e') =
      deduct_loop ds u rest (IsMet-rest d.product_id s.products u.products ds others alone all) in
    Returns-next (deduct_one d) _ s e (Returns-next (each deduct_one ds) _ u e' (y ∷ ys, t, refl))

pub deduct-Returns :
    (ds : List Demand) (s : Db)
    → IsDistinct ds
    → All (IsCovered s.products) ds
    → Returns (deduct ds) s
unfolding deduct
deduct-Returns ds s one all = deduct_loop ds s one (All-map (IsCovered-IsMet s.products) ds all)

-- A demanded product is among the rows that were locked.
pub by_id_found :
    (products : Table Product) (ds : List Demand) (p : RowId)
    → All (IsCovered products) ds
    → 1 ≤ sum_by (demand_count p) ds
    → (row : Product) × (by_id p (lock_products ds products) ≡ some row)
unfolding by_id lock_products sum_by
by_id_found products [] p all h = absurd (omega (arith, h))
by_id_found products (d ∷ ds) p (one, all) h = elim (Option-cases (live (products d.product_id))) [
  | inl dead ↦ absurd (rw dead at one)
  | inr (row, alive) ↦ elim (Bool-cases (d.product_id == p)) [
    | inl hit ↦ (row, rw (alive, hit) refl)
    | inr miss ↦ rw (alive, miss) (by_id_found products ds p all (ground arith))
  ]
]

add_lines-keeps :
    (p i : ℕ) (lines : List SaleLine) (ds : List Demand)
    → 1 ≤ sum_by (demand_count p) ds
    → 1 ≤ sum_by (demand_count p) (add_lines i lines ds)
unfolding add_lines
add_lines-keeps p i [] ds h = h
add_lines-keeps p i (l ∷ ls) ds h =
    add_lines-keeps p (suc i) ls _ (ground (arith, add_line-count p i l ds))

add_lines-counts :
    (i : ℕ) (lines : List SaleLine) (ds : List Demand)
    → All (λ (l : SaleLine). 1 ≤ sum_by (demand_count l.product_id) (add_lines i lines ds)) lines
unfolding add_lines
add_lines-counts i [] ds = tt
add_lines-counts i (l ∷ ls) ds = (
  add_lines-keeps l.product_id (suc i) ls _ (ground (arith, add_line-count l.product_id i l ds)),
  add_lines-counts (suc i) ls _,
)

-- Every line's product is demanded.
pub aggregate-counts :
    (items : List SaleLine)
    → All (λ (l : SaleLine). 1 ≤ sum_by (demand_count l.product_id) (aggregate items)) items
unfolding aggregate
aggregate-counts items =
    All-map
      (λ (l : SaleLine) h. omega (
        arith,
        h,
        sum_by-sort_by (demand_count l.product_id)
            (λ (a b : Demand). leb a.first_line_index b.first_line_index) (add_lines 0 items []),
      ))
      items (add_lines-counts 0 items [])

pub demands_counted :
    (ds : List Demand) → All (λ (d : Demand). 1 ≤ sum_by (demand_count d.product_id) ds) ds
unfolding sum_by
demands_counted [] = tt
demands_counted (d ∷ ds) =
    (ground arith, All-map (λ (x : Demand) h. ground arith) ds (demands_counted ds))

-- The stock that is left of a demanded product is reported.
pub value_of_left :
    (products : Table Product) (ds : List Demand) (p : RowId)
    → 1 ≤ sum_by (demand_count p) ds
    → (n : ℕ) × (value_of p (map (left_of products) ds) ≡ some n)
unfolding sum_by
value_of_left products [] p h = absurd (omega (arith, h))
value_of_left products (d ∷ ds) p h = elim (Bool-cases (d.product_id == p)) [
  | inl hit ↦ (stock_of (products d.product_id), rw hit refl)
  | inr miss ↦ rw miss (value_of_left products ds p (ground arith))
]
