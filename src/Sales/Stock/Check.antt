-- ===== src/Sales/Stock/Check.antt =====
-- What the stock check refuses, and how it words the refusal.
use jenkin_sri_store.Prelude.{
  ℕ, ◌≤◌, ◌≡◌, ◌↔◌, ◌⊎◌, refl, sym, ◌∙◌, ap, ap₂, arith, Option, none, some, List, [], ◌∷◌, ◌++◌,
  inl, inr, ◌==◌, ==→eq, Bool-cases, Option-cases, All, All-map,
}
use jenkin_sri_store.Store.{RowId, Product, Table, Db, ok, err, StockLine, insufficient_stock}
use jenkin_sri_store.Sales.Request.{Demand}
use jenkin_sri_store.Sales.Stock.{
  LockedProduct, live, lock_products, locked_row, by_id, shortage, shortages, assert_stock,
  refuse_short,
}

-- The refusal read off the table: a line for each demand that its live row cannot meet, in order.
unfoldable pub short_lines : List Demand → Table Product → List StockLine
short_lines [] products = []
short_lines (d ∷ ds) products = shortage d (live (products d.product_id)) ++ short_lines ds products

-- A demand that its live row can meet.
abbrev pub Covers : ℕ → Option Product → Type 0
Covers qty none = ⊥
Covers qty (some p) = qty ≤ p.stock

abbrev pub IsCovered : Table Product → Demand → Type 0
IsCovered products d = Covers d.qty (live (products d.product_id))

-- The row that a demand finds is the live row of its product.
abbrev Finds : Table Product → List LockedProduct → Demand → Type 0
Finds products locked d = by_id d.product_id locked ≡ live (products d.product_id)

Finds-locked_row :
    (products : Table Product) (id : RowId) (locked : List LockedProduct) (d : Demand)
    → Finds products locked d
    → Finds products (locked_row id (live (products id)) locked) d
unfolding by_id
Finds-locked_row products id locked d h = elim (Option-cases (live (products id))) [
  | inl dead ↦ rw dead h
  | inr (p, alive) ↦ rw alive (ground arith)
]

Finds-self :
    (products : Table Product) (locked : List LockedProduct) (d : Demand)
    → (by_id d.product_id locked ≡ live (products d.product_id))
      ⊎ (by_id d.product_id locked ≡ none)
    → Finds products (locked_row d.product_id (live (products d.product_id)) locked) d
unfolding by_id
Finds-self products locked d h = elim (Option-cases (live (products d.product_id))) [
  | inl dead ↦ rw dead (ground arith)
  | inr (p, alive) ↦ rw alive (ground arith)
]

by_id-lock_products :
    (products : Table Product) (ds : List Demand) (id : RowId)
    → (by_id id (lock_products ds products) ≡ live (products id))
      ⊎ (by_id id (lock_products ds products) ≡ none)
unfolding lock_products by_id
by_id-lock_products products [] id = inr refl
by_id-lock_products products (d ∷ ds) id = elim (Option-cases (live (products d.product_id))) [
  | inl dead ↦ rw dead (by_id-lock_products products ds id)
  | inr (p, alive) ↦ elim (Bool-cases (d.product_id == id)) [
    | inl hit ↦
        let same : d.product_id ≡ id = ==→eq _ _ hit in
        inl (rw alive (rw hit (sym alive ∙ ap (λ (k : RowId). live (products k)) same)))
    | inr miss ↦ rw alive (rw miss (by_id-lock_products products ds id))
  ]
]

All-Finds :
    (products : Table Product) (ds : List Demand)
    → All (Finds products (lock_products ds products)) ds
unfolding lock_products
All-Finds products [] = tt
All-Finds products (d ∷ ds) = (
  Finds-self products (lock_products ds products) d (by_id-lock_products products ds d.product_id),
  All-map (Finds-locked_row products d.product_id (lock_products ds products)) ds
      (All-Finds products ds),
)

shortages-Finds :
    (products : Table Product) (locked : List LockedProduct) (ds : List Demand)
    → All (Finds products locked) ds
    → shortages ds locked ≡ short_lines ds products
unfolding shortages short_lines
shortages-Finds products locked [] h = refl
shortages-Finds products locked (d ∷ ds) (f, h) =
    ap₂ ◌++◌ (ap (shortage d) f) (shortages-Finds products locked ds h)

short_lines-nil :
    (products : Table Product) (ds : List Demand)
    → (short_lines ds products ≡ []) ↔ All (IsCovered products) ds
unfolding short_lines
short_lines-nil products [] = ground arith
short_lines-nil products (d ∷ ds) = elim (Option-cases (live (products d.product_id))) [
  | inl dead ↦ rw dead (ground arith)
  | inr (p, alive) ↦ rw alive (ground (arith, short_lines-nil products ds))
]

refuse_short-ok :
    (lines : List StockLine) (s : Db) → (refuse_short lines s ≡ ok (tt, s)) ↔ (lines ≡ [])
refuse_short-ok [] s = ground arith
refuse_short-ok (line ∷ lines) s = ground arith

refuse_short-err :
    (lines : List StockLine) (s : Db)
    → ¬ (lines ≡ [])
    → refuse_short lines s ≡ err (insufficient_stock lines)
refuse_short-err [] s h = absurd (h refl)
refuse_short-err (line ∷ lines) s h = refl

-- The stock check, on the rows that were locked, passes exactly when every product demanded has a
-- live row with enough stock; otherwise it is refused with a line for each demand that has not, in
-- the order of the bill.
pub assert_stock_iff :
    (products : Table Product) (ds : List Demand) (s : Db)
    → ((assert_stock ds (lock_products ds products) s ≡ ok (tt, s)) ↔ All (IsCovered products) ds)
      × ((¬ All (IsCovered products) ds)
          → assert_stock ds (lock_products ds products) s
            ≡ err (insufficient_stock (short_lines ds products)))
unfolding assert_stock
assert_stock_iff products ds s =
    let same = shortages-Finds products (lock_products ds products) ds (All-Finds products ds) in
    let (passes, fails) = refuse_short-ok (short_lines ds products) s in
    let (covered, nothing) = short_lines-nil products ds in
    rw same (
      (λ h. covered (passes h), λ h. fails (nothing h)),
      λ h. refuse_short-err (short_lines ds products) s (λ e. h (covered e)),
    )
