-- ===== src/PurchaseOrders/Receipt/Runnings.antt =====
-- The runnings while the lines are applied to them: which one a line meets, and what it adds.
use jenkin_sri_store.Prelude.{
  ℕ, ◌+◌, ◌≤◌, ◌≡◌, refl, ◌∙◌, arith, All, true, Option, none, some, List, [], ◌∷◌, ◌==◌,
  if◌then◌else◌, ltb, sum_by, sum_by-sort_by, keep, rewrite, not, leb, All-keep, All-sort_by, ◌&&◌,
  Bool-cases, Option-cases, inl, inr,
}
use jenkin_sri_store.Store.{Text, RowId, Product, PoLine, Table, is_some}
use jenkin_sri_store.Sales.Stock.Deduction.{stock_of}
use jenkin_sri_store.PurchaseOrders.Receipt.{
  Running, add_to, named_by, lock_named, state_of, touched_of,
}

abbrev pub count_of : RowId → Running → ℕ
count_of p r = if r.id == p then 1 else 0

abbrev pub delta_of : RowId → Running → ℕ
delta_of p r = if r.id == p then r.delta else 0

-- No product has two runnings.
abbrev pub OneEach : List Running → Type 0
OneEach rs = (p : RowId) → sum_by (count_of p) rs ≤ 1

-- A running tells the stock of its product from the row, as it was, and what it gained.
pub record Tells (products : Table Product) (r : Running) : Type 0 where
  pub row : is_some (products r.id) ≡ true
  pub stock : r.stock ≡ stock_of (products r.id) + r.delta

abbrev pub key_count : RowId → RowId → ℕ
key_count p id = if id == p then 1 else 0

-- A key is no two rows of a table.
abbrev pub OneRow : List RowId → Type 0
OneRow ids = (p : RowId) → sum_by (key_count p) ids ≤ 1

abbrev pub id_of : Option Running → Option RowId
id_of none = none
id_of (some r) = some r.id

module _ (p k : RowId) (line : PoLine) where
  pub rewrite-count :
      (rs : List Running)
      → sum_by (count_of p) (rewrite (λ x. x.id == k) (add_to line) rs) ≡ sum_by (count_of p) rs
  unfolding rewrite sum_by
  rewrite-count [] = refl
  rewrite-count (r ∷ rs) = ground (arith, rewrite-count rs)

  rewrite-delta_none :
      (rs : List Running)
      → sum_by (count_of k) rs ≡ 0
      → sum_by (delta_of p) (rewrite (λ x. x.id == k) (add_to line) rs) ≡ sum_by (delta_of p) rs
  unfolding rewrite sum_by
  rewrite-delta_none [] h = refl
  rewrite-delta_none (r ∷ rs) h = ground (arith, rewrite-delta_none rs)

  -- A line is added to the one running that it meets.
  pub rewrite-delta :
      (rs : List Running)
      → sum_by (count_of k) rs ≡ 1
      → sum_by (delta_of p) (rewrite (λ x. x.id == k) (add_to line) rs)
        ≡ sum_by (delta_of p) rs + (if k == p then line.qty else 0)
  unfolding rewrite sum_by
  rewrite-delta [] h = absurd (omega (arith, h))
  rewrite-delta (r ∷ rs) h = ground (arith, rewrite-delta rs, rewrite-delta_none rs)

module _ (lower : Text → Text) where
  state_of-count :
      (key : Text) (rs : List Running) (r : Running)
      → state_of lower key rs ≡ some r
      → 1 ≤ sum_by (count_of r.id) rs
  unfolding state_of sum_by
  state_of-count key [] r h = cc
  state_of-count key (x ∷ rs) r h = elim (Option-cases (state_of lower key rs)) [
    | inl e ↦ ground arith
    | inr (y, e) ↦ let same : y ≡ r = ground arith in ground (arith, state_of-count key rs y e)
  ]

  pub state_of_once :
      (key : Text) (rs : List Running) (r : Running)
      → OneEach rs
      → state_of lower key rs ≡ some r
      → sum_by (count_of r.id) rs ≡ 1
  state_of_once key rs r one h = omega (arith, one r.id, state_of-count key rs r h)

  -- Adding a line moves no running: every part number meets the same product as before.
  pub state_of-rewrite :
      (key : Text) (k : RowId) (line : PoLine) (rs : List Running)
      → id_of (state_of lower key (rewrite (λ x. x.id == k) (add_to line) rs))
        ≡ id_of (state_of lower key rs)
  unfolding state_of rewrite
  state_of-rewrite key k line [] = refl
  state_of-rewrite key k line (r ∷ rs) = elim (Option-cases (state_of lower key rs)) [
    | inl e ↦ elim (Option-cases (state_of lower key (rewrite (λ x. x.id == k) (add_to line) rs))) [
      | inl e' ↦ ground arith
      | inr (y, e') ↦ absurd (ground (arith, state_of-rewrite key k line rs))
    ]
    | inr (z, e) ↦
        elim (Option-cases (state_of lower key (rewrite (λ x. x.id == k) (add_to line) rs))) [
          | inl e' ↦ absurd (ground (arith, state_of-rewrite key k line rs))
          | inr (y, e') ↦ ground (arith, state_of-rewrite key k line rs)
        ]
  ]

  abbrev pub last_id : Option RowId → Option RowId → Option RowId
  last_id (some later) earlier = some later
  last_id none earlier = earlier

  abbrev pub live_id : Text → RowId → Option Product → Option RowId
  live_id key id none = none
  live_id key id (some p) = if not p.deleted && lower p.part_no == lower key then some id else none

  -- The live product of a part number, letters' case aside: the last in the order of the keys.
  unfoldable pub product_of : Text → List RowId → Table Product → Option RowId
  product_of key [] products = none
  product_of key (id ∷ ids) products =
      last_id (product_of key ids products) (live_id key id (products id))

  last_id-none : (o : Option RowId) → o ≡ last_id o none
  last_id-none none = refl
  last_id-none (some k) = refl

  -- The line that names a part joins every row that matches it.
  abbrev pub Joins : List PoLine → Text → Type 0
  Joins lines key =
      (part_no : Text) → (lower part_no == lower key) ≡ true → named_by lower lines part_no ≡ true

  pub lock_named-product_of :
      (lines : List PoLine) (key : Text) (ids : List RowId) (products : Table Product)
      → Joins lines key
      → id_of (state_of lower key (lock_named lower lines ids products))
        ≡ product_of key ids products
  unfolding lock_named state_of product_of
  lock_named-product_of lines key [] products joins = refl
  lock_named-product_of lines key (id ∷ ids) products joins = elim (Option-cases (products id)) [
    | inl e ↦ rw e (
        lock_named-product_of lines key ids products joins
        ∙ last_id-none (product_of key ids products))
    | inr (p, e) ↦
        let ih = lock_named-product_of lines key ids products joins in
        elim (Option-cases (state_of lower key (lock_named lower lines ids products))) [
          | inl e' ↦ elim (Option-cases (product_of key ids products)) [
            | inl e'' ↦ ground (arith, joins p.part_no)
            | inr (k, e'') ↦ absurd (ground arith)
          ]
          | inr (r, e') ↦ elim (Option-cases (product_of key ids products)) [
            | inl e'' ↦ absurd (ground arith)
            | inr (k, e'') ↦ ground (arith, joins p.part_no)
          ]
        ]
  ]

  -- The rows that are locked are told as they are, and each once.
  lock_named-count :
      (p : RowId) (lines : List PoLine) (ids : List RowId) (products : Table Product)
      → sum_by (count_of p) (lock_named lower lines ids products) ≤ sum_by (key_count p) ids
  unfolding lock_named sum_by
  lock_named-count p lines [] products = omega arith
  lock_named-count p lines (id ∷ ids) products = elim (Option-cases (products id)) [
    | inl e ↦ ground (arith, lock_named-count p lines ids products)
    | inr (row, e) ↦ ground (arith, lock_named-count p lines ids products)
  ]

  pub lock_named-OneEach :
      (lines : List PoLine) (ids : List RowId) (products : Table Product)
      → OneRow ids
      → OneEach (lock_named lower lines ids products)
  lock_named-OneEach lines ids products one p =
      omega (arith, one p, lock_named-count p lines ids products)

  pub lock_named-delta :
      (p : RowId) (lines : List PoLine) (ids : List RowId) (products : Table Product)
      → sum_by (delta_of p) (lock_named lower lines ids products) ≡ 0
  unfolding lock_named sum_by
  lock_named-delta p lines [] products = refl
  lock_named-delta p lines (id ∷ ids) products = elim (Option-cases (products id)) [
    | inl e ↦ ground (arith, lock_named-delta p lines ids products)
    | inr (row, e) ↦ ground (arith, lock_named-delta p lines ids products)
  ]

  pub lock_named-Tells :
      (lines : List PoLine) (ids : List RowId) (products : Table Product)
      → All (Tells products) (lock_named lower lines ids products)
  unfolding lock_named
  lock_named-Tells lines [] products = tt
  lock_named-Tells lines (id ∷ ids) products = elim (Option-cases (products id)) [
    | inl e ↦ rw e (lock_named-Tells lines ids products)
    | inr (row, e) ↦ elim (Bool-cases (not row.deleted && named_by lower lines row.part_no)) [
      | inl e' ↦
          rw (e, e')
            (
              record { row = rw e refl; stock = rw e (omega arith) },
              lock_named-Tells lines ids products,
            )
      | inr e' ↦ rw (e, e') (lock_named-Tells lines ids products)
    ]
  ]

keep-sums :
    (p : RowId) (rs : List Running)
    → (sum_by (delta_of p) (keep (λ r. ltb 0 r.delta) rs) ≡ sum_by (delta_of p) rs)
      × (sum_by (count_of p) (keep (λ r. ltb 0 r.delta) rs) ≤ sum_by (count_of p) rs)
unfolding keep sum_by
keep-sums p [] = (refl, omega arith)
keep-sums p (r ∷ rs) = ground (arith, keep-sums p rs)

-- What was not touched gained nothing, so the sums are those of the touched products.
pub touched_of-sums :
    (p : RowId) (rs : List Running)
    → (sum_by (delta_of p) (touched_of rs) ≡ sum_by (delta_of p) rs)
      × (sum_by (count_of p) (touched_of rs) ≤ sum_by (count_of p) rs)
unfolding touched_of
touched_of-sums p rs =
    let (deltas, counts) = keep-sums p rs in
    (
      sum_by-sort_by (delta_of p) _ (keep (λ r. ltb 0 r.delta) rs) ∙ deltas,
      omega (arith, sum_by-sort_by (count_of p) _ (keep (λ r. ltb 0 r.delta) rs), counts),
    )

pub touched_of-All : (P : Running → Type 0) (rs : List Running) → All P rs → All P (touched_of rs)
unfolding touched_of
touched_of-All P rs h =
    All-sort_by P (λ a b. leb a.id b.id) _ (All-keep P (λ r. ltb 0 r.delta) rs h)
