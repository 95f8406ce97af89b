-- ===== src/Returns/Guard/Within.antt =====
-- A credit note that passes the guards takes back no more than the bill sold.
use jenkin_sri_store.Prelude.{
  ℕ, suc, ◌+◌, ◌≤◌, ◌≡◌, refl, ◌∙◌, arith, true, List, [], ◌∷◌, ◌++◌, inl, inr, if◌then◌else◌, ◌==◌,
  leb, sum_by, sum_by-sort_by, All, Option-cases, Bool-cases, sym,
}
use jenkin_sri_store.Store.{RowId, SaleItem, ReturnItem, RefundLine, PriceLine, Db, ok, ran}
use jenkin_sri_store.Returns.Request.{ReturnLine, Demand, same_key, add_line, add_lines, aggregate}
use jenkin_sri_store.Returns.Guard.{
  sold_for, sold_at, cost_at, back_for, over_line, over_lines, refuse_over, refuse_prices,
  mispriced, assert_refundable,
}

-- How much the demands take back of a product at a price, and how many of them do.
abbrev pub demand_for : RowId → ℕ → Demand → ℕ
demand_for p c d = if same_key d.product_id d.price p c then d.qty else 0

abbrev pub demand_count : RowId → ℕ → Demand → ℕ
demand_count p c d = if same_key d.product_id d.price p c then 1 else 0

abbrev pub line_for : RowId → ℕ → ReturnLine → ℕ
line_for p c l = if same_key l.product_id l.price p c then l.qty else 0

pub record IsDistinct (ds : List Demand) : Type 0 where
  pub once : (p : RowId) (c : ℕ) → sum_by (demand_count p c) ds ≤ 1

add_line-qty :
    (p c i : ℕ) (line : ReturnLine) (ds : List Demand)
    → sum_by (demand_for p c) (add_line i line ds) ≡ line_for p c line + sum_by (demand_for p c) ds
unfolding add_line sum_by
add_line-qty p c i line [] = refl
add_line-qty p c i line (d ∷ ds) = ground (arith, add_line-qty p c i line ds)

add_lines-qty :
    (p c i : ℕ) (lines : List ReturnLine) (ds : List Demand)
    → sum_by (demand_for p c) (add_lines i lines ds)
      ≡ sum_by (line_for p c) lines + sum_by (demand_for p c) ds
unfolding add_lines sum_by
add_lines-qty p c i [] ds = omega arith
add_lines-qty p c i (line ∷ lines) ds =
    omega (arith, add_lines-qty p c (suc i) lines (add_line i line ds), add_line-qty p c i line ds)

add_line-count :
    (p c i : ℕ) (line : ReturnLine) (ds : List Demand)
    → sum_by (demand_count p c) (add_line i line ds) ≡ (
        if same_key line.product_id line.price p c
        then (if sum_by (demand_count p c) ds == 0 then 1 else sum_by (demand_count p c) ds)
        else sum_by (demand_count p c) ds)
unfolding add_line sum_by
add_line-count p c i line [] = ground arith
add_line-count p c i line (d ∷ ds) = ground (arith, add_line-count p c i line ds)

add_lines-count :
    (p c i : ℕ) (lines : List ReturnLine) (ds : List Demand)
    → sum_by (demand_count p c) ds ≤ 1
    → sum_by (demand_count p c) (add_lines i lines ds) ≤ 1
unfolding add_lines
add_lines-count p c i [] ds h = h
add_lines-count p c i (line ∷ lines) ds h =
    add_lines-count p c (suc i) lines (add_line i line ds)
      (ground (arith, add_line-count p c i line ds))

-- The demands at a product and a price add up to what the lines at that product and price ask for.
pub sum_by-aggregate :
    (p c : ℕ) (items : List ReturnLine)
    → sum_by (demand_for p c) (aggregate items) ≡ sum_by (line_for p c) items
unfolding aggregate
sum_by-aggregate p c items =
    sum_by-sort_by (demand_for p c) _ (add_lines 0 items [])
    ∙ (add_lines-qty p c 0 items [] ∙ (unfold sum_by in omega arith))

pub aggregate-IsDistinct : (items : List ReturnLine) → IsDistinct (aggregate items)
unfolding aggregate
aggregate-IsDistinct items = record {
  once = λ p c. omega (
    arith,
    sum_by-sort_by (demand_count p c) (λ a b. leb a.first_line_index b.first_line_index)
        (add_lines 0 items []),
    add_lines-count p c 0 items [] (unfold sum_by in omega arith),
  );
}

-- A demand that fits in what is left at its price.
abbrev pub Fits : List SaleItem → List ReturnItem → Demand → Type 0
Fits sold refunded d =
    d.qty + sum_by (back_for d.product_id d.price) refunded
    ≤ sum_by (sold_for d.product_id d.price) sold

over_line-Fits :
    (sold : List SaleItem) (refunded : List ReturnItem) (d : Demand)
    → over_line d (sold_at d.product_id d.price sold) sold refunded ≡ []
    → Fits sold refunded d
over_line-Fits sold refunded d h = elim (Option-cases (cost_at d.product_id d.price sold)) [
  | inl missing ↦ absurd (ground arith)
  | inr (cost, found) ↦ ground arith
]

append-nil-left : (xs ys : List RefundLine) → xs ++ ys ≡ [] → (xs ≡ []) × (ys ≡ [])
append-nil-left [] ys h = (refl, h)
append-nil-left (x ∷ xs) ys h = cc

over_lines-Fits :
    (sold : List SaleItem) (refunded : List ReturnItem) (ds : List Demand)
    → over_lines ds sold refunded ≡ []
    → All (Fits sold refunded) ds
unfolding over_lines
over_lines-Fits sold refunded [] h = tt
over_lines-Fits sold refunded (d ∷ ds) h =
    let (here, there) =
      append-nil-left (over_line d (sold_at d.product_id d.price sold) sold refunded)
        (over_lines ds sold refunded) h in
    (over_line-Fits sold refunded d here, over_lines-Fits sold refunded ds there)

uncounted :
    (p c : ℕ) (ds : List Demand) → sum_by (demand_count p c) ds ≡ 0 → sum_by (demand_for p c) ds ≡ 0
unfolding sum_by
uncounted p c [] h = refl
uncounted p c (d ∷ ds) h = ground (arith, uncounted p c ds)

same_key-eq : (p c q d : ℕ) → same_key p c q d ≡ true → (p ≡ q) × (c ≡ d)
same_key-eq p c q d h = (ground arith, ground arith)

pub Fits-sum :
    (p c : ℕ) (sold : List SaleItem) (refunded : List ReturnItem) (ds : List Demand)
    → sum_by (demand_count p c) ds ≤ 1
    → sum_by (back_for p c) refunded ≤ sum_by (sold_for p c) sold
    → All (Fits sold refunded) ds
    → sum_by (demand_for p c) ds + sum_by (back_for p c) refunded ≤ sum_by (sold_for p c) sold
unfolding sum_by
Fits-sum p c sold refunded [] one before h = omega arith
Fits-sum p c sold refunded (d ∷ ds) one before (fits, h) =
    elim (Bool-cases (same_key d.product_id d.price p c)) [
      | inl here ↦
          let (product, price) = same_key-eq d.product_id d.price p c here in
          let rest = uncounted p c ds (ground (arith, one)) in
          rw (here, rest, sym product, sym price) (omega (arith, fits))
      | inr other ↦
          let ih = Fits-sum p c sold refunded ds (ground arith) before h in ground (arith, ih)
    ]

refuse_over-ok :
    (ls : List RefundLine) (s : Db) {x : Unit {0}} {t : Db}
    → refuse_over ls s ≡ ok (x, t)
    → (ls ≡ []) × (t ≡ s)
refuse_over-ok [] s h = (refl, cc)
refuse_over-ok (l ∷ ls) s h = cc

refuse_prices-ok :
    (ls : List PriceLine) (s : Db) {x : Unit {0}} {t : Db} → refuse_prices ls s ≡ ok (x, t) → t ≡ s
refuse_prices-ok [] s h = cc
refuse_prices-ok (l ∷ ls) s h = cc

-- What passing the guards shows, of the demands of a credit note.
pub assert_refundable-Fits :
    (ds : List Demand) (sold : List SaleItem) (refunded : List ReturnItem) (s : Db) {x : Unit {0}}
    {t : Db}
    → assert_refundable ds sold refunded s ≡ ok (x, t)
    → All (Fits sold refunded) ds × (t ≡ s)
unfolding assert_refundable
assert_refundable-Fits ds sold refunded s h = ran _ _ _ h λ y u e k.
    let priced = refuse_prices-ok (mispriced ds sold) s e in
    let (nothing, same) = refuse_over-ok (over_lines ds sold refunded) u k in
    (over_lines-Fits sold refunded ds nothing, same ∙ priced)
