-- ===== src/Sales/Request/Demands.antt =====
-- The demands collapse the lines of a bill without losing a unit.
use jenkin_sri_store.Prelude.{
  ℕ, suc, ◌+◌, ◌≤◌, ◌≡◌, refl, ◌∙◌, arith, List, [], ◌∷◌, if◌then◌else◌, ◌==◌, leb, sum_by,
  sum_by-sort_by,
}
use jenkin_sri_store.Store.{RowId}
use jenkin_sri_store.Sales.Request.{SaleLine, Demand, add_line, add_lines, aggregate}

-- How much of a product the lines, and the demands, ask for; and how often it is demanded.
abbrev pub line_qty : RowId → SaleLine → ℕ
line_qty p line = if line.product_id == p then line.qty else 0

abbrev pub demand_qty : RowId → Demand → ℕ
demand_qty p d = if d.product_id == p then d.qty else 0

abbrev pub demand_count : RowId → Demand → ℕ
demand_count p d = if d.product_id == p then 1 else 0

pub record IsDistinct (ds : List Demand) : Type 0 where
  pub once : (p : RowId) → sum_by (demand_count p) ds ≤ 1

add_line-qty :
    (p i : ℕ) (line : SaleLine) (ds : List Demand)
    → sum_by (demand_qty p) (add_line i line ds) ≡ line_qty p line + sum_by (demand_qty p) ds
unfolding add_line sum_by
add_line-qty p i line [] = refl
add_line-qty p i line (d ∷ ds) = ground (arith, add_line-qty p i line ds)

add_lines-qty :
    (p i : ℕ) (lines : List SaleLine) (ds : List Demand)
    → sum_by (demand_qty p) (add_lines i lines ds)
      ≡ sum_by (line_qty p) lines + sum_by (demand_qty p) ds
unfolding add_lines sum_by
add_lines-qty p i [] ds = omega arith
add_lines-qty p i (line ∷ lines) ds =
    omega (arith, add_lines-qty p (suc i) lines (add_line i line ds), add_line-qty p i line ds)

-- A line adds a demand only for its own product, and only if that has none yet.
pub add_line-count :
    (p i : ℕ) (line : SaleLine) (ds : List Demand)
    → sum_by (demand_count p) (add_line i line ds) ≡ (
        if line.product_id == p
        then (if sum_by (demand_count p) ds == 0 then 1 else sum_by (demand_count p) ds)
        else sum_by (demand_count p) ds)
unfolding add_line sum_by
add_line-count p i line [] = ground arith
add_line-count p i line (d ∷ ds) = ground (arith, add_line-count p i line ds)

add_lines-count :
    (p i : ℕ) (lines : List SaleLine) (ds : List Demand)
    → sum_by (demand_count p) ds ≤ 1
    → sum_by (demand_count p) (add_lines i lines ds) ≤ 1
unfolding add_lines
add_lines-count p i [] ds h = h
add_lines-count p i (line ∷ lines) ds h =
    add_lines-count p (suc i) lines (add_line i line ds)
      (ground (arith, add_line-count p i line ds))

-- The demands for a product add up to what the lines of that product ask for.
pub sum_by-aggregate :
    (p : RowId) (items : List SaleLine)
    → sum_by (demand_qty p) (aggregate items) ≡ sum_by (line_qty p) items
unfolding aggregate
sum_by-aggregate p items =
    sum_by-sort_by (demand_qty p) _ (add_lines 0 items [])
    ∙ (add_lines-qty p 0 items [] ∙ (unfold sum_by in omega arith))

-- No product is demanded twice.
pub aggregate-IsDistinct : (items : List SaleLine) → IsDistinct (aggregate items)
unfolding aggregate
aggregate-IsDistinct items = record {
  once = λ p. omega (
    arith,
    sum_by-sort_by (demand_count p) (λ a b. leb a.first_line_index b.first_line_index)
        (add_lines 0 items []),
    add_lines-count p 0 items [] (unfold sum_by in omega arith),
  );
}

-- A product that is not demanded has nothing asked of it.
pub uncounted :
    (p : RowId) (ds : List Demand) → sum_by (demand_count p) ds ≡ 0 → sum_by (demand_qty p) ds ≡ 0
unfolding sum_by
uncounted p [] h = refl
uncounted p (d ∷ ds) h = ground (arith, uncounted p ds)
