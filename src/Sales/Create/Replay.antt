-- ===== src/Sales/Create/Replay.antt =====
-- The same bill sent again.
use jenkin_sri_store.Prelude.{
  ◌≡◌, refl, sym, ◌∙◌, ap, arith, true, false, Option, none, some, List, [], ◌∷◌, ◌++◌,
  append_assoc, map, keep, keep-append, All, sum_by, inl, inr, Option-cases, ◌==◌, ==_refl,
}
use jenkin_sri_store.Store.{
  RowId, Sale, Product, Movement, Table, put_self, is_some, Db, Result, ok, ran, ◌>>=◌, throw_if-ok,
}
use jenkin_sri_store.Money.{points_for}
use jenkin_sri_store.Shifts.{Actor}
use jenkin_sri_store.Sales.Request.{CreateSale, Demand, aggregate, totals_off, assert_sale_totals}
use jenkin_sri_store.Sales.Request.Demands.{demand_count, IsDistinct, aggregate-IsDistinct}
use jenkin_sri_store.Sales.Stock.Deduction.{left_of}
use jenkin_sri_store.Sales.Ledger.{customer_after, mechanic_after}
use jenkin_sri_store.Sales.Bill.{sale_row, line_out, by_line_no}
use jenkin_sri_store.Sales.Bill.Rows.{TakesAll}
use jenkin_sri_store.Sales.Create.{
  CreateSaleResult, stock_now, stored_lines, is_sale_movement, movement_of, movements_now,
  customer_now, mechanic_now, replay, existing, existing_sale, create_sale,
}
use jenkin_sri_store.Sales.Create.Written.{Written, after_of}
use jenkin_sri_store.Sales.Create.Stocktake.{create_sale-cases}
use jenkin_sri_store.Sales.Void.RoundTrip.{HaveBills, keep-none, Copies-keep}

stock_now-left_of :
    (ds : List Demand) (products : Table Product)
    → All (λ (d : Demand). is_some (products d.product_id) ≡ true) ds
    → stock_now ds products ≡ map (left_of products) ds
unfolding stock_now
stock_now-left_of [] products h = refl
stock_now-left_of (d ∷ ds) products (there, h) = elim (Option-cases (products d.product_id)) [
  | inl missing ↦ absurd (ground arith)
  | inr (p, found) ↦ ground (arith, stock_now-left_of ds products h)
]

-- The movements of a bill are found again, product by product.
movement_of-none :
    (p id : RowId) (ds : List Demand) (ms : List Movement)
    → TakesAll id ds ms
    → sum_by (demand_count p) ds ≡ 0
    → movement_of p ms ≡ none
unfolding movement_of sum_by
movement_of-none p id [] [] h zero_count = refl
movement_of-none p id (d ∷ ds) (m ∷ ms) (one, h) zero_count =
    ground (arith, one.product, movement_of-none p id ds ms h)
movement_of-none p id [] (m ∷ ms) h zero_count = absurd h
movement_of-none p id (d ∷ ds) [] h zero_count = absurd h

movement_of-append :
    (p : RowId) (before ms : List Movement) (m : Movement)
    → movement_of p ms ≡ some m
    → movement_of p (before ++ ms) ≡ some m
unfolding movement_of
movement_of-append p [] ms m h = h
movement_of-append p (x ∷ before) ms m h = ground (arith, movement_of-append p before ms m h)

movements_now-append :
    (id : RowId) (ds : List Demand) (before ms : List Movement)
    → IsDistinct ds
    → TakesAll id ds ms
    → movements_now ds (before ++ ms) ≡ ms
unfolding movements_now
movements_now-append id [] before [] one h = refl
movements_now-append id (d ∷ ds) before (m ∷ ms) one (takes, h) =
    let distinct : IsDistinct ds = record {
      once = λ p. unfold sum_by in omega (arith, one.once p);
    } in
    let gone : sum_by (demand_count d.product_id) ds ≡ 0 =
      unfold sum_by in ground (arith, one.once d.product_id) in
    let last = movement_of-none d.product_id id ds ms h gone in
    let here : movement_of d.product_id (m ∷ ms) ≡ some m =
      unfold movement_of in ground (arith, last, takes.product) in
    let found = movement_of-append d.product_id before (m ∷ ms) m here in
    let rest = movements_now-append id ds (before ++ m ∷ []) ms distinct h in
    let again : movements_now ds (before ++ m ∷ ms) ≡ ms =
      ap (movements_now ds) (sym (append_assoc before (m ∷ []) ms)) ∙ rest in
    rw found (ap (λ (xs : List Movement). m ∷ xs) again)
movements_now-append id [] before (m ∷ ms) one h = absurd h
movements_now-append id (d ∷ ds) before [] one h = absurd h

TakesAll-keep :
    (id : RowId) (ds : List Demand) (ms : List Movement)
    → TakesAll id ds ms
    → keep (is_sale_movement id) ms ≡ ms
unfolding keep
TakesAll-keep id [] [] h = refl
TakesAll-keep id (d ∷ ds) (m ∷ ms) (one, h) =
    ground (arith, one.typed, one.refers, TakesAll-keep id ds ms h)
TakesAll-keep id [] (m ∷ ms) h = absurd h
TakesAll-keep id (d ∷ ds) [] h = absurd h

customer_now-after_of :
    (id : Option RowId) (t : Db) → customer_now id t ≡ after_of customer_after id t.customers
customer_now-after_of none t = refl
customer_now-after_of (some id) t = refl

mechanic_now-after_of :
    (id : Option RowId) (t : Db) → mechanic_now id t ≡ after_of mechanic_after id t.mechanics
mechanic_now-after_of none t = refl
mechanic_now-after_of (some id) t = refl

believed :
    (dto : CreateSale) (actor : Actor) (s : Db) {r : CreateSaleResult} {t : Db}
    → create_sale dto actor s ≡ ok (r, t)
    → totals_off dto.items dto.subtotal dto.discount dto.total ≡ false
unfolding create_sale assert_sale_totals
believed dto actor s h = ran _ _ _ h λ u a e k. (throw_if-ok _ _ s e).0

existing-found :
    (dto : CreateSale) (row : Sale) (t : Db)
    → row.total ≡ dto.total
    → row.voided ≡ false
    → existing dto (some row) t ≡ ok (some (replay dto row t), t)
existing-found dto row t same live = rw (same, ==_refl dto.total, live) refl

answer_again :
    (dto : CreateSale) (actor : Actor) (t : Db) (row : Sale) (r : CreateSaleResult)
    → totals_off dto.items dto.subtotal dto.discount dto.total ≡ false
    → t.sales dto.id ≡ some row
    → row.total ≡ dto.total
    → row.voided ≡ false
    → replay dto row t ≡ r
    → create_sale dto actor t ≡ ok (r, t)
unfolding create_sale assert_sale_totals existing_sale ◌>>=◌
answer_again dto actor t row r honest found same live answer =
    rw (honest, found)
      (rw (existing-found dto row t same live)
        (ap {B = Result (CreateSaleResult × Db)} (λ (x : CreateSaleResult). ok (x, t)) answer))

replay-Written :
    (dto : CreateSale) (actor : Actor) (s : Db) {r : CreateSaleResult} {t : Db}
    → s.sales dto.id ≡ none
    → HaveBills s
    → keep (is_sale_movement dto.id) s.movements ≡ []
    → (w : Written dto actor s r t)
    → replay dto (sale_row dto actor r.receipt_no (points_for dto.total) w.drawer.id s.now) t ≡ r
unfolding replay stored_lines sale_row
replay-Written dto actor s {r} {t} fresh billed unmoved w =
    let ds = aggregate dto.items in
    let stock : stock_now ds t.products ≡ r.products =
      stock_now-left_of ds t.products w.demanded ∙ sym w.left in
    let kept : keep (λ i. i.sale_id == dto.id) t.sale_items ≡ w.lines =
      rw
        (
          w.lined,
          keep-append (λ i. i.sale_id == dto.id) s.sale_items w.lines,
          keep-none dto.id s.sales s.sale_items fresh billed,
        )
        (Copies-keep dto.id dto.items w.lines w.copied) in
    let items : by_line_no (map line_out (keep (λ i. i.sale_id == dto.id) t.sale_items)) ≡ r.items =
      rw kept (ap by_line_no (sym w.answered) ∙ sym w.listed) in
    let own : keep (is_sale_movement dto.id) t.movements ≡ r.movements =
      rw (w.moved, keep-append (is_sale_movement dto.id) s.movements r.movements, unmoved)
        (TakesAll-keep dto.id ds r.movements w.taken) in
    let moves : movements_now ds (keep (is_sale_movement dto.id) t.movements) ≡ r.movements =
      rw own
        (movements_now-append dto.id ds [] r.movements (aggregate-IsDistinct dto.items) w.taken) in
    let mechanic = mechanic_now-after_of dto.mechanic_id t ∙ sym w.mechanic_told in
    let customer = customer_now-after_of dto.customer_id t ∙ sym w.customer_told in
    rw (stock, items, moves, mechanic, customer) (sym w.told)

-- Rows on which the same bill is answered alike.
pub record LooksLike (t u : Db) : Type 0 where
  pub products : u.products ≡ t.products
  pub sales : u.sales ≡ t.sales
  pub sale_items : u.sale_items ≡ t.sale_items
  pub movements : u.movements ≡ t.movements
  pub customers : u.customers ≡ t.customers
  pub mechanics : u.mechanics ≡ t.mechanics

customer_now-LooksLike :
    (id : Option RowId) (t u : Db)
    → u.customers ≡ t.customers
    → customer_now id u ≡ customer_now id t
customer_now-LooksLike none t u same = refl
customer_now-LooksLike (some id) t u same = rw same refl

mechanic_now-LooksLike :
    (id : Option RowId) (t u : Db)
    → u.mechanics ≡ t.mechanics
    → mechanic_now id u ≡ mechanic_now id t
mechanic_now-LooksLike none t u same = refl
mechanic_now-LooksLike (some id) t u same = rw same refl

replay-LooksLike :
    (dto : CreateSale) (row : Sale) (t u : Db) → LooksLike t u → replay dto row u ≡ replay dto row t
unfolding replay
replay-LooksLike dto row t u like =
    rw
      (
        customer_now-LooksLike dto.customer_id t u like.customers,
        mechanic_now-LooksLike dto.mechanic_id t u like.mechanics,
        like.products,
        like.sale_items,
        like.movements,
      )
      refl

-- A new bill that is sent again is answered as it was the first time, on any rows that hold what
-- it wrote.
pub create_sale_later :
    (dto : CreateSale) (actor : Actor) (s : Db) {r : CreateSaleResult} {t : Db} (u : Db)
    → s.sales dto.id ≡ none
    → HaveBills s
    → keep (is_sale_movement dto.id) s.movements ≡ []
    → create_sale dto actor s ≡ ok (r, t)
    → LooksLike t u
    → create_sale dto actor u ≡ ok (r, u)
unfolding sale_row
create_sale_later dto actor s {r} {t} u fresh billed unmoved h like =
    elim (create_sale-cases dto actor s h) [
      | inl (sale, found, live, answer, same) ↦ absurd (cc)
      | inr w ↦
          let row = sale_row dto actor r.receipt_no (points_for dto.total) w.drawer.id s.now in
          let stored : u.sales dto.id ≡ some row =
            rw (like.sales, w.headed) (put_self dto.id row s.sales) in
          answer_again dto actor u row r (believed dto actor s h) stored refl refl
            (replay-LooksLike dto row t u like ∙ replay-Written dto actor s fresh billed unmoved w)
    ]

-- A new bill that is sent again, before anything else is written, is answered as it was the first
-- time, number and stock and movements and running totals, and writes nothing. No row of a line or
-- of a movement named the bill before.
pub create_sale_again :
    (dto : CreateSale) (actor : Actor) (s : Db) {r : CreateSaleResult} {t : Db}
    → s.sales dto.id ≡ none
    → HaveBills s
    → keep (is_sale_movement dto.id) s.movements ≡ []
    → create_sale dto actor s ≡ ok (r, t)
    → create_sale dto actor t ≡ ok (r, t)
create_sale_again dto actor s {r} {t} fresh billed unmoved h =
    create_sale_later dto actor s t fresh billed unmoved h (record {
      products = refl;
      sales = refl;
      sale_items = refl;
      movements = refl;
      customers = refl;
      mechanics = refl;
    })
