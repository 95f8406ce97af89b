-- ===== src/Sales/Create/Stocktake.antt =====
-- The stock, the ledger, the drawer and the tab after a call of `create` that returned.
use jenkin_sri_store.Prelude.{
  ℕ, ◌+◌, ◌≡◌, ◌⊎◌, refl, arith, false, none, some, List, [], ◌∷◌, sum_by, sum_by-append,
  Option-cases, inl, inr,
}
use jenkin_sri_store.Prelude.Int.{neg, pos, pos_part, neg_part, ◌≤ℤ◌}
use jenkin_sri_store.Store.{
  RowId, PaymentMethod, Mechanic, Movement, Sale, Db, ok, ran, put_self, Shift,
}
use jenkin_sri_store.Shifts.{Actor, open_drawer_of}
use jenkin_sri_store.Sales.Request.{CreateSale, Demand, aggregate, assert_sale_totals}
use jenkin_sri_store.Sales.Request.Demands.{line_qty, demand_qty, sum_by-aggregate}
use jenkin_sri_store.Sales.Stock.Deduction.{stock_of}
use jenkin_sri_store.Sales.Ledger.{mechanic_row, mechanic_plus}
use jenkin_sri_store.Sales.Movements.{in_qty, out_qty, IsBalanced}
use jenkin_sri_store.Money.{points_for}
use jenkin_sri_store.Sales.Bill.{sale_row}
use jenkin_sri_store.Sales.Bill.Rows.{TakesAll}
use jenkin_sri_store.Sales.Create.{CreateSaleResult, existing_sale, replay, create_sale}
use jenkin_sri_store.Sales.Create.Written.{Written, new_sale-Written}

neg-parts : (n : ℕ) → (pos_part (neg n) ≡ 0) × (neg_part (neg n) ≡ n)
neg-parts n = ground arith

TakesAll-sums :
    (p id : RowId) (ds : List Demand) (ms : List Movement)
    → TakesAll id ds ms
    → (sum_by (out_qty p) ms ≡ sum_by (demand_qty p) ds) × (sum_by (in_qty p) ms ≡ 0)
unfolding sum_by
TakesAll-sums p id [] [] h = (refl, refl)
TakesAll-sums p id (d ∷ ds) (m ∷ ms) (one, h) =
    let (outs, ins) = TakesAll-sums p id ds ms h in
    let (a, b) = neg-parts d.qty in
    (
      ground (arith, outs, a, b, one.product, one.delta),
      ground (arith, ins, a, b, one.product, one.delta),
    )
TakesAll-sums p id [] (m ∷ ms) h = absurd h
TakesAll-sums p id (d ∷ ds) [] h = absurd h

-- A call that returned either answered the bill that was there, or wrote it.
pub create_sale-cases :
    (dto : CreateSale) (actor : Actor) (s : Db) {r : CreateSaleResult} {t : Db}
    → create_sale dto actor s ≡ ok (r, t)
    → ((x : Sale) × (s.sales dto.id ≡ some x) × (x.voided ≡ false) × (r ≡ replay dto x s) × (t ≡ s))
      ⊎ Written dto actor s r t
unfolding create_sale existing_sale assert_sale_totals
create_sale-cases dto actor s {r} {t} h = ran _ _ _ h λ u a e k. ran _ _ _ k λ o b e' k.
    let same : a ≡ s = ground arith in
    elim (Option-cases (s.sales dto.id)) [
      | inl fresh ↦
          let o_none : o ≡ none = ground arith in
          let b_same : b ≡ s = ground arith in inr (new_sale-Written dto actor s (ground arith))
      | inr (x, found) ↦ inl (x, found, ground arith, ground arith, ground arith)
    ]

-- A new bill that is written takes of each product exactly what its lines ask for: what is left
-- and what was sold add up to what was there.
pub create_sale_takes :
    (dto : CreateSale) (actor : Actor) (s : Db) (p : RowId) {r : CreateSaleResult} {t : Db}
    → s.sales dto.id ≡ none
    → create_sale dto actor s ≡ ok (r, t)
    → stock_of (t.products p) + sum_by (line_qty p) dto.items ≡ stock_of (s.products p)
create_sale_takes dto actor s p fresh h = elim (create_sale-cases dto actor s h) [
  | inl (x, found, live, answer, same) ↦ absurd (cc)
  | inr w ↦ w.took p
]

-- If the movements account for the stock of every product, then they do after a call that
-- returned, whether it wrote the bill or answered the one that was there.
pub create_sale-IsBalanced :
    (opening : RowId → ℕ) (dto : CreateSale) (actor : Actor) (s : Db) {r : CreateSaleResult}
    {t : Db}
    → IsBalanced opening s
    → create_sale dto actor s ≡ ok (r, t)
    → IsBalanced opening t
create_sale-IsBalanced opening dto actor s {r} {t} b h = elim (create_sale-cases dto actor s h) [
  | inl (x, found, live, answer, same) ↦ rw same b
  | inr w ↦ record {
    accounted = λ p.
        let (outs, ins) = TakesAll-sums p dto.id (aggregate dto.items) r.movements w.taken in
        rw
          (
            w.moved,
            sum_by-append (out_qty p) s.movements r.movements,
            sum_by-append (in_qty p) s.movements r.movements,
          )
          (omega (arith, w.took p, b.accounted p, outs, ins, sum_by-aggregate p dto.items));
  }
]

-- A new bill on the tab of a mechanic who has a row, written without the override flag, leaves the
-- tab within the mechanic's limit, and carries exactly its total onto it.
pub create_sale_within_limit :
    (dto : CreateSale) (actor : Actor) (s : Db) (id : RowId) (m : Mechanic) {r : CreateSaleResult}
    {t : Db}
    → s.sales dto.id ≡ none
    → dto.payment_method ≡ PaymentMethod.mechanic_credit
    → dto.override_credit_limit ≡ false
    → dto.mechanic_id ≡ some id
    → s.mechanics id ≡ some m
    → create_sale dto actor s ≡ ok (r, t)
    → (m' : Mechanic) × (t.mechanics id ≡ some m')
      × (m'.credit_balance ≡ m.credit_balance + dto.total)
      × (pos m'.credit_balance ≤ℤ m'.credit_limit)
create_sale_within_limit dto actor s id m {r} {t} fresh method no_flag named row h =
    elim (create_sale-cases dto actor s h) [
      | inl (x, found, live, answer, same) ↦ absurd (cc)
      | inr w ↦
          let row' : mechanic_row dto.mechanic_id s ≡ some m = rw named row in
          let fits = w.in_limit m method row' no_flag in
          let after : t.mechanics id
              ≡ some (mechanic_plus dto.total dto.mechanic_delta dto.payment_method m) =
            rw (w.mechanics, named, row) (ground (arith, row)) in
          (
            mechanic_plus dto.total dto.mechanic_delta dto.payment_method m,
            after,
            rw method refl,
            rw method (ground (arith, fits)),
          )
    ]

-- A new bill is written only while the machine's drawer is open; it is stored with that drawer,
-- with its total, and not voided.
pub create_sale_stamps :
    (dto : CreateSale) (actor : Actor) (s : Db) {r : CreateSaleResult} {t : Db}
    → s.sales dto.id ≡ none
    → create_sale dto actor s ≡ ok (r, t)
    → (x : Shift) × (open_drawer_of actor.device_id s.shifts ≡ some x)
      × ((bill : Sale) × (t.sales dto.id ≡ some bill)
          × (bill.shift_id ≡ some x.id)
          × (bill.total ≡ dto.total)
          × (bill.voided ≡ false))
unfolding sale_row
create_sale_stamps dto actor s {r} {t} fresh h = elim (create_sale-cases dto actor s h) [
  | inl (x, found, live, answer, same) ↦ absurd (cc)
  | inr w ↦
      let bill = sale_row dto actor r.receipt_no (points_for dto.total) w.drawer.id s.now in
      let stored : t.sales dto.id ≡ some bill = rw w.headed (put_self dto.id bill s.sales) in
      (w.drawer, w.drawer_open, (bill, stored, refl, refl, refl))
]
