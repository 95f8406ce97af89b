-- ===== src/Products/Adjusted.antt =====
-- What a correction of the count does to the stock and to the ledger.
use jenkin_sri_store.Prelude.{
  ℕ, ◌+◌, ◌-◌, ◌≤◌, ◌≡◌, refl, sym, ◌∙◌, arith, false, some, [], ◌∷◌, ◌++◌, ◌==◌, not, Option-cases,
  Bool-cases, inl, inr,
}
use jenkin_sri_store.Prelude.Int.{ℤ, pos, pos_part, neg_part, ◌+ℤ◌, leb_ℤ, +ℤ_parts}
use jenkin_sri_store.Store.{
  RowId, int4_max, Product, Db, ok, ran, throw_if-ok, put, put_self, on_commit, stock_out_of_range,
}
use jenkin_sri_store.Shifts.{Actor}
use jenkin_sri_store.Sales.Stock.Deduction.{stock_of}
use jenkin_sri_store.Sales.Movements.{ledger_stock, Posted}
use jenkin_sri_store.Products.{
  StockAdjustment, StockAdjustmentResult, requested_stock, adjusted, adjustment_movement, lock_live,
  write_adjustment, adjust_stock,
}

-- The stock that is asked for, stopped at 0.
requested-parts :
    (before : ℕ) (delta : ℤ)
    → pos_part (requested_stock before delta) ≡ before + pos_part delta - neg_part delta
unfolding ◌+ℤ◌
requested-parts before delta = ground arith

lock_live-ok :
    (id : RowId) (s : Db) {p : Product} {t : Db}
    → lock_live id s ≡ ok (p, t)
    → (s.products id ≡ some p) × (p.deleted ≡ false) × (t ≡ s)
unfolding lock_live
lock_live-ok id s h = elim (Option-cases (s.products id)) [
  | inl missing ↦ absurd (ground arith)
  | inr (p, e) ↦ elim (Bool-cases p.deleted) [
    | inl gone ↦ absurd (ground arith)
    | inr live ↦ (ground arith, ground arith, ground arith)
  ]
]

-- What a correction that returned did.
pub record Adjusted (id : RowId) (input : StockAdjustment) (s : Db) (r : StockAdjustmentResult)
    (t : Db) : Type 0 where
  pub before : Product
  pub found : s.products id ≡ some before
  pub live : before.deleted ≡ false
  pub in_range : before.stock + pos_part input.delta ≤ int4_max + neg_part input.delta
  pub stored : t.products ≡ put id (adjusted input.delta before) s.products
  pub answered : r.product ≡ adjusted input.delta before
  pub told : r.stock_after ≡ before.stock + pos_part input.delta - neg_part input.delta
  pub moved : t.movements ≡ s.movements ++ r.movement ∷ []
  pub product : r.movement.product_id ≡ id
  pub delta : r.movement.delta ≡ input.delta
  pub recorded : r.movement.stock_after ≡ r.stock_after
  pub only : t ≡ record s {
    products = t.products;
    movements = t.movements;
    audit_log = t.audit_log;
    next_id = t.next_id;
    hooks = t.hooks;
  }

pub adjust_stock-Adjusted :
    (id : RowId) (input : StockAdjustment) (actor : Actor) (s : Db) {r : StockAdjustmentResult}
    {t : Db}
    → adjust_stock id input actor s ≡ ok (r, t)
    → Adjusted id input s r t
unfolding adjust_stock write_adjustment adjustment_movement on_commit
adjust_stock-Adjusted id input actor s {r} {t} h = ran _ _ _ h λ p a ea k. ran _ _ _ k λ u1 b eb k.
    ran _ _ _ k λ m c ec k. ran _ _ _ k λ u2 d ed k. ran _ _ _ k λ u3 e ee k.
      let (found, live, a_same) = lock_live-ok id s ea in
      let (fits, b_same) =
        throw_if-ok (not (leb_ℤ (requested_stock p.stock input.delta) (pos int4_max)))
          stock_out_of_range a eb in
      let b_at : b ≡ s = cc in
      let mv = adjustment_movement s.next_id id input (adjusted input.delta p) s.now in
      let m_at : m ≡ mv = cc in
      let answer : r.movement ≡ mv = cc in
      record {
        before = p;
        found = found;
        live = live;
        in_range = ground (arith, +ℤ_parts (pos p.stock) input.delta, fits);
        stored = cc;
        answered = cc;
        told = rw (sym (requested-parts p.stock input.delta)) (cc);
        moved = cc;
        product = rw answer refl;
        delta = rw answer refl;
        recorded = rw answer (cc);
        only = cc;
      }

-- A correction that returned is of a product that is on sale. It leaves the product what it had
-- and the asked difference, and 0 where that would be less; it answers and records that stock, with
-- the difference that was asked for, and it leaves the stock of every other product.
pub adjust_stock_moves :
    (id : RowId) (input : StockAdjustment) (actor : Actor) (s : Db) {r : StockAdjustmentResult}
    {t : Db}
    → adjust_stock id input actor s ≡ ok (r, t)
    → (stock_of (t.products id)
        ≡ stock_of (s.products id) + pos_part input.delta - neg_part input.delta)
      × (r.stock_after ≡ stock_of (t.products id))
      × (t.movements ≡ s.movements ++ r.movement ∷ [])
      × (r.movement.delta ≡ input.delta)
      × (r.movement.stock_after ≡ r.stock_after)
      × ((p : RowId) → (id == p) ≡ false → t.products p ≡ s.products p)
      × ((x : Product) × (s.products id ≡ some x) × (x.deleted ≡ false))
adjust_stock_moves id input actor s {r} {t} h =
    let w = adjust_stock-Adjusted id input actor s h in
    let after : t.products id ≡ some (adjusted input.delta w.before) =
      rw (w.stored, put_self id (adjusted input.delta w.before) s.products) refl in
    let parts = requested-parts w.before.stock input.delta in
    (
      rw (after, w.found) parts,
      rw after (w.told ∙ sym parts),
      w.moved,
      w.delta,
      w.recorded,
      λ p other. rw w.stored (ground arith),
      (w.before, w.found, w.live),
    )

pub adjust_stock-Posted :
    (id : RowId) (input : StockAdjustment) (actor : Actor) (s : Db) {r : StockAdjustmentResult}
    {t : Db}
    → adjust_stock id input actor s ≡ ok (r, t)
    → Posted s t
unfolding ledger_stock
adjust_stock-Posted id input actor s {r} {t} h =
    let w = adjust_stock-Adjusted id input actor s h in
    record {
      rows = r.movement ∷ [];
      appended = w.moved;
      stock = λ p.
          rw w.stored (
            ground
              (arith, w.product, w.delta, w.found, requested-parts w.before.stock input.delta));
    }
