-- ===== src/Sales/Request/Totals.antt =====
-- Which totals are believed.
use jenkin_sri_store.Prelude.{◌+◌, ◌≤◌, ◌≡◌, ◌↔◌, arith}
use jenkin_sri_store.Prelude.Int.{◌-ℤ◌}
use jenkin_sri_store.Store.{Db, ok}
use jenkin_sri_store.Sales.Request.{CreateSale, computed_subtotal, totals_off, assert_sale_totals}

-- The three amounts are within one satang of the lines.
pub record AddsUp (dto : CreateSale) : Type 0 where
  pub subtotal_above : dto.subtotal ≤ computed_subtotal dto.items + 1
  pub subtotal_below : computed_subtotal dto.items ≤ dto.subtotal + 1
  pub total_above : dto.discount + dto.total ≤ computed_subtotal dto.items + 1
  pub total_below : computed_subtotal dto.items ≤ dto.discount + dto.total + 1

-- A bill passes exactly when its subtotal, and its total after the discount, are each within one
-- satang of the sum of its lines; the check writes nothing.
pub assert_sale_totals_iff :
    (dto : CreateSale) (s : Db) → (assert_sale_totals dto s ≡ ok (tt, s)) ↔ AddsUp dto
unfolding assert_sale_totals totals_off ◌-ℤ◌
assert_sale_totals_iff dto s = (λ h. ground arith, λ a. ground arith)
