-- ===== src/Sales/Ledger/Limit.antt =====
-- What the tab's check and the two running totals do when they return.
use jenkin_sri_store.Prelude.{◌+◌, ◌≡◌, arith, Bool, true, false, Option, none, some}
use jenkin_sri_store.Prelude.Int.{pos, leb_ℤ}
use jenkin_sri_store.Store.{PaymentMethod, Mechanic, Db, ok}
use jenkin_sri_store.Sales.Request.{CreateSale}
use jenkin_sri_store.Sales.Ledger.{
  CreditOverride, mechanic_row, check_limit, lock_mechanic_and_check_limit,
}

-- The bill would leave the mechanic within the limit.
abbrev pub within_limit : Mechanic → CreateSale → Bool
within_limit m dto = leb_ℤ (pos (m.credit_balance + dto.total)) m.credit_limit

check_limit-ok :
    (method : PaymentMethod) (dto : CreateSale) (flag : Bool) (row : Option Mechanic) (s : Db)
    {o : Option CreditOverride} {t : Db}
    → check_limit method dto.total flag row s ≡ ok (o, t)
    → (t ≡ s)
      × ((m : Mechanic)
          → method ≡ PaymentMethod.mechanic_credit
          → row ≡ some m
          → flag ≡ false
          → within_limit m dto ≡ true)
check_limit-ok PaymentMethod.cash dto flag row s h = (cc, λ m e. cc)
check_limit-ok PaymentMethod.transfer dto flag row s h = (cc, λ m e. cc)
check_limit-ok PaymentMethod.mechanic_credit dto flag none s h = (cc, λ m e f. cc)
check_limit-ok PaymentMethod.mechanic_credit dto flag (some m) s h =
    (ground arith, λ m' e f g. ground arith)

pub lock_mechanic_and_check_limit-ok :
    (dto : CreateSale) (s : Db) {o : Option CreditOverride} {t : Db}
    → lock_mechanic_and_check_limit dto s ≡ ok (o, t)
    → (t ≡ s)
      × ((m : Mechanic)
          → dto.payment_method ≡ PaymentMethod.mechanic_credit
          → mechanic_row dto.mechanic_id s ≡ some m
          → dto.override_credit_limit ≡ false
          → within_limit m dto ≡ true)
unfolding lock_mechanic_and_check_limit
lock_mechanic_and_check_limit-ok dto s h =
    check_limit-ok dto.payment_method dto dto.override_credit_limit (mechanic_row dto.mechanic_id s)
      s h
