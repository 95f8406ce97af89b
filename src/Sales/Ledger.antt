-- ===== src/Sales/Ledger.antt =====
-- The customer's and the mechanic's running totals, and the credit limit
-- (`lockMechanicAndCheckLimit`, `applyCustomer`, `applyMechanic`).
pub mod Limit
use jenkin_sri_store.Prelude.{
  ℕ, ◌+◌, leb, ◌&&◌, Bool, true, false, Option, none, some, ◌++◌, [], ◌∷◌, if◌then◌else◌,
}
use jenkin_sri_store.Prelude.Int.{ℤ, pos, pos_part, neg_part, leb_ℤ, at_least_0, ◌+ℤ◌}
use jenkin_sri_store.Store.{
  RowId, PaymentMethod, Customer, Mechanic, update, Action, AuditRow, Db, Tx, ok, err, pure, modify,
  credit_limit_exceeded, internal, int4_max, numeric_max,
}
use jenkin_sri_store.Sales.Request.{CreateSale}

-- What a bill that went past the limit on the flag records.
pub record CreditOverride : Type 0 where
  pub credit_limit : ℤ
  pub credit_balance_before : ℕ

pub record CustomerAfter : Type 0 where
  pub id : RowId
  pub points : ℕ
  pub total_spend : ℤ

-- The four totals that go back; `total_credit` does not.
pub record MechanicAfter : Type 0 where
  pub id : RowId
  pub total_sales : ℤ
  pub total_discount : ℤ
  pub total_markup : ℤ
  pub credit_balance : ℕ

abbrev pub customer_after : RowId → Option Customer → Option CustomerAfter
customer_after id none = none
customer_after id (some c) =
    some (record { id = id; points = c.points; total_spend = c.total_spend })

abbrev pub mechanic_after : RowId → Option Mechanic → Option MechanicAfter
mechanic_after id none = none
mechanic_after id (some m) = some (record {
  id = id;
  total_sales = m.total_sales;
  total_discount = m.total_discount;
  total_markup = m.total_markup;
  credit_balance = m.credit_balance;
})

-- What the bill puts on the tab.
abbrev pub on_tab : PaymentMethod → ℕ → ℕ
on_tab PaymentMethod.mechanic_credit total = total
on_tab PaymentMethod.cash total = 0
on_tab PaymentMethod.transfer total = 0

-- The test of the limit, on the row that was locked: only a bill that goes on the tab is tested.
abbrev pub check_limit : PaymentMethod → ℕ → Bool → Option Mechanic → Tx (Option CreditOverride)
check_limit PaymentMethod.mechanic_credit total override (some m) s =
    if leb_ℤ (pos (m.credit_balance + total)) m.credit_limit
    then ok (none, s)
    else (if override
        then ok (
          some (record { credit_limit = m.credit_limit; credit_balance_before = m.credit_balance }),
          s,
        )
        else err (credit_limit_exceeded m.credit_limit m.credit_balance (m.credit_balance + total)))
check_limit method total override row s = ok (none, s)

abbrev pub mechanic_row : Option RowId → Db → Option Mechanic
mechanic_row none s = none
mechanic_row (some id) s = s.mechanics id

unfoldable pub lock_mechanic_and_check_limit : CreateSale → Tx (Option CreditOverride)
lock_mechanic_and_check_limit dto s =
    check_limit dto.payment_method dto.total dto.override_credit_limit
      (mechanic_row dto.mechanic_id s) s

abbrev pub customer_plus : ℕ → ℕ → Customer → Customer
customer_plus points total c = record c {
  points = c.points + points;
  total_spend = at_least_0 (c.total_spend +ℤ pos total);
}

-- The columns hold the new row: an overflow is an error that no handler maps.
abbrev pub customer_fits : Option Customer → Bool
customer_fits none = true
customer_fits (some c) = leb c.points int4_max && leb (pos_part c.total_spend) numeric_max

abbrev pub mechanic_fits : Option Mechanic → Bool
mechanic_fits none = true
mechanic_fits (some m) =
    leb (pos_part m.total_sales) numeric_max
    && leb (pos_part m.total_discount) numeric_max
    && leb (pos_part m.total_markup) numeric_max
    && leb m.credit_balance numeric_max

-- `applyCustomer`.
unfoldable pub apply_customer : Option RowId → ℕ → ℕ → Tx (Option CustomerAfter)
apply_customer none points total s = ok (none, s)
apply_customer (some id) points total s =
    let customers = update id (customer_plus points total) s.customers in
    if customer_fits (customers id)
    then ok (customer_after id (customers id), record s { customers = customers })
    else err internal

-- A missing delta is 0; a negative one is a discount given, a positive one a markup.
abbrev pub discount_of : Option ℤ → ℕ
discount_of none = 0
discount_of (some d) = neg_part d

abbrev pub markup_of : Option ℤ → ℕ
markup_of none = 0
markup_of (some d) = pos_part d

abbrev pub mechanic_plus : ℕ → Option ℤ → PaymentMethod → Mechanic → Mechanic
mechanic_plus total delta method m = record m {
  total_sales = at_least_0 (m.total_sales +ℤ pos total);
  total_discount = at_least_0 (m.total_discount +ℤ pos (discount_of delta));
  total_markup = at_least_0 (m.total_markup +ℤ pos (markup_of delta));
  credit_balance = m.credit_balance + on_tab method total;
}

-- `applyMechanic`.
unfoldable pub apply_mechanic :
    Option RowId → ℕ → Option ℤ → PaymentMethod → Tx (Option MechanicAfter)
apply_mechanic none total delta method s = ok (none, s)
apply_mechanic (some id) total delta method s =
    let mechanics = update id (mechanic_plus total delta method) s.mechanics in
    if mechanic_fits (mechanics id)
    then ok (mechanic_after id (mechanics id), record s { mechanics = mechanics })
    else err internal

-- The audit row of a bill that went past the limit, if there is a balance to name.
unfoldable pub log_override :
    RowId → RowId → Option RowId → Option CreditOverride → Option MechanicAfter → Tx (Unit {0})
log_override user device (some mechanic) (some override) (some after) = modify (λ s. record s {
  audit_log =
      s.audit_log
      ++ record {
        user_id = user;
        device_id = device;
        action = Action.credit_limit_override;
        entity_id = mechanic;
      }
        ∷ [];
})
log_override user device mechanic override after = pure tt
