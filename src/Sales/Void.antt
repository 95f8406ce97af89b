-- ===== src/Sales/Void.antt =====
-- Voiding a bill (server/src/sales/void.service.ts, `voidIn`).
pub mod Undo
pub mod RoundTrip
use jenkin_sri_store.Prelude.{
  ℕ, ◌-◌, Bool, true, false, Option, none, some, List, [], ◌∷◌, ◌++◌, ◌==◌, if◌then◌else◌, not, leb,
  keep, sort_by, length, ltb,
}
use jenkin_sri_store.Prelude.Int.{ℤ, pos, at_least_0, ◌-ℤ◌}
use jenkin_sri_store.Store.{
  RowId, Text, PaymentMethod, Customer, Mechanic, Sale, SaleItem, Return, Movement, MovementType,
  Action, AuditRow, CacheName, Hook, Db, Tx, ok, err, pure, throw_if, or_throw, gets, modify,
  update, on_commit, ◌>>=◌, ◌>>◌, sale_not_found, sale_voided, sale_has_returns,
  sale_not_in_open_shift, internal,
}
use jenkin_sri_store.Shifts.{Actor, require_open_shift_id_for}
use jenkin_sri_store.Sales.Ledger.{on_tab, discount_of, markup_of}
use jenkin_sri_store.Sales.Create.{if_named}
use jenkin_sri_store.Sales.Restock.{Restock, add_restock, restock}

-- The proof that the PIN was checked, for one actor and one bill.
pub record AuthorisedVoid : Type 0 where
  pub actor : Actor
  pub sale_id : RowId

-- `SELECT product_id, sum(qty) … GROUP BY product_id ORDER BY product_id`.
unfoldable pub add_items : List SaleItem → List Restock
add_items [] = []
add_items (i ∷ is) = add_restock i.product_id i.qty (add_items is)

unfoldable pub grouped : RowId → List SaleItem → List Restock
unfolding add_items
grouped sale_id items =
    sort_by (λ a b. leb a.product_id b.product_id)
      (add_items (keep (λ i. i.sale_id == sale_id) items))

-- `restoreStock`.
unfoldable pub restore_stock : RowId → Tx (List (Option Movement))
unfolding grouped
restore_stock sale_id s = restock MovementType.void sale_id (grouped sale_id s.sale_items) s

-- `reverseLedger`: `GREATEST(0, …)` is the subtraction that stops at 0.
abbrev pub customer_minus : ℕ → ℕ → Customer → Customer
customer_minus points total c = record c {
  points = c.points - points;
  total_spend = at_least_0 (c.total_spend -ℤ pos total);
}

abbrev pub mechanic_minus : ℕ → Option ℤ → PaymentMethod → Mechanic → Mechanic
mechanic_minus total delta method m = record m {
  total_sales = at_least_0 (m.total_sales -ℤ pos total);
  total_discount = at_least_0 (m.total_discount -ℤ pos (discount_of delta));
  total_markup = at_least_0 (m.total_markup -ℤ pos (markup_of delta));
  credit_balance = m.credit_balance - on_tab method total;
}

abbrev pub reverse_customer : Sale → Option RowId → Db → Db
reverse_customer sale none s = s
reverse_customer sale (some id) s = record s {
  customers = update id (customer_minus sale.points_granted sale.total) s.customers;
}

abbrev pub reverse_mechanic : Sale → Option RowId → Db → Db
reverse_mechanic sale none s = s
reverse_mechanic sale (some id) s = record s {
  mechanics =
      update id (mechanic_minus sale.total sale.mechanic_delta sale.payment_method) s.mechanics;
}

unfoldable pub reverse_ledger : Sale → Tx (Unit {0})
reverse_ledger sale =
    modify (λ s. reverse_mechanic sale sale.mechanic_id (reverse_customer sale sale.customer_id s))

abbrev pub stamped_void : ℕ → Sale → Sale
stamped_void now sale = record sale { voided = true; voided_at = some now }

-- The flag on the bill, set by a void and by the credit note that takes back its last unit.
unfoldable pub mark_voided : RowId → Tx (Unit {0})
mark_voided id = modify (λ s. record s { sales = update id (stamped_void s.now) s.sales })

-- `sale.shift_id !== openShiftId`.
abbrev pub in_shift : Option RowId → RowId → Bool
in_shift none id = false
in_shift (some x) id = x == id

abbrev pub returns_of : RowId → List Return → List Return
returns_of sale_id = keep (λ r. r.sale_id == sale_id)

-- The hooks of a change to the stock and to the bill's two ledgers.
unfoldable pub ledger_hooks : Sale → Tx (Unit {0})
ledger_hooks sale = do
  on_commit (Hook.invalidate CacheName.products)
  if_named sale.customer_id CacheName.customers
  if_named sale.mechanic_id CacheName.mechanics

unfoldable pub log_void : Actor → RowId → Tx (Unit {0})
log_void actor sale_id = modify (λ s. record s {
  audit_log =
      s.audit_log
      ++ record {
        user_id = actor.user_id;
        device_id = actor.device_id;
        action = Action.sale_void;
        entity_id = sale_id;
      }
        ∷ [];
})

-- `voidIn`, less the read of the bill that it answers with.
unfoldable pub void_sale : RowId → AuthorisedVoid → Tx (Unit {0})
unfolding restore_stock reverse_ledger mark_voided ledger_hooks log_void
void_sale sale_id authorised = do
  throw_if (not (authorised.sale_id == sale_id)) internal
  row ← gets (λ s. s.sales sale_id)
  sale ← or_throw row sale_not_found
  throw_if sale.voided sale_voided
  credited ← gets (λ s. returns_of sale_id s.returns)
  throw_if (ltb 0 (length credited)) sale_has_returns
  shift_id ← require_open_shift_id_for authorised.actor.device_id
  throw_if (not (in_shift sale.shift_id shift_id)) sale_not_in_open_shift
  moved ← restore_stock sale_id
  reverse_ledger sale
  ledger_hooks sale
  mark_voided sale_id
  log_void authorised.actor sale_id
