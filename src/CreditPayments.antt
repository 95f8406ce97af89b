-- ===== src/CreditPayments.antt =====
-- A mechanic settles the tab (server/src/mechanics/credit-payments.service.ts).
pub mod Paid
pub mod Settled
use jenkin_sri_store.Prelude.{
  ℕ, Bool, true, false, Option, none, some, List, [], ◌∷◌, ◌++◌, ◌==◌, ◌&&◌, ltb, if◌then◌else◌,
  ◌-◌,
}
use jenkin_sri_store.Prelude.Int.{pos}
use jenkin_sri_store.Store.{
  Text, RowId, SettleMethod, Mechanic, CreditPayment, DocType, Action, AuditRow, Hook, CacheName,
  put, update, is_some, Db, Tx, ok, err, pure, modify, throw_if, gets, ◌>>=◌, ◌>>◌, new_id,
  on_commit, mechanic_not_found, credit_payment_id_reused, credit_payment_exceeds_balance, internal,
}
use jenkin_sri_store.Money.{clamped_sub}
use jenkin_sri_store.Documents.{issue}
use jenkin_sri_store.Shifts.{Actor, require_open_shift_id_for}
use jenkin_sri_store.Sales.Create.{or_run}

-- The parsed body; an amount is more than 0.
pub record CreateCreditPayment : Type 0 where
  pub id : Option RowId
  pub amount : ℕ
  pub payment_method : SettleMethod
  pub note : Option Text
  pub allow_overpayment : Bool

pub record CreateCreditPaymentResult : Type 0 where
  pub id : RowId
  pub receipt_no : List ℕ
  pub mechanic_id : RowId
  pub amount : ℕ
  pub payment_method : SettleMethod
  pub note : Option Text
  pub date : ℕ
  pub shift_id : Option RowId
  pub mechanic_credit_balance_after : ℕ

abbrev pub same_settle : SettleMethod → SettleMethod → Bool
same_settle SettleMethod.cash SettleMethod.cash = true
same_settle SettleMethod.transfer SettleMethod.transfer = true
same_settle _ _ = false

-- A row without a method is no payment by the method that is asked for.
abbrev pub paid_by : Option SettleMethod → SettleMethod → Bool
paid_by none method = false
paid_by (some m) method = same_settle m method

abbrev pub balance_at : Option Mechanic → Tx ℕ
balance_at none s = err mechanic_not_found
balance_at (some m) s = ok (m.credit_balance, s)

-- `lockBalance`.
unfoldable pub lock_balance : RowId → Tx ℕ
lock_balance mechanic s = balance_at (s.mechanics mechanic) s

-- The answer of a payment that was there: as it was stored, with the tab as it stands now.
abbrev pub stored_payment :
    RowId → RowId → CreateCreditPayment → ℕ → CreditPayment → CreateCreditPaymentResult
stored_payment id mechanic dto balance row = record {
  id = id;
  receipt_no = row.receipt_no;
  mechanic_id = mechanic;
  amount = row.amount;
  payment_method = dto.payment_method;
  note = row.note;
  date = row.date;
  shift_id = row.shift_id;
  mechanic_credit_balance_after = balance;
}

abbrev pub is_same_payment : RowId → CreateCreditPayment → CreditPayment → Bool
is_same_payment mechanic dto row =
    row.mechanic_id == mechanic
    && row.amount == dto.amount
    && paid_by row.payment_method dto.payment_method

abbrev pub payment_row :
    RowId
    → RowId
    → CreateCreditPayment
    → ℕ
    → Option CreditPayment
    → Tx (Option CreateCreditPaymentResult)
payment_row id mechanic dto balance none s = ok (none, s)
payment_row id mechanic dto balance (some row) s =
    if is_same_payment mechanic dto row
    then ok (some (stored_payment id mechanic dto balance row), s)
    else err credit_payment_id_reused

abbrev pub payment_under :
    RowId → CreateCreditPayment → ℕ → Option RowId → Tx (Option CreateCreditPaymentResult)
payment_under mechanic dto balance none s = ok (none, s)
payment_under mechanic dto balance (some id) s =
    payment_row id mechanic dto balance (s.credit_payments id) s

-- `existingPayment`, asked only of a body that names an id.
unfoldable pub existing_payment :
    RowId → CreateCreditPayment → ℕ → Tx (Option CreateCreditPaymentResult)
existing_payment mechanic dto balance = payment_under mechanic dto balance dto.id

-- `dto.id ?? newId('cp')`.
abbrev pub id_or_new : Option RowId → Tx RowId
id_or_new none = new_id
id_or_new (some id) = pure id

abbrev pub new_payment_row : RowId → CreateCreditPayment → List ℕ → RowId → ℕ → CreditPayment
new_payment_row mechanic dto receipt_no shift_id now = record {
  receipt_no = receipt_no;
  mechanic_id = mechanic;
  amount = dto.amount;
  payment_method = some dto.payment_method;
  note = dto.note;
  date = now;
  shift_id = some shift_id;
}

-- The insert, whose key no other row has.
unfoldable pub insert_payment : RowId → RowId → CreateCreditPayment → List ℕ → RowId → Tx ℕ
insert_payment id mechanic dto receipt_no shift_id s =
    if is_some (s.credit_payments id)
    then err internal
    else ok (
      s.now,
      record s {
        credit_payments =
            put id (new_payment_row mechanic dto receipt_no shift_id s.now) s.credit_payments;
      },
    )

abbrev pub paid_off : ℕ → Mechanic → Mechanic
paid_off amount m = record m { credit_balance = clamped_sub m.credit_balance (pos amount) }

abbrev pub balance_left : Option Mechanic → Db → Tx ℕ
balance_left none t s = err internal
balance_left (some m) t s = ok (m.credit_balance, t)

-- `reduceBalance`.
unfoldable pub reduce_balance : RowId → ℕ → Tx ℕ
reduce_balance mechanic amount s =
    let t = record s { mechanics = update mechanic (paid_off amount) s.mechanics } in
    balance_left (t.mechanics mechanic) t s

abbrev pub log_overpayment : Bool → RowId → Actor → Tx (Unit {0})
log_overpayment false mechanic actor = pure tt
log_overpayment true mechanic actor = modify (λ s. record s {
  audit_log =
      s.audit_log
      ++ record {
        user_id = actor.user_id;
        device_id = actor.device_id;
        action = Action.credit_payment_overpayment;
        entity_id = mechanic;
      }
        ∷ [];
})

-- The payment, once none was found under its id.
unfoldable pub new_payment : RowId → CreateCreditPayment → ℕ → Actor → Tx CreateCreditPaymentResult
unfolding insert_payment reduce_balance
new_payment mechanic dto balance actor = do
  shift_id ← require_open_shift_id_for actor.device_id
  let overpaid = ltb balance dto.amount
  throw_if (overpaid && (if dto.allow_overpayment then false else true))
      (credit_payment_exceeds_balance balance dto.amount (dto.amount - balance))
  receipt_no ← issue actor.device_id DocType.cp
  id ← id_or_new dto.id
  date ← insert_payment id mechanic dto receipt_no shift_id
  balance_after ← reduce_balance mechanic dto.amount
  on_commit (Hook.invalidate CacheName.mechanics)
  log_overpayment overpaid mechanic actor
  pure (record {
    id = id;
    receipt_no = receipt_no;
    mechanic_id = mechanic;
    amount = dto.amount;
    payment_method = dto.payment_method;
    note = dto.note;
    date = date;
    shift_id = some shift_id;
    mechanic_credit_balance_after = balance_after;
  })

-- `CreditPaymentsService.create`.
unfoldable pub create_credit_payment :
    RowId → CreateCreditPayment → Actor → Tx CreateCreditPaymentResult
unfolding lock_balance existing_payment new_payment
create_credit_payment mechanic dto actor = do
  balance ← lock_balance mechanic
  existing ← existing_payment mechanic dto balance
  or_run existing (new_payment mechanic dto balance actor)
