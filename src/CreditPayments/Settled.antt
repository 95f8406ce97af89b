-- ===== src/CreditPayments/Settled.antt =====
-- What a payment takes off the tab, and a payment that is sent again.
use jenkin_sri_store.Prelude.{◌+◌, ◌-◌, ◌≡◌, ◌≢◌, refl, ap, arith, true, false, none, some, ==_refl}
use jenkin_sri_store.Money.{clamped_sub}
use jenkin_sri_store.Store.{
  RowId, SettleMethod, Mechanic, CreditPayment, Shift, put_self, update_self, update_ne, Db, ok,
  ◌>>=◌,
}
use jenkin_sri_store.Shifts.{Actor, open_drawer_of}
use jenkin_sri_store.CreditPayments.{
  CreateCreditPayment, CreateCreditPaymentResult, same_settle, stored_payment, new_payment_row,
  paid_off, lock_balance, existing_payment, create_credit_payment,
}
use jenkin_sri_store.CreditPayments.Paid.{IsNew, create_credit_payment-Paid}

-- A payment that was not stored before and is taken lowers the mechanic's tab by its amount, not
-- below 0, and by exactly its amount where the counter did not agree to take more than the tab. It
-- answers the tab that it left, leaves every other tab, and is stored with its amount and with the
-- machine's drawer, which is open.
pub create_credit_payment_settles :
    (mechanic : RowId) (dto : CreateCreditPayment) (actor : Actor) (s : Db)
    {r : CreateCreditPaymentResult} {t : Db}
    → IsNew dto.id s
    → create_credit_payment mechanic dto actor s ≡ ok (r, t)
    → ((m m' : Mechanic) × (s.mechanics mechanic ≡ some m)
        × (t.mechanics mechanic ≡ some m')
        × (m'.credit_balance ≡ m.credit_balance - dto.amount)
        × (dto.allow_overpayment ≡ false → m'.credit_balance + dto.amount ≡ m.credit_balance)
        × (r.mechanic_credit_balance_after ≡ m'.credit_balance))
      × ((other : RowId) → mechanic ≢ other → t.mechanics other ≡ s.mechanics other)
      × ((x : Shift) × (row : CreditPayment) × (open_drawer_of actor.device_id s.shifts ≡ some x)
          × (t.credit_payments r.id ≡ some row)
          × (row.amount ≡ dto.amount)
          × (row.shift_id ≡ some x.id))
unfolding clamped_sub
create_credit_payment_settles mechanic dto actor s {r} {t} fresh h =
    let (m, found, w) = create_credit_payment-Paid mechanic dto actor s fresh h in
    let row = new_payment_row mechanic dto r.receipt_no w.drawer.id s.now in
    (
      (
        m,
        paid_off dto.amount m,
        found,
        rw w.mechanics (update_self mechanic (paid_off dto.amount) s.mechanics m found),
        refl,
        λ exact. ground (arith, w.agreed),
        ap (λ (x : CreateCreditPaymentResult). x.mechanic_credit_balance_after) w.told,
      ),
      λ other ne. rw w.mechanics (update_ne mechanic other (paid_off dto.amount) s.mechanics ne),
      (w.drawer, row, w.drawer_open, rw w.stored (put_self r.id row s.credit_payments), refl, refl),
    )

same_settle_refl : (x : SettleMethod) → same_settle x x ≡ true
same_settle_refl SettleMethod.cash = refl
same_settle_refl SettleMethod.transfer = refl

stored_again :
    (mechanic k : RowId) (dto : CreateCreditPayment) (actor : Actor) (row : CreditPayment)
    (m : Mechanic) (t : Db)
    → dto.id ≡ some k
    → t.mechanics mechanic ≡ some m
    → t.credit_payments k ≡ some row
    → row.mechanic_id ≡ mechanic
    → row.amount ≡ dto.amount
    → row.payment_method ≡ some dto.payment_method
    → create_credit_payment mechanic dto actor t
      ≡ ok (stored_payment k mechanic dto m.credit_balance row, t)
unfolding create_credit_payment lock_balance existing_payment ◌>>=◌
stored_again mechanic k dto actor row m t id found stored same amount method =
    rw
      (
        found,
        id,
        stored,
        same,
        amount,
        method,
        ==_refl mechanic,
        ==_refl dto.amount,
        same_settle_refl dto.payment_method,
      )
      refl

-- A payment under an id of the client's that is sent again, before anything else is written, is
-- answered as it was the first time, and takes nothing more off the tab: it writes nothing.
pub create_credit_payment_again :
    (mechanic k : RowId) (dto : CreateCreditPayment) (actor : Actor) (s : Db)
    {r : CreateCreditPaymentResult} {t : Db}
    → dto.id ≡ some k
    → s.credit_payments k ≡ none
    → create_credit_payment mechanic dto actor s ≡ ok (r, t)
    → create_credit_payment mechanic dto actor t ≡ ok (r, t)
create_credit_payment_again mechanic k dto actor s {r} {t} id fresh h =
    let new : IsNew dto.id s = λ j e. cc in
    let (m, found, w) = create_credit_payment-Paid mechanic dto actor s new h in
    let row = new_payment_row mechanic dto r.receipt_no w.drawer.id s.now in
    let after : t.mechanics mechanic ≡ some (paid_off dto.amount m) =
      rw w.mechanics (update_self mechanic (paid_off dto.amount) s.mechanics m found) in
    let key : r.id ≡ k = w.named k id in
    let stored : t.credit_payments k ≡ some row =
      rw (w.stored, key) (put_self k row s.credit_payments) in
    let again =
      stored_again mechanic k dto actor row (paid_off dto.amount m) t id after stored refl refl
        refl in
    cc (again, w.told, key)
