-- ===== src/Tests/Payments.antt =====
-- A correction of the count, and a payment off the tab.
use jenkin_sri_store.Prelude.{
  ◌+◌, ◌-◌, ◌≡◌, ◌≢◌, refl, true, false, none, some, [], ◌∷◌, ◌++◌, ◌==◌, keep,
}
use jenkin_sri_store.Prelude.Int.{negsuc, pos, pos_part, neg_part, ◌+ℤ◌}
use jenkin_sri_store.Store.{
  RowId, SettleMethod, MovementType, Movement, Product, Mechanic, Shift, CreditPayment, Db, ok,
  new_id, on_commit, ◌>>=◌,
}
use jenkin_sri_store.Money.{clamped_sub}
use jenkin_sri_store.Documents.{device_no, bump_counter, issue}
use jenkin_sri_store.Shifts.{latest, open_drawer_of, require_open_shift_id_for}
use jenkin_sri_store.Sales.Stock.Deduction.{stock_of}
use jenkin_sri_store.Products.{
  StockAdjustment, StockAdjustmentResult, AdjustmentType, lock_live, write_adjustment, adjust_stock,
}
use jenkin_sri_store.Products.Adjusted.{adjust_stock_moves}
use jenkin_sri_store.CreditPayments.{
  CreateCreditPayment, CreateCreditPaymentResult, lock_balance, existing_payment, insert_payment,
  reduce_balance, new_payment, create_credit_payment,
}
use jenkin_sri_store.CreditPayments.Settled.{create_credit_payment_settles}
use jenkin_sri_store.Tests.Shop.{shop, clerk, bolt, rows_of, answer_of, returned, returned-eq}

-- Fifteen bolts are written off, of the ten there are.
abbrev loss : StockAdjustment
loss = record { delta = negsuc 14; type = AdjustmentType.adjustment_out; note = some 3 }

abbrev no_movement : Movement
no_movement = record {
  id = 0;
  product_id = 0;
  part_no = 0;
  name = 0;
  delta = pos 0;
  type = MovementType.sale;
  note = none;
  stock_after = 0;
  ref_id = none;
  date = 0;
}

abbrev no_adjustment : StockAdjustmentResult
no_adjustment = record { stock_after = 0; product = bolt; movement = no_movement }

abbrev pub after_loss : Db
after_loss = rows_of (adjust_stock 1 loss clerk shop)

abbrev pub loss_answer : StockAdjustmentResult
loss_answer = answer_of no_adjustment (adjust_stock 1 loss clerk shop)

loss_returns : returned (adjust_stock 1 loss clerk shop) ≡ true
unfolding adjust_stock lock_live write_adjustment on_commit ◌>>=◌ ◌+ℤ◌
loss_returns = refl

pub loss_ran : adjust_stock 1 loss clerk shop ≡ ok (loss_answer, after_loss)
loss_ran = returned-eq no_adjustment (adjust_stock 1 loss clerk shop) loss_returns

no_bolts : stock_of (after_loss.products 1) ≡ 0
unfolding adjust_stock lock_live write_adjustment on_commit ◌>>=◌ ◌+ℤ◌
no_bolts = refl

adjust_stock_moves_example :
    (stock_of (after_loss.products 1)
      ≡ stock_of (shop.products 1) + pos_part loss.delta - neg_part loss.delta)
    × (loss_answer.stock_after ≡ stock_of (after_loss.products 1))
    × (after_loss.movements ≡ shop.movements ++ loss_answer.movement ∷ [])
    × (loss_answer.movement.delta ≡ loss.delta)
    × (loss_answer.movement.stock_after ≡ loss_answer.stock_after)
    × ((p : RowId) → (1 == p) ≡ false → after_loss.products p ≡ shop.products p)
    × ((x : Product) × (shop.products 1 ≡ some x) × (x.deleted ≡ false))
adjust_stock_moves_example = adjust_stock_moves 1 loss clerk shop loss_ran

-- A part of the tab of 300.00.
abbrev payment : CreateCreditPayment
payment = record {
  id = some 900;
  amount = 20000;
  payment_method = SettleMethod.transfer;
  note = none;
  allow_overpayment = false;
}

abbrev no_payment : CreateCreditPaymentResult
no_payment = record {
  id = 0;
  receipt_no = [];
  mechanic_id = 0;
  amount = 0;
  payment_method = SettleMethod.cash;
  note = none;
  date = 0;
  shift_id = none;
  mechanic_credit_balance_after = 0;
}

abbrev pub after_payment : Db
after_payment = rows_of (create_credit_payment 1 payment clerk shop)

abbrev pub payment_answer : CreateCreditPaymentResult
payment_answer = answer_of no_payment (create_credit_payment 1 payment clerk shop)

payment_returns : returned (create_credit_payment 1 payment clerk shop) ≡ true
unfolding create_credit_payment lock_balance existing_payment new_payment require_open_shift_id_for
    open_drawer_of latest keep issue device_no bump_counter insert_payment reduce_balance new_id
    on_commit ◌>>=◌ clamped_sub
payment_returns = refl

pub payment_ran : create_credit_payment 1 payment clerk shop ≡ ok (payment_answer, after_payment)
payment_ran = returned-eq no_payment (create_credit_payment 1 payment clerk shop) payment_returns

create_credit_payment_settles_example :
    ((m m' : Mechanic) × (shop.mechanics 1 ≡ some m)
      × (after_payment.mechanics 1 ≡ some m')
      × (m'.credit_balance ≡ m.credit_balance - 20000)
      × (payment.allow_overpayment ≡ false → m'.credit_balance + 20000 ≡ m.credit_balance)
      × (payment_answer.mechanic_credit_balance_after ≡ m'.credit_balance))
    × ((other : RowId) → 1 ≢ other → after_payment.mechanics other ≡ shop.mechanics other)
    × ((x : Shift) × (row : CreditPayment) × (open_drawer_of 1 shop.shifts ≡ some x)
        × (after_payment.credit_payments payment_answer.id ≡ some row)
        × (row.amount ≡ 20000)
        × (row.shift_id ≡ some x.id))
create_credit_payment_settles_example =
    create_credit_payment_settles 1 payment clerk shop (λ k e. refl) payment_ran
