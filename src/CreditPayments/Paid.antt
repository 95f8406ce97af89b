-- ===== src/CreditPayments/Paid.antt =====
-- What a payment that returned has written.
use jenkin_sri_store.Prelude.{
  ℕ, ◌≡◌, refl, sym, ◌∙◌, arith, Bool, true, false, Option, none, some, List, ltb, ◌&&◌,
  if◌then◌else◌, Option-cases, Bool-cases, inl, inr,
}
use jenkin_sri_store.Prelude.Int.{pos}
use jenkin_sri_store.Money.{clamped_sub}
use jenkin_sri_store.Store.{
  RowId, Mechanic, DocType, Shift, put, update, update_self, Db, ok, ran, throw_if-ok, on_commit,
  new_id,
}
use jenkin_sri_store.Documents.Series.{issue-Issued}
use jenkin_sri_store.Shifts.{Actor, open_drawer_of}
use jenkin_sri_store.Shifts.Drawer.{require_open_shift_id_for-ok}
use jenkin_sri_store.CreditPayments.{
  CreateCreditPayment, CreateCreditPaymentResult, is_same_payment, new_payment_row, paid_off,
  lock_balance, existing_payment, id_or_new, insert_payment, reduce_balance, log_overpayment,
  new_payment, create_credit_payment,
}

-- What a payment that was written left behind.
pub record Paid (mechanic : RowId) (dto : CreateCreditPayment) (before : Mechanic) (actor : Actor)
    (s : Db) (r : CreateCreditPaymentResult) (t : Db) : Type 0 where
  pub drawer : Shift
  pub drawer_open : open_drawer_of actor.device_id s.shifts ≡ some drawer
  pub agreed :
      (ltb before.credit_balance dto.amount && (if dto.allow_overpayment then false else true))
      ≡ false
  pub named : (id : RowId) → dto.id ≡ some id → r.id ≡ id
  pub fresh : s.credit_payments r.id ≡ none
  pub stored :
      t.credit_payments
      ≡ put r.id (new_payment_row mechanic dto r.receipt_no drawer.id s.now) s.credit_payments
  pub mechanics : t.mechanics ≡ update mechanic (paid_off dto.amount) s.mechanics
  pub told : r ≡ record {
    id = r.id;
    receipt_no = r.receipt_no;
    mechanic_id = mechanic;
    amount = dto.amount;
    payment_method = dto.payment_method;
    note = dto.note;
    date = s.now;
    shift_id = some drawer.id;
    mechanic_credit_balance_after = clamped_sub before.credit_balance (pos dto.amount);
  }
  pub only : t ≡ record s {
    credit_payments = t.credit_payments;
    mechanics = t.mechanics;
    doc_counters = t.doc_counters;
    audit_log = t.audit_log;
    next_id = t.next_id;
    hooks = t.hooks;
  }

id_or_new-ok :
    (o : Option RowId) (s : Db) {id : RowId} {t : Db}
    → id_or_new o s ≡ ok (id, t)
    → ((k : RowId) → o ≡ some k → id ≡ k) × (t ≡ record s { next_id = t.next_id })
unfolding new_id
id_or_new-ok none s h = (λ k e. cc, ground arith)
id_or_new-ok (some x) s h = (λ k e. cc, ground arith)

insert_payment-ok :
    (id mechanic : RowId) (dto : CreateCreditPayment) (no : List ℕ) (shift : RowId) (s : Db)
    {date : ℕ} {t : Db}
    → insert_payment id mechanic dto no shift s ≡ ok (date, t)
    → (s.credit_payments id ≡ none)
      × (date ≡ s.now)
      × (t ≡ record s {
        credit_payments = put id (new_payment_row mechanic dto no shift s.now) s.credit_payments;
      })
unfolding insert_payment
insert_payment-ok id mechanic dto receipt shift s h = elim (Option-cases (s.credit_payments id)) [
  | inl e ↦ (e, ground arith, ground arith)
  | inr (x, e) ↦ absurd (ground arith)
]

reduce_balance-ok :
    (mechanic : RowId) (amount : ℕ) (m : Mechanic) (s : Db) {n : ℕ} {t : Db}
    → s.mechanics mechanic ≡ some m
    → reduce_balance mechanic amount s ≡ ok (n, t)
    → (n ≡ clamped_sub m.credit_balance (pos amount))
      × (t ≡ record s { mechanics = update mechanic (paid_off amount) s.mechanics })
unfolding reduce_balance
reduce_balance-ok mechanic amount m s found h =
    let row = update_self mechanic (paid_off amount) s.mechanics m found in
    (ground (arith, row), ground (arith, row))

log_overpayment-ok :
    (b : Bool) (mechanic : RowId) (actor : Actor) (s : Db) {u : Unit {0}} {t : Db}
    → log_overpayment b mechanic actor s ≡ ok (u, t)
    → t ≡ record s { audit_log = t.audit_log }
log_overpayment-ok true mechanic actor s h = ground arith
log_overpayment-ok false mechanic actor s h = ground arith

new_payment-Paid :
    (mechanic : RowId) (dto : CreateCreditPayment) (m : Mechanic) (actor : Actor) (s : Db)
    {r : CreateCreditPaymentResult} {t : Db}
    → s.mechanics mechanic ≡ some m
    → new_payment mechanic dto m.credit_balance actor s ≡ ok (r, t)
    → Paid mechanic dto m actor s r t
unfolding new_payment on_commit
new_payment-Paid mechanic dto m actor s {r} {t} found h = ran _ _ _ h λ shift a ea k.
    ran _ _ _ k λ u1 b eb k. ran _ _ _ k λ receipt c ec k. ran _ _ _ k λ id d ed k.
      ran _ _ _ k λ date e ee k. ran _ _ _ k λ after f ef k. ran _ _ _ k λ u2 g eg k.
        ran _ _ _ k λ u3 i ei k.
          let (a_same, (x, opened, named)) = require_open_shift_id_for-ok actor.device_id s ea in
          let (agreed, b_same) = throw_if-ok _ _ a eb in
          let counted = (issue-Issued actor.device_id DocType.cp b ec).only_counters in
          let (chosen, d_only) = id_or_new-ok dto.id c ed in
          let (fresh, dated, e_at) = insert_payment-ok id mechanic dto receipt shift d ee in
          let e_mechanics : e.mechanics ≡ s.mechanics = cc in
          let (left, f_at) = reduce_balance-ok mechanic dto.amount m e (rw e_mechanics found) ef in
          let logged = log_overpayment-ok _ mechanic actor g ei in
          let d_payments : d.credit_payments ≡ s.credit_payments = cc in
          let d_now : d.now ≡ s.now = cc in
          let t_at : t ≡ i = cc in
          let id_at : r.id ≡ id = cc in
          record {
            drawer = x;
            drawer_open = opened;
            agreed = agreed;
            named = λ k e. id_at ∙ chosen k e;
            fresh = rw (id_at, sym d_payments) fresh;
            stored = cc;
            mechanics = cc;
            told = cc;
            only = cc;
          }

lock_balance-ok :
    (mechanic : RowId) (s : Db) {n : ℕ} {t : Db}
    → lock_balance mechanic s ≡ ok (n, t)
    → (m : Mechanic) × (s.mechanics mechanic ≡ some m) × (n ≡ m.credit_balance) × (t ≡ s)
unfolding lock_balance
lock_balance-ok mechanic s h = elim (Option-cases (s.mechanics mechanic)) [
  | inl e ↦ absurd (ground arith)
  | inr (m, e) ↦ (m, e, ground arith, ground arith)
]

-- No payment is stored under the id that the request names, if it names one.
abbrev pub IsNew : Option RowId → Db → Type 0
IsNew id s = (k : RowId) → id ≡ some k → s.credit_payments k ≡ none

existing_payment-none :
    (mechanic : RowId) (dto : CreateCreditPayment) (n : ℕ) (s : Db)
    {o : Option CreateCreditPaymentResult} {t : Db}
    → IsNew dto.id s
    → existing_payment mechanic dto n s ≡ ok (o, t)
    → (o ≡ none) × (t ≡ s)
unfolding existing_payment
existing_payment-none mechanic dto n s fresh h = elim (Option-cases dto.id) [
  | inl e ↦ (ground arith, ground arith)
  | inr (k, e) ↦ (ground (arith, fresh k), ground (arith, fresh k))
]

pub create_credit_payment-Paid :
    (mechanic : RowId) (dto : CreateCreditPayment) (actor : Actor) (s : Db)
    {r : CreateCreditPaymentResult} {t : Db}
    → IsNew dto.id s
    → create_credit_payment mechanic dto actor s ≡ ok (r, t)
    → (m : Mechanic) × (s.mechanics mechanic ≡ some m) × Paid mechanic dto m actor s r t
unfolding create_credit_payment
create_credit_payment-Paid mechanic dto actor s {r} {t} fresh h = ran _ _ _ h λ n a ea k.
    ran _ _ _ k λ o b eb k.
      let (m, found, balance, a_same) = lock_balance-ok mechanic s ea in
      let (no_row, b_same) = existing_payment-none mechanic dto n a (rw a_same fresh) eb in
      let b_at : b ≡ s = cc in (m, found, new_payment-Paid mechanic dto m actor s found (cc))

existing_payment-rest :
    (mechanic : RowId) (dto : CreateCreditPayment) (n : ℕ) (s : Db)
    {o : Option CreateCreditPaymentResult} {t : Db}
    → existing_payment mechanic dto n s ≡ ok (o, t)
    → t ≡ s
unfolding existing_payment
existing_payment-rest mechanic dto n s h = elim (Option-cases dto.id) [
  | inl e ↦ ground arith
  | inr (k, e) ↦ elim (Option-cases (s.credit_payments k)) [
    | inl fresh ↦ ground arith
    | inr (row, there) ↦ elim (Bool-cases (is_same_payment mechanic dto row)) [
      | inl same ↦ ground arith
      | inr other ↦ absurd (ground arith)
    ]
  ]
]

-- Tables that a payment does not write, whether it was stored before or not.
pub create_credit_payment-rest :
    (mechanic : RowId) (dto : CreateCreditPayment) (actor : Actor) (s : Db)
    {r : CreateCreditPaymentResult} {t : Db}
    → create_credit_payment mechanic dto actor s ≡ ok (r, t)
    → t ≡ record s {
      credit_payments = t.credit_payments;
      mechanics = t.mechanics;
      doc_counters = t.doc_counters;
      audit_log = t.audit_log;
      next_id = t.next_id;
      hooks = t.hooks;
    }
unfolding create_credit_payment
create_credit_payment-rest mechanic dto actor s {r} {t} h = ran _ _ _ h λ n a ea k.
    ran _ _ _ k λ o b eb k.
      let (m, found, balance, a_same) = lock_balance-ok mechanic s ea in
      let b_same = existing_payment-rest mechanic dto n a eb in
      elim (Option-cases o) [
        | inl e ↦
            let made : new_payment mechanic dto m.credit_balance actor s ≡ ok (r, t) = cc in
            (new_payment-Paid mechanic dto m actor s found made).only
        | inr (x, e) ↦ let same : t ≡ s = cc in rw same refl
      ]
