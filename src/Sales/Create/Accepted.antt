-- ===== src/Sales/Create/Accepted.antt =====
-- Which bills are accepted.
use jenkin_sri_store.Prelude.{
  ◌≤◌, ◌<◌, ◌≡◌, refl, arith, All-map, Bool, true, false, Option, none, some, List, ltb, sum_by,
  Option-cases, Bool-cases, inl, inr,
}
use jenkin_sri_store.Store.{
  RowId, PaymentMethod, DocType, CacheName, Mechanic, Shift, Device, Db, ok, Returns, Returns-next,
  on_commit,
}
use jenkin_sri_store.Documents.{max_doc_no, bumped, device_no, bump_counter, issue}
use jenkin_sri_store.Documents.Series.{counter, last_of, issue-Issued}
use jenkin_sri_store.Shifts.{Actor, open_drawer_of, require_open_shift_id_for}
use jenkin_sri_store.Sales.Request.{CreateSale, SaleLine, Demand, aggregate}
use jenkin_sri_store.Sales.Request.Demands.{demand_count, aggregate-IsDistinct}
use jenkin_sri_store.Sales.Request.Totals.{assert_sale_totals_iff}
use jenkin_sri_store.Sales.Stock.{lock_products}
use jenkin_sri_store.Sales.Stock.Check.{assert_stock_iff}
use jenkin_sri_store.Sales.Stock.Deduction.{deduct-ok, deduct-after}
use jenkin_sri_store.Sales.Stock.Enough.{
  deduct-Returns, by_id_found, aggregate-counts, demands_counted, value_of_left,
}
use jenkin_sri_store.Sales.Ledger.{
  CreditOverride, MechanicAfter, check_limit, mechanic_row, lock_mechanic_and_check_limit,
  log_override,
}
use jenkin_sri_store.Sales.Ledger.Limit.{within_limit}
use jenkin_sri_store.Sales.Create.{if_named, existing_sale, sale_hooks, new_sale, create_sale}
use jenkin_sri_store.Sales.Create.Acceptable.{IsDeliverable, IsAcceptable, guarded, rows-Stored}

check_limit-Returns :
    (method : PaymentMethod) (dto : CreateSale) (flag : Bool) (row : Option Mechanic) (s : Db)
    → ((m : Mechanic)
        → method ≡ PaymentMethod.mechanic_credit
        → row ≡ some m
        → flag ≡ false
        → within_limit m dto ≡ true)
    → (o : Option CreditOverride) × (check_limit method dto.total flag row s ≡ ok (o, s))
check_limit-Returns PaymentMethod.cash dto flag row s h = (none, refl)
check_limit-Returns PaymentMethod.transfer dto flag row s h = (none, refl)
check_limit-Returns PaymentMethod.mechanic_credit dto flag none s h = (none, refl)
check_limit-Returns PaymentMethod.mechanic_credit dto true (some m) s h =
    elim (Bool-cases (within_limit m dto)) [
      | inl fits ↦ (none, rw fits refl)
      | inr over ↦ (
        some (record { credit_limit = m.credit_limit; credit_balance_before = m.credit_balance }),
        rw over refl,
      )
    ]
check_limit-Returns PaymentMethod.mechanic_credit dto false (some m) s h =
    (none, rw (h m refl refl refl) refl)

bump_counter-Returns :
    (device : RowId) (s : Db)
    → last_of (counter device DocType.receipt s) < max_doc_no
    → Returns (bump_counter device DocType.receipt) s
unfolding bump_counter
bump_counter-Returns device s h =
    let fits : ltb max_doc_no (bumped (counter device DocType.receipt s)) ≡ false =
      elim (Option-cases (counter device DocType.receipt s)) [
        | inl none_yet ↦ rw none_yet refl
        | inr (n, e) ↦ ground arith
      ] in
    guarded _ _ _ fits

issue-Returns :
    (device : RowId) (s : Db) (holder : Device)
    → s.devices device ≡ some holder
    → holder.retired ≡ false
    → last_of (counter device DocType.receipt s) < max_doc_no
    → Returns (issue device DocType.receipt) s
unfolding issue device_no
issue-Returns device s holder known active h =
    let read : device_no device s ≡ ok (holder.device_no, s) = rw (known, active) refl in
    let (n, u, e) = bump_counter-Returns device s h in
    Returns-next (device_no device) _ s read (
      Returns-next _ _ s refl
        (Returns-next (bump_counter device DocType.receipt) _ s e (_, u, refl)))

log_override-Returns :
    (user device : RowId) (m : Option RowId) (o : Option CreditOverride) (a : Option MechanicAfter)
    (s : Db)
    → Returns (log_override user device m o a) s
unfolding log_override
log_override-Returns user device none o a s = (tt, s, refl)
log_override-Returns user device (some m) none a s = (tt, s, refl)
log_override-Returns user device (some m) (some o) none s = (tt, s, refl)
log_override-Returns user device (some m) (some o) (some a) s = (tt, _, refl)

if_named-Returns : (id : Option RowId) (name : CacheName) (s : Db) → Returns (if_named id name) s
unfolding on_commit
if_named-Returns none name s = (tt, s, refl)
if_named-Returns (some id) name s = (tt, _, refl)

sale_hooks-Returns : (dto : CreateSale) (ds : List Demand) (s : Db) → Returns (sale_hooks dto ds) s
unfolding sale_hooks on_commit
sale_hooks-Returns dto ds s = Returns-next _ _ s refl (
    let (a, t, e) = if_named-Returns dto.customer_id CacheName.customers _ in
    Returns-next _ _ _ e (
      let (b, u, e') = if_named-Returns dto.mechanic_id CacheName.mechanics t in
      Returns-next _ _ _ e' (_, _, refl)))

opened_as :
    (device : RowId) (s : Db) (x : Shift)
    → open_drawer_of device s.shifts ≡ some x
    → require_open_shift_id_for device s ≡ ok (x.id, s)
unfolding require_open_shift_id_for
opened_as device s x h = ground arith

limit_checked :
    (dto : CreateSale) (s : Db)
    → ((m : Mechanic)
        → dto.payment_method ≡ PaymentMethod.mechanic_credit
        → mechanic_row dto.mechanic_id s ≡ some m
        → dto.override_credit_limit ≡ false
        → within_limit m dto ≡ true)
    → (o : Option CreditOverride) × (lock_mechanic_and_check_limit dto s ≡ ok (o, s))
unfolding lock_mechanic_and_check_limit
limit_checked dto s h =
    check_limit-Returns dto.payment_method dto dto.override_credit_limit
      (mechanic_row dto.mechanic_id s) s h

same_counter :
    (device : RowId) (s t : Db)
    → t.doc_counters ≡ s.doc_counters
    → t.local_year ≡ s.local_year
    → t.local_month ≡ s.local_month
    → counter device DocType.receipt t ≡ counter device DocType.receipt s
same_counter device s t counters year month = rw (counters, year, month) refl

new_sale-Returns :
    (dto : CreateSale) (actor : Actor) (s : Db)
    → IsDeliverable dto actor s
    → Returns (new_sale dto actor) s
unfolding new_sale
new_sale-Returns dto actor s h =
    let ds = aggregate dto.items in
    let locked = lock_products ds s.products in
    let one = aggregate-IsDistinct dto.items in
    let opened : require_open_shift_id_for actor.device_id s ≡ ok (h.drawer.id, s) =
      opened_as actor.device_id s h.drawer h.drawer_open in
    let (o, limit) = limit_checked dto s h.in_limit in
    let enough = (assert_stock_iff s.products ds s).0.1 h.covered in
    let (after, e, ee) = deduct-Returns ds s one h.covered in
    let e_only = (deduct-ok ds s ee).0 in
    let told = deduct-after ds s one ee in
    let (receipt, f, ef) =
      issue-Returns actor.device_id e h.device (cc (h.device_known)) h.device_active
        (rw (same_counter actor.device_id s e (cc) (cc) (cc)) h.numbers_left) in
    let f_only = (issue-Issued actor.device_id DocType.receipt e ef).only_counters in
    let customers : f.customers ≡ s.customers = cc in
    let mechanics : f.mechanics ≡ s.mechanics = cc in
    let found =
      λ (p : RowId) (k : 1 ≤ sum_by (demand_count p) ds). by_id_found s.products ds p h.covered k in
    let w =
      rows-Stored dto actor receipt h.drawer.id locked after ds s f h (cc) (cc) customers mechanics
        (All-map (λ (l : SaleLine) k. found l.product_id k) dto.items (aggregate-counts dto.items))
        (All-map
          (λ (d : Demand) k.
            (found d.product_id k, rw told (value_of_left e.products ds d.product_id k)))
          ds (demands_counted ds)) in
    let (u, n, en) =
      log_override-Returns actor.user_id actor.device_id dto.mechanic_id o w.mechanic w.m in
    let (v, z, ez) = sale_hooks-Returns dto ds n in
    Returns-next _ _ s opened (
      Returns-next _ _ s limit (
        Returns-next _ _ s refl (
          Returns-next _ _ s enough (
            Returns-next _ _ s ee (
              Returns-next _ _ e ef (
                Returns-next _ _ f w.headed (
                  Returns-next _ _ w.g w.lined (
                    Returns-next _ _ w.i w.moved (
                      Returns-next _ _ w.j w.credited (
                        Returns-next _ _ w.l w.billed
                          (Returns-next _ _ w.m en (Returns-next _ _ n ez (_, z, refl)))))))))))))

pub create_sale_accepts :
    (dto : CreateSale) (actor : Actor) (s : Db)
    → IsAcceptable dto actor s
    → Returns (create_sale dto actor) s
unfolding create_sale existing_sale
create_sale_accepts dto actor s h =
    let believed = (assert_sale_totals_iff dto s).1 h.honest in
    let unknown : existing_sale dto s ≡ ok (none, s) = rw h.deliverable.fresh refl in
    let (r, t, e) = new_sale-Returns dto actor s h.deliverable in
    Returns-next _ _ s believed (Returns-next _ _ s unknown (r, t, e))
