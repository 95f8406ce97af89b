-- ===== src/Sales/Void/RoundTrip.antt =====
-- A bill that is written and voided leaves the stock and the two running totals as they were.
use jenkin_sri_store.Prelude.{
  ℕ, ◌+◌, ◌-◌, ◌≡◌, refl, sym, ◌∙◌, ap, arith, true, Option, none, some, List, [], ◌∷◌, sum_by,
  keep, keep-append, All, Option-cases, inl, inr, ◌==◌, length,
}
use jenkin_sri_store.Prelude.Int.{ℤ, neg_part, plus_minus}
use jenkin_sri_store.Sales.Ledger.{customer_plus, mechanic_plus, discount_of, markup_of, on_tab}
use jenkin_sri_store.Store.{
  PaymentMethod, update, RowId, Sale, SaleItem, Customer, Mechanic, Table, update_self, put_self,
  Db, ok, is_some, err, ◌>>=◌, sale_voided, Shift, Return,
}
use jenkin_sri_store.Shifts.{Actor, open_drawer_of}
use jenkin_sri_store.Money.{points_for}
use jenkin_sri_store.Sales.Request.{SaleLine, CreateSale}
use jenkin_sri_store.Sales.Request.Demands.{line_qty}
use jenkin_sri_store.Sales.Stock.Deduction.{stock_of}
use jenkin_sri_store.Sales.Movements.{IsBalanced}
use jenkin_sri_store.Sales.Bill.{sale_row}
use jenkin_sri_store.Sales.Bill.Rows.{CopiesAll}
use jenkin_sri_store.Sales.Create.{CreateSaleResult, create_sale}
use jenkin_sri_store.Sales.Create.Written.{Written, customers_with, mechanics_with}
use jenkin_sri_store.Sales.Create.Stocktake.{create_sale-cases}
use jenkin_sri_store.Sales.Void.{
  AuthorisedVoid, stamped_void, in_shift, returns_of, customer_minus, mechanic_minus, void_sale,
}
use jenkin_sri_store.Sales.Void.Undo.{
  item_qty, customers_without, mechanics_without, void_sale-Voided,
}

-- The foreign key of the lines: each belongs to a bill that is there.
abbrev pub HaveBills : Db → Type 0
HaveBills s = All (λ (i : SaleItem). is_some (s.sales i.sale_id) ≡ true) s.sale_items

pub keep-none :
    (id : RowId) (sales : Table Sale) (items : List SaleItem)
    → sales id ≡ none
    → All (λ (i : SaleItem). is_some (sales i.sale_id) ≡ true) items
    → keep (λ i. i.sale_id == id) items ≡ []
unfolding keep
keep-none id sales [] fresh h = refl
keep-none id sales (i ∷ is) fresh (billed, h) = ground (arith, keep-none id sales is fresh h)

pub Copies-keep :
    (id : RowId) (lines : List SaleLine) (items : List SaleItem)
    → CopiesAll id lines items
    → keep (λ i. i.sale_id == id) items ≡ items
unfolding keep
Copies-keep id [] [] h = refl
Copies-keep id (l ∷ ls) (i ∷ is) (one, h) = ground (arith, one.of_sale, Copies-keep id ls is h)
Copies-keep id [] (i ∷ is) h = absurd h
Copies-keep id (l ∷ ls) [] h = absurd h

Copies-qty :
    (p id : RowId) (lines : List SaleLine) (items : List SaleItem)
    → CopiesAll id lines items
    → sum_by (item_qty p) items ≡ sum_by (line_qty p) lines
unfolding sum_by
Copies-qty p id [] [] h = refl
Copies-qty p id (l ∷ ls) (i ∷ is) (one, h) =
    ground (arith, one.product, one.quantity, Copies-qty p id ls is h)
Copies-qty p id [] (i ∷ is) h = absurd h
Copies-qty p id (l ∷ ls) [] h = absurd h

-- The lines stored under a bill that was written ask for what the bill asked for.
Written-qty :
    (dto : CreateSale) (actor : Actor) (s : Db) (p : RowId) {r : CreateSaleResult} {t : Db}
    → s.sales dto.id ≡ none
    → HaveBills s
    → Written dto actor s r t
    → sum_by (item_qty p) (keep (λ i. i.sale_id == dto.id) t.sale_items)
      ≡ sum_by (line_qty p) dto.items
Written-qty dto actor s p fresh billed w =
    rw
      (
        w.lined,
        keep-append (λ i. i.sale_id == dto.id) s.sale_items w.lines,
        keep-none dto.id s.sales s.sale_items fresh billed,
        Copies-keep dto.id dto.items w.lines w.copied,
      )
      (Copies-qty p dto.id dto.items w.lines w.copied)

-- The running totals that no constraint keeps from being negative are not.
pub record IsCounted (s : Db) : Type 0 where
  pub spent : (c : RowId) (row : Customer) → s.customers c ≡ some row → neg_part row.total_spend ≡ 0
  pub sold :
      (m : RowId) (row : Mechanic)
      → s.mechanics m ≡ some row
      → (neg_part row.total_sales ≡ 0)
        × (neg_part row.total_discount ≡ 0)
        × (neg_part row.total_markup ≡ 0)

taken_off : (n k : ℕ) → n + k - k ≡ n
taken_off n k = omega arith

customer_back :
    (points total : ℕ) (c : Customer)
    → neg_part c.total_spend ≡ 0
    → customer_minus points total (customer_plus points total c) ≡ c
customer_back points total c h =
    rw (plus_minus c.total_spend total h, taken_off c.points points) refl

mechanic_back :
    (total : ℕ) (delta : Option ℤ) (method : PaymentMethod) (m : Mechanic)
    → neg_part m.total_sales ≡ 0
    → neg_part m.total_discount ≡ 0
    → neg_part m.total_markup ≡ 0
    → mechanic_minus total delta method (mechanic_plus total delta method m) ≡ m
mechanic_back total delta method m sales discount markup =
    rw
      (
        plus_minus m.total_sales total sales,
        plus_minus m.total_discount (discount_of delta) discount,
        plus_minus m.total_markup (markup_of delta) markup,
        taken_off m.credit_balance (on_tab method total),
      )
      refl

update_undone :
    {V : Type 0} (id k : RowId) (f g : V → V) (t : Table V)
    → ((v : V) → t k ≡ some v → g (f v) ≡ v)
    → update id g (update id f t) k ≡ t k
update_undone id k f g t back = elim (Option-cases (t k)) [
  | inl missing ↦ ground arith
  | inr (v, found) ↦ ground (arith, back v found)
]

customers_undone :
    (sale : Sale) (id : Option RowId) (points total : ℕ) (t : Table Customer) (c : RowId)
    → sale.points_granted ≡ points
    → sale.total ≡ total
    → ((row : Customer) → t c ≡ some row → neg_part row.total_spend ≡ 0)
    → customers_without sale id (customers_with id points total t) c ≡ t c
customers_undone sale none points total t c e f counted = refl
customers_undone sale (some id) points total t c e f counted =
    rw (e, f)
      (update_undone id c (customer_plus points total) (customer_minus points total) t
        (λ row h. customer_back points total row (counted row h)))

mechanics_undone :
    (sale : Sale) (dto : CreateSale) (id : Option RowId) (t : Table Mechanic) (m : RowId)
    → sale.total ≡ dto.total
    → sale.mechanic_delta ≡ dto.mechanic_delta
    → sale.payment_method ≡ dto.payment_method
    → ((row : Mechanic)
        → t m ≡ some row
        → (neg_part row.total_sales ≡ 0)
          × (neg_part row.total_discount ≡ 0)
          × (neg_part row.total_markup ≡ 0))
    → mechanics_without sale id (mechanics_with dto id t) m ≡ t m
mechanics_undone sale dto none t m e f g counted = refl
mechanics_undone sale dto (some id) t m e f g counted =
    rw (e, f, g)
      (update_undone id m (mechanic_plus dto.total dto.mechanic_delta dto.payment_method)
        (mechanic_minus dto.total dto.mechanic_delta dto.payment_method) t
        (λ row h.
          let (sales, discount, markup) = counted row h in
          mechanic_back dto.total dto.mechanic_delta dto.payment_method row sales discount markup))

length-nil : (rs : List Return) → length rs ≡ 0 → rs ≡ []
length-nil [] h = refl
length-nil (r ∷ rs) h = absurd (omega arith)

in_shift-eq : (o : Option RowId) (id : RowId) → in_shift o id ≡ true → o ≡ some id
in_shift-eq none id h = cc
in_shift-eq (some x) id h = ground arith

-- What is as it was, once a bill has been written and voided.
pub record IsUndone (id : RowId) (s u : Db) : Type 0 where
  pub stock : (p : RowId) → stock_of (u.products p) ≡ stock_of (s.products p)
  pub customers : (c : RowId) → u.customers c ≡ s.customers c
  pub mechanics : (m : RowId) → u.mechanics m ≡ s.mechanics m
  pub bill : Sale
  pub kept : u.sales id ≡ some bill
  pub flagged : bill.voided ≡ true

-- A new bill that is voided right after it was written leaves every stock, every customer and
-- every mechanic as they were before it; the bill itself stays, flagged as voided. Before it,
-- every stored line belonged to a bill, and no customer and no mechanic had a negative running
-- total.
pub create_sale-void_sale :
    (dto : CreateSale) (actor : Actor) (auth : AuthorisedVoid) (s : Db) {r : CreateSaleResult}
    {t : Db} {x : Unit {0}} {u : Db}
    → s.sales dto.id ≡ none
    → HaveBills s
    → IsCounted s
    → create_sale dto actor s ≡ ok (r, t)
    → void_sale dto.id auth t ≡ ok (x, u)
    → IsUndone dto.id s u
unfolding sale_row
create_sale-void_sale dto actor auth s {r} {t} {x} {u} fresh billed counted h k =
    elim (create_sale-cases dto actor s h) [
      | inl (sale, found, live, answer, same) ↦ absurd (cc)
      | inr w ↦
          let v = void_sale-Voided dto.id auth t k in
          let row = sale_row dto actor r.receipt_no (points_for dto.total) w.drawer.id s.now in
          let stored : t.sales dto.id ≡ some row = rw w.headed (put_self dto.id row s.sales) in
          let same : v.sale ≡ row = cc (v.found) in
          record {
            stock = λ p.
                ground
                  (arith, v.stock p, w.took p, w.rows p, Written-qty dto actor s p fresh billed w);
            customers = λ c.
                rw (v.customers, same, w.customers)
                  (customers_undone row dto.customer_id _ _ s.customers c refl refl
                    (counted.spent c));
            mechanics = λ m.
                rw (v.mechanics, same, w.mechanics)
                  (mechanics_undone row dto dto.mechanic_id s.mechanics m refl refl refl
                    (counted.sold m));
            bill = stamped_void t.now row;
            kept = rw v.marked (ground (arith, stored));
            flagged = refl;
          }
    ]

-- If the movements account for the stock of every product, then they do after a void that
-- returned.
pub void_sale-IsBalanced :
    (opening : RowId → ℕ) (id : RowId) (auth : AuthorisedVoid) (s : Db) {x : Unit {0}} {t : Db}
    → IsBalanced opening s
    → void_sale id auth s ≡ ok (x, t)
    → IsBalanced opening t
void_sale-IsBalanced opening id auth s b h =
    let v = void_sale-Voided id auth s h in
    record { accounted = λ p. omega (arith, b.accounted p, v.stock p, v.ins p, v.outs p) }

pub void_sale-voided :
    (id : RowId) (auth : AuthorisedVoid) (t : Db) (bill : Sale)
    → (auth.sale_id == id) ≡ true
    → t.sales id ≡ some bill
    → bill.voided ≡ true
    → void_sale id auth t ≡ err sale_voided
unfolding void_sale ◌>>=◌
void_sale-voided id auth t bill matched found flagged = rw (matched, found, flagged) refl

-- A bill is voided once: right after a void that returned, a second one of the same bill is
-- refused as already voided.
pub void_sale_again :
    (id : RowId) (auth : AuthorisedVoid) (s : Db) {x : Unit {0}} {t : Db}
    → void_sale id auth s ≡ ok (x, t)
    → void_sale id auth t ≡ err sale_voided
void_sale_again id auth s {x} {t} h =
    let v = void_sale-Voided id auth s h in
    let flagged = update_self id (stamped_void s.now) s.sales v.sale v.found in
    let marked = ap (λ (f : Table Sale). f id) v.marked in
    void_sale-voided id auth t (stamped_void s.now v.sale) v.matched (marked ∙ flagged) refl

-- A void that returned was of a bill that has no credit note against it, and that is stamped with
-- the open drawer of the actor's machine.
pub void_sale_needs :
    (id : RowId) (auth : AuthorisedVoid) (s : Db) (bill : Sale) {x : Unit {0}} {t : Db}
    → s.sales id ≡ some bill
    → void_sale id auth s ≡ ok (x, t)
    → (returns_of id s.returns ≡ [])
      × ((d : Shift) × (open_drawer_of auth.actor.device_id s.shifts ≡ some d)
          × (bill.shift_id ≡ some d.id))
void_sale_needs id auth s bill found h =
    let v = void_sale-Voided id auth s h in
    let same : v.sale ≡ bill = cc (v.found) in
    let in_drawer : in_shift bill.shift_id v.drawer.id ≡ true = rw (sym same) v.in_drawer in
    (
      length-nil (returns_of id s.returns) v.uncredited,
      (v.drawer, v.drawer_open, in_shift-eq bill.shift_id v.drawer.id in_drawer),
    )
