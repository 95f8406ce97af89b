-- ===== src/Sales/Create/Acceptable.antt =====
-- What a bill must meet to be accepted, and the rows that are then written.
use jenkin_sri_store.Prelude.{
  ℕ, ◌<◌, ◌≡◌, refl, ◌∙◌, arith, All, ◌++◌, ◌==◌, Bool, true, false, Option, none, some, List, [],
  ◌∷◌, if◌then◌else◌,
}
use jenkin_sri_store.Store.{
  RowId, PaymentMethod, DocType, Mechanic, Movement, Product, Shift, Device, Error, Db, ok, err,
  each, Returns, Returns-next, SaleItem, Table, update, ◌>>=◌, or_throw, new_id, internal,
}
use jenkin_sri_store.Money.{points_for}
use jenkin_sri_store.Documents.{max_doc_no}
use jenkin_sri_store.Documents.Series.{counter, last_of}
use jenkin_sri_store.Shifts.{Actor, open_drawer_of}
use jenkin_sri_store.Sales.Request.{CreateSale, SaleLine, Demand, aggregate}
use jenkin_sri_store.Sales.Request.Totals.{AddsUp}
use jenkin_sri_store.Sales.Stock.{LockedProduct, by_id}
use jenkin_sri_store.Sales.Stock.Check.{IsCovered}
use jenkin_sri_store.Sales.Ledger.{
  MechanicAfter, CustomerAfter, mechanic_row, apply_customer, apply_mechanic, customer_plus,
  mechanic_plus, customer_fits, mechanic_fits, customer_after, mechanic_after,
}
use jenkin_sri_store.Sales.Ledger.Limit.{within_limit}
use jenkin_sri_store.Sales.Bill.{
  refers, has_line, line_out, item_row, SaleLineOut, insert_sale, insert_line, insert_lines,
  value_of, insert_movement, insert_movements,
}
use jenkin_sri_store.Sales.Bill.Rows.{insert_lines-Inserted, insert_movements-Moved}
use jenkin_sri_store.Sales.Create.Written.{insert_sale-ok, apply_customer-ok}

-- The row that the bill names, with the bill on it.
abbrev pub after_of_bill : {V : Type 0} → Option RowId → (V → V) → Table V → Option V
after_of_bill none f t = none
after_of_bill (some id) f t = update id f t id

-- No two lines have one number.
abbrev pub LinesApart : List SaleLine → Type 0
LinesApart [] = Unit
LinesApart (l ∷ ls) = All (λ (m : SaleLine). (l.line_no == m.line_no) ≡ false) ls × LinesApart ls

-- What a bill must meet to be written, but that its totals add up.
pub record IsDeliverable (dto : CreateSale) (actor : Actor) (s : Db) : Type 0 where
  pub fresh : s.sales dto.id ≡ none
  pub drawer : Shift
  pub drawer_open : open_drawer_of actor.device_id s.shifts ≡ some drawer
  pub in_limit :
      (m : Mechanic)
      → dto.payment_method ≡ PaymentMethod.mechanic_credit
      → mechanic_row dto.mechanic_id s ≡ some m
      → dto.override_credit_limit ≡ false
      → within_limit m dto ≡ true
  pub covered : All (IsCovered s.products) (aggregate dto.items)
  pub customer_known : refers dto.customer_id s.customers ≡ true
  pub mechanic_known : refers dto.mechanic_id s.mechanics ≡ true
  pub device : Device
  pub device_known : s.devices actor.device_id ≡ some device
  pub device_active : device.retired ≡ false
  pub points_fit :
      customer_fits
        (after_of_bill dto.customer_id (customer_plus (points_for dto.total) dto.total) s.customers)
      ≡ true
  pub tab_fits :
      mechanic_fits (
        after_of_bill dto.mechanic_id
          (mechanic_plus dto.total dto.mechanic_delta dto.payment_method)
          s.mechanics)
      ≡ true
  pub lines_apart : LinesApart dto.items
  pub no_lines : All (λ (i : SaleItem). (i.sale_id == dto.id) ≡ false) s.sale_items
  pub numbers_left : last_of (counter actor.device_id DocType.receipt s) < max_doc_no

pub record IsAcceptable (dto : CreateSale) (actor : Actor) (s : Db) : Type 0 where
  pub honest : AddsUp dto
  pub deliverable : IsDeliverable dto actor s

All-both :
    {A : Type 0} {P Q R : A → Type 0}
    → ((x : A) → P x → Q x → R x)
    → (xs : List A) → All P xs
    → All Q xs
    → All R xs
All-both f [] p q = tt
All-both f (x ∷ xs) (p, ps) (q, qs) = (f x p q, All-both f xs ps qs)

every_one : {A : Type 0} {P : A → Type 0} → ((x : A) → P x) → (xs : List A) → All P xs
every_one f [] = tt
every_one f (x ∷ xs) = (f x, every_one f xs)

pub guarded :
    {A : Type 0} (b : Bool) (e : Error) (x : A × Db)
    → b ≡ false
    → (a : A) × (t : Db) × ((if b then err e else ok x) ≡ ok (a, t))
guarded b e (a, t) h = (a, t, rw h refl)

insert_sale-Returns :
    (dto : CreateSale) (actor : Actor) (no_ : List ℕ) (points : ℕ) (shift : RowId) (s : Db)
    → s.sales dto.id ≡ none
    → refers dto.customer_id s.customers ≡ true
    → refers dto.mechanic_id s.mechanics ≡ true
    → Returns (insert_sale dto actor no_ points shift) s
unfolding insert_sale
insert_sale-Returns dto actor receipt points shift s fresh customer mechanic =
    rw fresh (guarded _ _ _ (rw (customer, mechanic) refl))

no_line-has_line :
    (id : RowId) (line_no : ℕ) (items : List SaleItem)
    → All (λ (i : SaleItem). (i.sale_id == id) ≡ false) items
    → has_line id line_no items ≡ false
no_line-has_line id line_no [] h = refl
no_line-has_line id line_no (i ∷ is) (one, h) = rw (one, no_line-has_line id line_no is h) refl

has_line-append :
    (id : RowId) (line_no : ℕ) (items : List SaleItem) (i : SaleItem)
    → has_line id line_no items ≡ false
    → (i.line_no == line_no) ≡ false
    → has_line id line_no (items ++ i ∷ []) ≡ false
has_line-append id line_no [] i h e = ground arith
has_line-append id line_no (j ∷ js) i h e = ground (arith, has_line-append id line_no js i)

insert_line-new :
    (id : RowId) (locked : List LockedProduct) (l : SaleLine) (s : Db) (row : Product)
    → by_id l.product_id locked ≡ some row
    → has_line id l.line_no s.sale_items ≡ false
    → insert_line id locked l s
      ≡ ok (
        line_out (item_row id l row),
        record s { sale_items = s.sale_items ++ item_row id l row ∷ [] },
      )
unfolding insert_line item_row ◌>>=◌
insert_line-new id locked l s row found free = rw (found, free) refl

insert_lines_loop :
    (id : RowId) (locked : List LockedProduct) (lines : List SaleLine) (s : Db)
    → All (λ (l : SaleLine). (row : Product) × (by_id l.product_id locked ≡ some row)) lines
    → LinesApart lines
    → All (λ (l : SaleLine). has_line id l.line_no s.sale_items ≡ false) lines
    → Returns (each (insert_line id locked) lines) s
unfolding each insert_line item_row
insert_lines_loop id locked [] s h apart new = ([], s, refl)
insert_lines_loop id locked (l ∷ ls) s ((row, found), h) (apart, others) (free, new) =
    let stored : SaleItem = item_row id l row in
    let u : Db = record s { sale_items = s.sale_items ++ stored ∷ [] } in
    let o : SaleLineOut = line_out stored in
    let e = insert_line-new id locked l s row found free in
    let later =
      All-both (λ (m : SaleLine) a b. has_line-append id m.line_no s.sale_items stored b a) ls apart
        new in
    let (os, t, e') = insert_lines_loop id locked ls u h others later in
    Returns-next (insert_line id locked l) _ s e
      (Returns-next (each (insert_line id locked) ls) _ u e' (o ∷ os, t, refl))

insert_movements_loop :
    (id : RowId) (locked : List LockedProduct) (after : List (RowId × ℕ)) (ds : List Demand)
    (s : Db)
    → All
        (λ (d : Demand).
          ((row : Product) × (by_id d.product_id locked ≡ some row))
          × ((n : ℕ) × (value_of d.product_id after ≡ some n)))
        ds
    → Returns (each (insert_movement id locked after) ds) s
unfolding each insert_movement new_id
insert_movements_loop id locked after [] s h = ([], s, refl)
insert_movements_loop id locked after (d ∷ ds) s (((row, found), (n, told)), h) =
    let read : or_throw (by_id d.product_id locked) internal s ≡ ok (row, s) = rw found refl in
    let left : or_throw (value_of d.product_id after) internal s ≡ ok (n, s) = rw told refl in
    let (o, u, e) : Returns (insert_movement id locked after d) s = Returns-next _ _ s read (
      Returns-next _ _ s left (
        Returns-next _ _ s refl
          (Returns-next _ _ _ refl (Returns-next _ _ _ refl (_, _, refl))))) in
    let (os, t, e') = insert_movements_loop id locked after ds u h in
    Returns-next (insert_movement id locked after d) _ s e
      (Returns-next (each (insert_movement id locked after) ds) _ u e' (o ∷ os, t, refl))

apply_customer-Returns :
    (id : Option RowId) (points total : ℕ) (s : Db)
    → customer_fits (after_of_bill id (customer_plus points total) s.customers) ≡ true
    → Returns (apply_customer id points total) s
unfolding apply_customer
apply_customer-Returns none points total s h = (none, s, refl)
apply_customer-Returns (some id) points total s h =
    let customers = update id (customer_plus points total) s.customers in
    (customer_after id (customers id), record s { customers = customers }, rw h refl)

apply_mechanic-Returns :
    (id : Option RowId) (dto : CreateSale) (s : Db)
    → mechanic_fits (
        after_of_bill id
          (mechanic_plus dto.total dto.mechanic_delta dto.payment_method)
          s.mechanics)
      ≡ true
    → Returns (apply_mechanic id dto.total dto.mechanic_delta dto.payment_method) s
unfolding apply_mechanic
apply_mechanic-Returns none dto s h = (none, s, refl)
apply_mechanic-Returns (some id) dto s h =
    let mechanics =
      update id (mechanic_plus dto.total dto.mechanic_delta dto.payment_method) s.mechanics in
    (mechanic_after id (mechanics id), record s { mechanics = mechanics }, rw h refl)

insert_lines-Returns :
    (dto : CreateSale) (locked : List LockedProduct) (s : Db)
    → All (λ (l : SaleLine). (row : Product) × (by_id l.product_id locked ≡ some row)) dto.items
    → LinesApart dto.items
    → All (λ (i : SaleItem). (i.sale_id == dto.id) ≡ false) s.sale_items
    → Returns (insert_lines dto locked) s
unfolding insert_lines
insert_lines-Returns dto locked s h apart fresh =
    let new =
      every_one (λ (l : SaleLine). no_line-has_line dto.id l.line_no s.sale_items fresh)
        dto.items in
    let (out, t, e) = insert_lines_loop dto.id locked dto.items s h apart new in
    Returns-next (each (insert_line dto.id locked) dto.items) _ s e (_, t, refl)

insert_movements-Returns :
    (id : RowId) (locked : List LockedProduct) (after : List (RowId × ℕ)) (ds : List Demand)
    (s : Db)
    → All
        (λ (d : Demand).
          ((row : Product) × (by_id d.product_id locked ≡ some row))
          × ((n : ℕ) × (value_of d.product_id after ≡ some n)))
        ds
    → Returns (insert_movements id ds locked after) s
unfolding insert_movements
insert_movements-Returns id locked after ds s h = insert_movements_loop id locked after ds s h

-- The rows of a bill leave the customers and the mechanics alone.
rows_apart :
    (dto : CreateSale) (actor : Actor) (receipt : List ℕ) (points : ℕ) (shift : RowId)
    (locked : List LockedProduct) (after : List (RowId × ℕ)) (ds : List Demand) (f : Db) {date : ℕ}
    {g : Db} {out : List SaleLineOut} {i : Db} {ms : List Movement} {j : Db}
    → insert_sale dto actor receipt points shift f ≡ ok (date, g)
    → insert_lines dto locked g ≡ ok (out, i)
    → insert_movements dto.id ds locked after i ≡ ok (ms, j)
    → (j.customers ≡ f.customers) × (j.mechanics ≡ f.mechanics)
rows_apart dto actor receipt points shift locked after ds f {date} {g} {out} {i} {ms} {j} h k m =
    let (_, _, headed) = insert_sale-ok dto actor receipt points shift f h in
    let (raw, listed, lined) = insert_lines-Inserted dto locked g k in
    let moved = insert_movements-Moved dto.id ds locked after i m in
    (cc (moved.only_movements, lined.only_items), cc (moved.only_movements, lined.only_items))

same_items :
    (dto : CreateSale) (actor : Actor) (receipt : List ℕ) (points : ℕ) (shift : RowId) (f : Db)
    {date : ℕ} {g : Db}
    → insert_sale dto actor receipt points shift f ≡ ok (date, g)
    → g.sale_items ≡ f.sale_items
same_items dto actor receipt points shift f h =
    let (_, _, headed) = insert_sale-ok dto actor receipt points shift f h in cc

same_mechanics :
    (id : Option RowId) (points total : ℕ) (j : Db) {o : Option CustomerAfter} {l : Db}
    → apply_customer id points total j ≡ ok (o, l)
    → l.mechanics ≡ j.mechanics
same_mechanics id points total j h =
    let (_, only_customers) = apply_customer-ok id points total j h in cc

-- The rows of a bill, from its header to the mechanic's totals.
pub record Stored (dto : CreateSale) (actor : Actor) (receipt : List ℕ) (shift : RowId)
    (locked : List LockedProduct) (after : List (RowId × ℕ)) (ds : List Demand) (f : Db)
    : Type 0 where
  pub date : ℕ
  pub g : Db
  pub headed : insert_sale dto actor receipt (points_for dto.total) shift f ≡ ok (date, g)
  pub out : List SaleLineOut
  pub i : Db
  pub lined : insert_lines dto locked g ≡ ok (out, i)
  pub ms : List Movement
  pub j : Db
  pub moved : insert_movements dto.id ds locked after i ≡ ok (ms, j)
  pub customer : Option CustomerAfter
  pub l : Db
  pub credited :
      apply_customer dto.customer_id (points_for dto.total) dto.total j ≡ ok (customer, l)
  pub mechanic : Option MechanicAfter
  pub m : Db
  pub billed :
      apply_mechanic dto.mechanic_id dto.total dto.mechanic_delta dto.payment_method l
      ≡ ok (mechanic, m)

pub rows-Stored :
    (dto : CreateSale) (actor : Actor) (receipt : List ℕ) (shift : RowId)
    (locked : List LockedProduct) (after : List (RowId × ℕ)) (ds : List Demand) (s f : Db)
    → IsDeliverable dto actor s
    → f.sales ≡ s.sales
    → f.sale_items ≡ s.sale_items
    → f.customers ≡ s.customers
    → f.mechanics ≡ s.mechanics
    → All (λ (l : SaleLine). (row : Product) × (by_id l.product_id locked ≡ some row)) dto.items
    → All
        (λ (d : Demand).
          ((row : Product) × (by_id d.product_id locked ≡ some row))
          × ((n : ℕ) × (value_of d.product_id after ≡ some n)))
        ds
    → Stored dto actor receipt shift locked after ds f
rows-Stored dto actor receipt shift locked after ds s f h sales items customers mechanics lines
      demands =
    let points = points_for dto.total in
    let (date, g, eg) =
      insert_sale-Returns dto actor receipt points shift f (rw sales h.fresh)
        (rw customers h.customer_known) (rw mechanics h.mechanic_known) in
    let g_items = same_items dto actor receipt points shift f eg ∙ items in
    let (out, i, ei) =
      insert_lines-Returns dto locked g lines h.lines_apart (rw g_items h.no_lines) in
    let (ms, j, ej) = insert_movements-Returns dto.id locked after ds i demands in
    let (j_customers, j_mechanics) =
      rows_apart dto actor receipt points shift locked after ds f eg ei ej in
    let (customer, l, el) =
      apply_customer-Returns dto.customer_id points dto.total j
        (rw (j_customers ∙ customers) h.points_fit) in
    let l_mechanics =
      same_mechanics dto.customer_id points dto.total j el ∙ j_mechanics ∙ mechanics in
    let (mechanic, m, em) =
      apply_mechanic-Returns dto.mechanic_id dto l (rw l_mechanics h.tab_fits) in
    record {
      date = date;
      g = g;
      headed = eg;
      out = out;
      i = i;
      lined = ei;
      ms = ms;
      j = j;
      moved = ej;
      customer = customer;
      l = l;
      credited = el;
      mechanic = mechanic;
      m = m;
      billed = em;
    }
