-- ===== src/Sales/Bill/Rows.antt =====
-- What the loops over the lines and the demands insert.
use jenkin_sri_store.Prelude.{
  ℕ, ◌≡◌, refl, sym, ◌∙◌, map, append-nil, append_assoc, arith, some, List, [], ◌∷◌, ◌++◌,
}
use jenkin_sri_store.Prelude.Int.{neg}
use jenkin_sri_store.Store.{
  RowId, SaleItem, Movement, MovementType, Db, ok, each, ran, or_throw-ok, throw_if-ok, ◌>>=◌,
  internal, new_id,
}
use jenkin_sri_store.Sales.Request.{SaleLine, CreateSale, Demand}
use jenkin_sri_store.Sales.Stock.{LockedProduct, by_id}
use jenkin_sri_store.Sales.Bill.{
  SaleLineOut, line_out, item_row, has_line, insert_line, insert_lines, by_line_no, value_of,
  sale_movement, insert_movement, insert_movements,
}

-- A stored line that copies the line of the bill.
pub record Copies (sale_id : RowId) (line : SaleLine) (i : SaleItem) : Type 0 where
  pub of_sale : i.sale_id ≡ sale_id
  pub product : i.product_id ≡ line.product_id
  pub quantity : i.qty ≡ line.qty
  pub priced : i.price ≡ line.price

abbrev pub CopiesAll : RowId → List SaleLine → List SaleItem → Type 0
CopiesAll id [] [] = Unit
CopiesAll id (l ∷ ls) (i ∷ is) = Copies id l i × CopiesAll id ls is
CopiesAll id _ _ = ⊥

-- What inserting some lines did: the rows are appended, one for each line, and answered in turn.
pub record Inserted (sale_id : RowId) (lines : List SaleLine) (s : Db) (out : List SaleLineOut)
    (t : Db) : Type 0 where
  pub rows : List SaleItem
  pub appended : t.sale_items ≡ s.sale_items ++ rows
  pub answered : out ≡ map line_out rows
  pub copied : CopiesAll sale_id lines rows
  pub only_items : t ≡ record s { sale_items = t.sale_items }

insert_line-ok :
    (sale_id : RowId) (locked : List LockedProduct) (line : SaleLine) (s : Db) {o : SaleLineOut}
    {t : Db}
    → insert_line sale_id locked line s ≡ ok (o, t)
    → (i : SaleItem) × (Copies sale_id line i)
      × (o ≡ line_out i)
      × (t ≡ record s { sale_items = s.sale_items ++ i ∷ [] })
unfolding insert_line item_row
insert_line-ok sale_id locked line s {o} {t} h = ran _ _ _ h λ p u e k. ran _ _ _ k λ v w e' k'.
    let (found, same) = or_throw-ok (by_id line.product_id locked) internal s e in
    let (new, kept) = throw_if-ok (has_line sale_id line.line_no u.sale_items) internal u e' in
    (
      item_row sale_id line p,
      ground arith,
      unfold ◌>>=◌ in ground arith,
      unfold ◌>>=◌ in ground arith,
    )

insert_lines_loop :
    (sale_id : RowId) (locked : List LockedProduct) (lines : List SaleLine) (s : Db)
    {out : List SaleLineOut} {t : Db}
    → each (insert_line sale_id locked) lines s ≡ ok (out, t)
    → Inserted sale_id lines s out t
unfolding each
insert_lines_loop sale_id locked [] s {out} {t} h =
    let same : t ≡ s = cc in
    record {
      rows = [];
      appended = rw same (sym (append-nil s.sale_items));
      answered = cc;
      copied = tt;
      only_items = rw same refl;
    }
insert_lines_loop sale_id locked (line ∷ lines) s {out} {t} h = ran _ _ _ h λ o u e k.
    ran _ _ _ k λ os v e' k'.
      let (i, copy, answer, wrote) = insert_line-ok sale_id locked line s e in
      let rest = insert_lines_loop sale_id locked lines u e' in
      let same : t ≡ v = cc in
      let items : u.sale_items ≡ s.sale_items ++ i ∷ [] = cc in
      record {
        rows = i ∷ rest.rows;
        appended =
            rw same (rest.appended ∙ (rw items (append_assoc s.sale_items (i ∷ []) rest.rows)));
        answered = cc (rest.answered);
        copied = (copy, rest.copied);
        only_items = rw same (ground (arith, rest.only_items));
      }

-- A movement that takes the demand off its product, under the bill's id.
pub record Takes (sale_id : RowId) (d : Demand) (m : Movement) : Type 0 where
  pub product : m.product_id ≡ d.product_id
  pub delta : m.delta ≡ neg d.qty
  pub typed : m.type ≡ MovementType.sale
  pub refers : m.ref_id ≡ some sale_id

abbrev pub TakesAll : RowId → List Demand → List Movement → Type 0
TakesAll id [] [] = Unit
TakesAll id (d ∷ ds) (m ∷ ms) = Takes id d m × TakesAll id ds ms
TakesAll id _ _ = ⊥

-- What inserting movements did: one for each demand, appended to the ledger and answered in turn.
pub record Moved (sale_id : RowId) (ds : List Demand) (s : Db) (out : List Movement) (t : Db)
    : Type 0 where
  pub appended : t.movements ≡ s.movements ++ out
  pub taken : TakesAll sale_id ds out
  pub only_movements : t ≡ record s { movements = t.movements; next_id = t.next_id }

insert_movement-ok :
    (sale_id : RowId) (locked : List LockedProduct) (after : List (RowId × ℕ)) (d : Demand) (s : Db)
    {m : Movement} {t : Db}
    → insert_movement sale_id locked after d s ≡ ok (m, t)
    → (Takes sale_id d m)
      × (t.movements ≡ s.movements ++ m ∷ [])
      × (t ≡ record s { movements = t.movements; next_id = t.next_id })
unfolding insert_movement sale_movement new_id
insert_movement-ok sale_id locked after d s {m} {t} h = ran _ _ _ h λ p u e k.
    ran _ _ _ k λ n v e' k'.
      let (found, same) = or_throw-ok (by_id d.product_id locked) internal s e in
      let (found', same') = or_throw-ok (value_of d.product_id after) internal u e' in
      (unfold ◌>>=◌ in ground arith, unfold ◌>>=◌ in ground arith, unfold ◌>>=◌ in ground arith)

pub insert_movements-Moved :
    (sale_id : RowId) (ds : List Demand) (locked : List LockedProduct) (after : List (RowId × ℕ))
    (s : Db) {out : List Movement} {t : Db}
    → insert_movements sale_id ds locked after s ≡ ok (out, t)
    → Moved sale_id ds s out t
unfolding insert_movements each
insert_movements-Moved sale_id [] locked after s {out} {t} h =
    let same : t ≡ s = cc in
    let empty : out ≡ [] = cc in
    record {
      appended = rw (same, empty) (sym (append-nil s.movements));
      taken = rw empty tt;
      only_movements = rw same refl;
    }
insert_movements-Moved sale_id (d ∷ ds) locked after s {out} {t} h = ran _ _ _ h λ m u e k.
    ran _ _ _ k λ ms v e' k'.
      let (takes, appended, only) = insert_movement-ok sale_id locked after d s e in
      let rest = insert_movements-Moved sale_id ds locked after u e' in
      let same : t ≡ v = cc in
      let all : out ≡ m ∷ ms = cc in
      record {
        appended =
            rw (same, all) (rest.appended ∙ (rw appended (append_assoc s.movements (m ∷ []) ms)));
        taken = rw all (takes, rest.taken);
        only_movements = rw same (ground (arith, rest.only_movements));
      }

-- What `insertLines` did, the answer in the order of the line numbers.
pub insert_lines-Inserted :
    (dto : CreateSale) (locked : List LockedProduct) (s : Db) {out : List SaleLineOut} {t : Db}
    → insert_lines dto locked s ≡ ok (out, t)
    → (raw : List SaleLineOut) × (out ≡ by_line_no raw) × Inserted dto.id dto.items s raw t
unfolding insert_lines
insert_lines-Inserted dto locked s {out} {t} h = ran _ _ _ h λ raw u e k.
    let same : t ≡ u = cc in (raw, cc, rw same (insert_lines_loop dto.id locked dto.items s e))
