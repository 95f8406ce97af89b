-- ===== src/Products.antt =====
-- The count of a product is corrected by hand (`adjustStock` of
-- server/src/products/products.service.ts).
pub mod Adjusted
pub mod Pages
pub mod Edits
use jenkin_sri_store.Prelude.{
  ℕ, ◌+◌, Bool, true, false, Option, none, some, List, [], ◌∷◌, ◌++◌, if◌then◌else◌, not,
}
use jenkin_sri_store.Prelude.Int.{ℤ, pos, pos_part, ◌+ℤ◌, leb_ℤ}
use jenkin_sri_store.Store.{
  Text, RowId, int4_max, Product, Movement, MovementType, Note, Action, AuditRow, Hook, CacheName,
  put, Db, Tx, ok, pure, modify, throw, throw_if, gets, on_commit, ◌>>=◌, ◌>>◌, product_not_found,
  stock_out_of_range,
}
use jenkin_sri_store.Shifts.{Actor}

-- The two literals of `ADJUSTMENT_TYPES`.
pub data AdjustmentType : Type 0 where
  adjustment_in adjustment_out : AdjustmentType

pub record StockAdjustment : Type 0 where
  pub delta : ℤ
  pub type : AdjustmentType
  pub note : Option Text

pub record StockAdjustmentResult : Type 0 where
  pub stock_after : ℕ
  pub product : Product
  pub movement : Movement

abbrev pub movement_type : AdjustmentType → MovementType
movement_type AdjustmentType.adjustment_in = MovementType.adjustment_in
movement_type AdjustmentType.adjustment_out = MovementType.adjustment_out

abbrev pub note_of : Option Text → Option Note
note_of none = none
note_of (some text) = some (Note.typed text)

-- The row `WHERE id = $2 AND deleted_at IS NULL`.
abbrev pub live_row : Option Product → Tx Product
live_row none = throw product_not_found
live_row (some p) = if p.deleted then throw product_not_found else pure p

unfoldable pub lock_live : RowId → Tx Product
lock_live id s = live_row (s.products id) s

-- `before + delta`.
abbrev pub requested_stock : ℕ → ℤ → ℤ
requested_stock before delta = pos before +ℤ delta

unfoldable pub adjustment_movement : RowId → RowId → StockAdjustment → Product → ℕ → Movement
adjustment_movement id product_id input p now = record {
  id = id;
  product_id = product_id;
  part_no = p.part_no;
  name = p.name;
  delta = input.delta;
  type = movement_type input.type;
  note = note_of input.note;
  stock_after = p.stock;
  ref_id = none;
  date = now;
}

abbrev pub adjusted : ℤ → Product → Product
adjusted delta p = record p { stock = pos_part (requested_stock p.stock delta) }

-- The `UPDATE … RETURNING`, and the row of the ledger.
unfoldable pub write_adjustment : RowId → StockAdjustment → Product → Tx Movement
unfolding adjustment_movement
write_adjustment id input p s =
    let after = adjusted input.delta p in
    let m = adjustment_movement s.next_id id input after s.now in
    ok (
      m,
      record s {
        products = put id after s.products;
        movements = s.movements ++ m ∷ [];
        next_id = s.next_id + 1;
      },
    )

-- `adjustStock`: the count stops at 0.
unfoldable pub adjust_stock : RowId → StockAdjustment → Actor → Tx StockAdjustmentResult
unfolding lock_live write_adjustment
adjust_stock id input actor = do
  p ← lock_live id
  throw_if (not (leb_ℤ (requested_stock p.stock input.delta) (pos int4_max))) stock_out_of_range
  m ← write_adjustment id input p
  modify (λ s. record s {
    audit_log =
        s.audit_log
        ++ record {
          user_id = actor.user_id;
          device_id = actor.device_id;
          action = Action.stock_adjust;
          entity_id = id;
        }
          ∷ [];
  })
  on_commit (Hook.invalidate CacheName.products)
  let after = adjusted input.delta p
  pure (record { stock_after = after.stock; product = after; movement = m })
