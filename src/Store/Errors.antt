-- ===== src/Store/Errors.antt =====
-- What a request is refused with: the `code` of each exception, and the details it carries.
use jenkin_sri_store.Prelude.{ℕ, Option, List}
use jenkin_sri_store.Prelude.Int.{ℤ}
use jenkin_sri_store.Store.Rows.{Text, RowId}

-- One line of `INSUFFICIENT_STOCK`: no stock is a product that has no row.
pub record StockLine : Type 0 where
  pub product_id : RowId
  pub stock : Option ℕ
  pub requested : ℕ

-- One line of `RETURN_PRICE_MISMATCH`, and one of `OVER_REFUND`; no room is a line that is not on
-- the bill.
pub record PriceLine : Type 0 where
  pub product_id : RowId
  pub price : ℕ
  pub sold_at : List ℕ

pub record RefundLine : Type 0 where
  pub name : Text
  pub remaining : Option ℤ
  pub requested : ℕ

pub data Error : Type 0 where
  total_mismatch : ℕ → ℤ → Error
  sale_id_reused sale_voided sale_not_found sale_has_returns sale_not_in_open_shift : Error
  no_open_shift shift_already_closed drawer_closed device_role_forbidden : Error
  physical_cash_required : RowId → Error
  credit_limit_exceeded : ℤ → ℕ → ℕ → Error
  insufficient_stock : List StockLine → Error
  stock_underflow : RowId → Error
  unknown_reference doc_number_exhausted : Error
  refund_method_not_allowed : Error
  return_price_mismatch : List PriceLine → Error
  over_refund : List RefundLine → Error
  idempotency_key_reused idempotency_not_done idempotency_vanished : Error
  void_not_authorised : Error
  po_not_found po_already_received po_cancelled stock_out_of_range : Error
  product_not_found mechanic_not_found credit_payment_id_reused : Error
  credit_payment_exceeds_balance : ℕ → ℕ → ℕ → Error
  pos_device_exists : RowId → Error
  device_no_exhausted device_not_found device_already_retired : Error
  quote_not_found quote_expired quote_has_no_lines : Error
  quote_already_converted : Option RowId → Error
  internal : Error
