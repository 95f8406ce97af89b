-- ===== src/Store/Rows.antt =====
-- The rows of the tenant's tables. A text that the server only stores and compares (an id, a
-- name, a part number) is a number; an amount is whole satang, the unit that common/money.ts
-- computes in; an instant is a number.
use jenkin_sri_store.Prelude.{ℕ, Bool, Option, List}
use jenkin_sri_store.Prelude.Int.{ℤ}
use jenkin_sri_store.Store.Tables.{Table}

abbrev pub Text : Type 0
Text = ℕ

abbrev pub RowId : Type 0
RowId = ℕ

-- `INT4_MAX`: the top of an `int` column.
-- `NUMERIC(14,2)`, in satang.
abbrev pub numeric_max : ℕ
numeric_max = 99999999999999

abbrev pub int4_max : ℕ
int4_max = 2147483647

-- The three literals of `PAYMENT_METHODS`: cash, transfer, and the mechanic's tab.
pub data PaymentMethod : Type 0 where
  cash transfer mechanic_credit : PaymentMethod

-- The three literals of `REFUND_METHODS`: cash, transfer, and off the mechanic's tab.
pub data RefundMethod : Type 0 where
  cash transfer deduct_from_credit : RefundMethod

pub data MovementType : Type 0 where
  sale return void receive adjustment_in adjustment_out : MovementType

pub data DocType : Type 0 where
  receipt po quote cn cp : DocType

pub record Product : Type 0 where
  pub part_no : Text
  pub name : Text
  pub cost : ℕ
  pub stock : ℕ
  pub deleted : Bool

pub record Customer : Type 0 where
  pub points : ℕ
  pub total_spend : ℤ

pub record Mechanic : Type 0 where
  pub credit_limit : ℤ
  pub credit_balance : ℕ
  pub total_sales : ℤ
  pub total_credit : ℤ
  pub total_discount : ℤ
  pub total_markup : ℤ

pub data DeviceRole : Type 0 where
  pos backoffice : DeviceRole

-- A retired device keeps its row; an enrolment code is kept by its hash.
pub record Device : Type 0 where
  pub device_no : ℕ
  pub label : Text
  pub role : DeviceRole
  pub enrol_code_hash : Option Text
  pub retired : Bool

pub record Sale : Type 0 where
  pub receipt_no : List ℕ
  pub subtotal : ℕ
  pub discount : ℕ
  pub total : ℕ
  pub payment_method : PaymentMethod
  pub customer_id : Option RowId
  pub customer_name : Option Text
  pub mechanic_id : Option RowId
  pub mechanic_name : Option Text
  pub mechanic_delta : Option ℤ
  pub points_granted : ℕ
  pub user_id : RowId
  pub device_id : RowId
  pub shift_id : Option RowId
  pub date : ℕ
  pub voided : Bool
  pub voided_at : Option ℕ

pub record SaleItem : Type 0 where
  pub sale_id : RowId
  pub line_no : ℕ
  pub product_id : RowId
  pub part_no : Option Text
  pub name : Text
  pub name_th : Option Text
  pub qty : ℕ
  pub price : ℕ
  pub cost_at_sale : Option ℕ

-- The text of a movement: what the counter typed, or the line that a receipt of goods prints of the
-- order's number, its supplier and the cost that the product has from then on.
pub data Note : Type 0 where
  typed : Text → Note
  received_on : List ℕ → Text → ℕ → Note

pub record Movement : Type 0 where
  pub id : RowId
  pub product_id : RowId
  pub part_no : Text
  pub name : Text
  pub delta : ℤ
  pub type : MovementType
  pub note : Option Note
  pub stock_after : ℕ
  pub ref_id : Option RowId
  pub date : ℕ

pub record Return : Type 0 where
  pub id : RowId
  pub cn_no : List ℕ
  pub sale_id : RowId
  pub receipt_no : List ℕ
  pub refund_subtotal : ℕ
  pub refund_discount : ℕ
  pub refund_total : ℤ
  pub refund_method : RefundMethod
  pub reason : Text
  pub customer_id : Option RowId
  pub mechanic_id : Option RowId
  pub mechanic_name : Option Text
  pub shift_id : Option RowId
  pub date : ℕ

-- `sale_id` is the `sale_id` of the credit note that `return_id` names, which the server reads
-- by joining `returns`.
pub record ReturnItem : Type 0 where
  pub return_id : RowId
  pub sale_id : RowId
  pub line_no : ℕ
  pub product_id : RowId
  pub name : Text
  pub qty : ℕ
  pub price : ℕ
  pub original_qty : Option ℕ
  pub cost_at_sale : Option ℕ

pub record Shift : Type 0 where
  pub id : RowId
  pub date_str : Text
  pub starting_cash : ℕ
  pub opened_at : ℕ
  pub closed_at : Option ℕ
  pub physical_cash : Option ℕ
  pub is_active : Bool
  pub auto_archived : Bool
  pub archived_at : Option ℕ
  pub opened_by : Option RowId
  pub device_id : RowId

pub data EntryType : Type 0 where
  money_in money_out : EntryType

pub record DrawerEntry : Type 0 where
  pub id : RowId
  pub shift_id : RowId
  pub type : EntryType
  pub amount : ℕ
  pub note : Text
  pub created_at : ℕ
  pub created_by : RowId

-- The literals of `PO_STATUSES`; `placed` is the literal 'open'.
pub data PoStatus : Type 0 where
  placed received cancelled : PoStatus

pub record PurchaseOrder : Type 0 where
  pub po_no : List ℕ
  pub supplier : Text
  pub status : PoStatus
  pub created_at : ℕ
  pub received_at : Option ℕ
  pub cancelled_at : Option ℕ

pub record PoLine : Type 0 where
  pub po_id : RowId
  pub line_no : ℕ
  pub part_no : Text
  pub name : Text
  pub qty : ℕ
  pub cost : ℕ

-- The two literals that settle a tab: cash and transfer.
pub data SettleMethod : Type 0 where
  cash transfer : SettleMethod

pub record CreditPayment : Type 0 where
  pub receipt_no : List ℕ
  pub mechanic_id : RowId
  pub amount : ℕ
  pub payment_method : Option SettleMethod
  pub note : Option Text
  pub date : ℕ
  pub shift_id : Option RowId

pub data QuoteStatus : Type 0 where
  still_open converted expired cancelled : QuoteStatus

-- The money is filled in: only the import of a snapshot leaves it null.
pub record Quote : Type 0 where
  pub quote_no : List ℕ
  pub status : QuoteStatus
  pub date : ℕ
  pub valid_until : ℕ
  pub converted_at : Option ℕ
  pub converted_sale_id : Option RowId
  pub subtotal : ℕ
  pub discount : ℕ
  pub total : ℕ
  pub customer_name : Option Text
  pub customer_phone : Option Text
  pub notes : Option Text
  pub valid_days : Option ℕ

-- A line without a product names a part that is not in the catalogue.
pub record QuoteItem : Type 0 where
  pub quote_id : RowId
  pub line_no : ℕ
  pub product_id : Option RowId
  pub name : Text
  pub qty : ℕ
  pub price : ℕ

pub data Action : Type 0 where
  credit_limit_override sale_void po_receive stock_adjust credit_payment_overpayment device_create
        device_retire :
      Action

pub record AuditRow : Type 0 where
  pub user_id : RowId
  pub device_id : RowId
  pub action : Action
  pub entity_id : RowId

-- What runs after the commit: a cached page dropped, or a job for the worker.
pub data CacheName : Type 0 where
  products customers mechanics : CacheName

pub data Hook : Type 0 where
  invalidate : CacheName → Hook
  sale_created return_created : RowId → List RowId → Hook

-- The tenant's tables, with the clock, the source of row ids, and the hooks registered so far.
-- `product_ids` and `device_ids` are the keys of those rows in the order of the keys, for the
-- queries that read the whole table.
pub record Db : Type 0 where
  pub products : Table Product
  pub product_ids : List RowId
  pub customers : Table Customer
  pub mechanics : Table Mechanic
  pub devices : Table Device
  pub device_ids : List RowId
  pub sales : Table Sale
  pub sale_items : List SaleItem
  pub returns : List Return
  pub return_items : List ReturnItem
  pub movements : List Movement
  pub shifts : List Shift
  pub drawer_entries : List DrawerEntry
  pub audit_log : List AuditRow
  pub purchase_orders : Table PurchaseOrder
  pub po_items : List PoLine
  pub credit_payments : Table CreditPayment
  pub quotes : Table Quote
  pub quote_items : List QuoteItem
  pub doc_counters : RowId → DocType → ℕ → ℕ → Option ℕ
  pub now : ℕ
  pub today : Text
  pub local_year : ℕ
  pub local_month : ℕ
  pub next_id : RowId
  pub hooks : List Hook
