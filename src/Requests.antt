-- ===== src/Requests.antt =====
-- The requests of a shop as steps on its rows: each constructor is a service method that returned,
-- in the transaction that it ran in. A request that was refused left the rows as they were
-- (`run_tx`), and is no step. The clock moves between requests. The edits of the list of products
-- are not among them: `createIn` stores an opening stock that no movement records.
pub mod Kept
pub mod Machines
pub mod Keeps
pub mod Ledger
pub mod Reached
pub mod Received
pub mod Voided
pub mod Final
use jenkin_sri_store.Prelude.{ℕ, ◌≡◌, Option}
use jenkin_sri_store.Store.{Text, RowId, EntryType, DrawerEntry, Db, ok}
use jenkin_sri_store.Shifts.{Actor, ShiftWithEntries, open_shift, close, add_entry}
use jenkin_sri_store.Sales.Request.{CreateSale}
use jenkin_sri_store.Sales.Create.{CreateSaleResult, create_sale}
use jenkin_sri_store.Sales.Void.{AuthorisedVoid, void_sale}
use jenkin_sri_store.Returns.Request.{CreateReturn}
use jenkin_sri_store.Returns.Create.{CreateReturnResult, create_return}
use jenkin_sri_store.PurchaseOrders.{PoCreate, PurchaseOrderOut, create_po, cancel_po, delete_po}
use jenkin_sri_store.PurchaseOrders.Receipt.{ReceiveResult, receive_po}
use jenkin_sri_store.Products.{StockAdjustment, StockAdjustmentResult, adjust_stock}
use jenkin_sri_store.Quotes.{
  QuoteCreate, QuotePatch, QuoteOut, SaleParty, ConvertQuoteResult, create_quote, update_quote,
  delete_quote, duplicate_quote, convert_quote,
}
use jenkin_sri_store.Devices.{NewDevice, create_device, retire_device}
use jenkin_sri_store.CreditPayments.{
  CreateCreditPayment, CreateCreditPaymentResult, create_credit_payment,
}

-- What the day brings between two requests: another time, day and month.
abbrev pub at_time : ℕ → Text → ℕ → ℕ → Db → Db
at_time now today year month s = record s {
  now = now;
  today = today;
  local_year = year;
  local_month = month;
}

pub data Step (lower : Text → Text) (s t : Db) : Type 0 where
  sell :
      (dto : CreateSale) (actor : Actor) (r : CreateSaleResult)
      → create_sale dto actor s ≡ ok (r, t)
      → Step lower s t
  void :
      (id : RowId) (auth : AuthorisedVoid) (x : Unit {0})
      → void_sale id auth s ≡ ok (x, t)
      → Step lower s t
  refund :
      (dto : CreateReturn) (actor : Actor) (r : CreateReturnResult)
      → create_return dto actor s ≡ ok (r, t)
      → Step lower s t
  place :
      (input : PoCreate) (device : RowId) (o : PurchaseOrderOut)
      → create_po input device s ≡ ok (o, t)
      → Step lower s t
  receive :
      (id : RowId) (actor : Actor) (r : ReceiveResult)
      → receive_po lower id actor s ≡ ok (r, t)
      → Step lower s t
  cancel : (id : RowId) (o : PurchaseOrderOut) → cancel_po id s ≡ ok (o, t) → Step lower s t
  delete : (id x : RowId) → delete_po id s ≡ ok (x, t) → Step lower s t
  adjust :
      (id : RowId) (input : StockAdjustment) (actor : Actor) (r : StockAdjustmentResult)
      → adjust_stock id input actor s ≡ ok (r, t)
      → Step lower s t
  pay :
      (mechanic : RowId) (dto : CreateCreditPayment) (actor : Actor) (r : CreateCreditPaymentResult)
      → create_credit_payment mechanic dto actor s ≡ ok (r, t)
      → Step lower s t
  open_drawer :
      (actor : Actor) (cash : ℕ) (r : ShiftWithEntries)
      → open_shift actor cash s ≡ ok (r, t)
      → Step lower s t
  close_drawer :
      (device : RowId) (cash : ℕ) (r : ShiftWithEntries)
      → close device cash s ≡ ok (r, t)
      → Step lower s t
  enter :
      (actor : Actor) (type : EntryType) (amount : ℕ) (text : Option Text) (r : DrawerEntry)
      → add_entry actor type amount text s ≡ ok (r, t)
      → Step lower s t
  enrol :
      (input : NewDevice) (code_hash : Text) (actor : Actor) (r : RowId)
      → create_device input code_hash actor s ≡ ok (r, t)
      → Step lower s t
  retire :
      (actor : Actor) (device : RowId) (cash : Option ℕ) (r : Option ShiftWithEntries)
      → retire_device actor device cash s ≡ ok (r, t)
      → Step lower s t
  save_quote :
      (input : QuoteCreate) (device : RowId) (r : QuoteOut)
      → create_quote input device s ≡ ok (r, t)
      → Step lower s t
  edit_quote :
      (id : RowId) (patch : QuotePatch) (r : QuoteOut)
      → update_quote id patch s ≡ ok (r, t)
      → Step lower s t
  drop_quote : (id x : RowId) → delete_quote id s ≡ ok (x, t) → Step lower s t
  renew_quote :
      (id device : RowId) (r : QuoteOut) → duplicate_quote id device s ≡ ok (r, t) → Step lower s t
  sell_quote :
      (id : RowId) (party : SaleParty) (actor : Actor) (r : ConvertQuoteResult)
      → convert_quote id party actor s ≡ ok (r, t)
      → Step lower s t
  pass :
      (now : ℕ) (today : Text) (year month : ℕ)
      → t ≡ at_time now today year month s
      → Step lower s t

-- Any number of requests, one after another.
pub data Reach (lower : Text → Text) (s : Db) : Db → Type 0 where
  here : Reach lower s s
  next : {t u : Db} → Reach lower s t → Step lower t u → Reach lower s u
