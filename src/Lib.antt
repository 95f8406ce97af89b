-- ===== src/Lib.antt =====
-- The point-of-sale server (server/src): the bills, their voids and credit notes, the purchase
-- orders, the quotes, the list of products, the corrections of the count, the payments off a
-- mechanic's tab, the cash drawer, the machines and the document numbers of one shop.
--
-- A request runs as one database transaction (common/database/tenant.service.ts, `runTx`). A
-- service method is here a function on the shop's rows that returns an answer with the rows after
-- it, or the error that rolls all of it back; `run_tx` is the transaction around it, which keeps the
-- writes and the hooks only of a method that returned.
--
-- Parts:
--   Store       the rows of the tables (db/migrations/1788652800000-InitialSchema.ts), the errors
--               by the codes that the server answers with, and the transaction (`runTx`,
--               `onTransactionCommit`, `newId`).
--   Documents   documents/doc-number.service.ts: `issue` and `formatDocNumber`.
--   Shifts      shifts/shifts.service.ts: `openIn`, `closeIn`, `addEntryIn`,
--               `closeForRetirementIn`, and `currentShiftIdFor` and `requireOpenShiftIdFor`, with
--               which bills, voids and refunds are stamped.
--   Sales       sales/sales.service.ts: Request the totals check and `aggregate`; Stock
--               `lockProducts`, `assertStock` and `deduct`; Ledger the customer's and the
--               mechanic's totals; Bill the inserted rows; Create `createIn` with the replay of a
--               bill that is there. Movements and Restock are shared with Void
--               (sales/void.service.ts, `voidIn`) and Returns.
--   Returns     returns/returns.service.ts: `aggregate`, `refundAmounts`, `soldLines`,
--               `refundedSoFar`, `assertRefundable`, the two reversals, and `createIn`.
--   Idempotency idempotency/idempotency.service.ts: `claim`, `complete` and `runIdempotentIn`
--               around the work of any endpoint.
--   Purchasing  purchasing/weighted-average.ts.
--   PurchaseOrders
--               purchasing/purchase-orders.service.ts: `createIn`, `cancelIn` and `deleteIn`; Receipt
--               `receiveIn`, its loop over the lines and its loop over the products.
--   Products    products/products.service.ts: `adjustStockIn`; Pages `listUncachedIn`, over rows of
--               every column, Handler the `list` of products/products.controller.ts with the page
--               parameters of common/paginated.ts. Edits `createIn`, `updateIn` and `deleteIn`, on the
--               same rows.
--   Devices     devices/devices.service.ts: `createIn` and `retireIn`.
--   CreditPayments
--               mechanics/credit-payments.service.ts: `createIn`, `existingPayment`, `lockBalance`
--               and `reduceBalance`.
--   Quotes      quotes/quotes.service.ts: `createIn`, `updateIn`, `deleteIn`, `duplicateIn`, and
--               `convertIn`, which sells a quote through the sales' `create`.
--   Requests    the service methods of the other parts, but the list of products, as the steps of
--               one shop, in any order, with the clock moving between them.
--   Wire        the texts of amounts (common/money.ts, `toSatang` and `fromSatang`), and Bodies, the
--               parsers of the bodies of a bill (sales/sales.dto.ts), a quote (quotes/quotes.dto.ts),
--               a credit note (returns/returns.dto.ts) and a payment off the tab
--               (mechanics/credit-payments.dto.ts), which build the requests that the services take.
--   Money       common/money.ts: `pointsFor`, and the divisions that refunds round with.
--   Tests       a small shop, on which the theorems are applied.
--
-- How the code is modelled:
--   - The rows are those of one tenant, which row level security fences off. A table that is read by
--     its key is a function from keys, any other is the list of its rows in the order of insertion.
--   - Amounts are whole satang, the unit the server computes in; NUMERIC columns and the float
--     products of satang are exact. A figure that a CHECK or a validator keeps from being negative
--     is a natural number, any other an integer. On natural numbers `GREATEST(0, a - b)` is the
--     subtraction that stops at 0.
--   - A text that is only stored and compared is a number; document numbers are lists of digits
--     and letters by their codes.
--   - A method runs alone: the row locks make concurrent calls on the same rows run one after
--     the other. The order of the locks, which prevents deadlock, shows in no result.
--   - `newId` is a counter of the store, so that ids do not repeat. The unique indexes on receipt,
--     quote and credit note numbers are not tested by an insert, nor is the one on movements.
--   - A void answers with the bill read again; that read is left out. The audit row keeps the user,
--     the machine, the action and the bill.
--   - A key in flight makes a second request wait or fail (503); requests under one key run here
--     one after the other. A cached answer may be missing, and is else the one in the table.
--   - `lower` of the database, which compares part numbers, is a function that the theorems take as
--     an argument, and assume nothing of. The whole-table query that receiving makes reads the
--     products by the list of their keys, in order.
--   - The note that a receipt prints is kept by its parts. `updated_at` is left out everywhere.
--   - An enrolment code is random, and its hash is an argument. When the code runs out, the machine's
--     token and when it was last seen are left out of its row.
--   - A body is a parsed JSON value; a parser gives a request or nothing, which stands for a 400. The
--     number by which the store knows a text, the text of any value (`String`), and the satang of
--     a number that is not whole, which is floating arithmetic, are arguments. The figures of a text
--     are read exactly: `Number` loses none of an amount that a column can hold.
--   - Instants count microseconds. A quote's money is filled in: only the import of a snapshot leaves
--     it null. The id 0 stands for the empty text, which a quoted line without a product sells as.
--   - Loops are structural recursion on lists, so no fuel is needed. The reader that follows cursors
--     is bounded by a number of requests, and one more than the first answer's total is enough.
--   - The running totals of a customer and a mechanic, which no constraint keeps from being negative,
--     are signed, and `GREATEST(0, …)` is written out. A bill that brings points past an `int` or a
--     total past `NUMERIC(14,2)` is refused, and so is one with two lines of one number; both are
--     errors that the server does not map. The amounts of a request are taken to fit their columns,
--     as its parser leaves them.
--   - The list of products is read, and edited, on a table of its own, whose rows have every column;
--     the `Product` of the store has the columns that a movement of the stock reads. The requests of
--     Requests do not edit that list: a product that is created with a stock has no movement for it.
--     The database's `lower`, `LIKE` and `ILIKE`, and the runtime's `Number`, are parameters, and a
--     time is a number.
--
-- Not modelled: the other parsers of bodies, logins and PINs, rate limits, the categories and
-- suppliers of the catalogue, the older purchasing/purchasing.service.ts, which no module registers,
-- the list of quotes, parked sales, reports, settings, the import of a snapshot, the worker, the
-- cache and the logs, and the client (frontend).
pub mod Prelude
pub mod Store
pub mod Money
pub mod Documents
pub mod Shifts
pub mod Sales
pub mod Returns
pub mod Idempotency
pub mod Purchasing
pub mod PurchaseOrders
pub mod CreditPayments
pub mod Products
pub mod Devices
pub mod Quotes
pub mod Wire
pub mod Requests
pub mod Tests
