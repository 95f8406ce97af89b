-- ===== src/Sales.antt =====
-- The sale transaction (server/src/sales/sales.service.ts, sales.dto.ts), one module for each
-- part of it.
pub mod Request
pub mod Stock
pub mod Ledger
pub mod Bill
pub mod Create
pub mod Movements
pub mod Restock
pub mod Void
