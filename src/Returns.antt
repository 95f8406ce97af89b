-- ===== src/Returns.antt =====
-- Credit notes (server/src/returns/returns.service.ts), one module for each part.
pub mod Request
pub mod Amounts
pub mod Guard
pub mod Ledger
pub mod Create
