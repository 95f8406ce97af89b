-- ===== src/Store.antt =====
-- The rows that one tenant owns, and the transaction that every service method runs in
-- (server/src/db/migrations/1788652800000-InitialSchema.ts, server/src/common/database).
-- Row-level security confines each statement to the tenant of the request, so the store holds
-- the rows of that tenant only.
mod Tables
mod Rows
mod Errors
mod Transaction
pub use Tables.*
pub use Rows.*
pub use Errors.*
unfoldable pub use Transaction.*
