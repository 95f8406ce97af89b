-- ===== src/Tests.antt =====
-- The theorems applied to a small shop.
pub mod Shop
pub mod Bills
pub mod Refunds
pub mod Drawers
pub mod Numbers
pub mod Requests
pub mod Orders
pub mod Payments
pub mod Machines
pub mod Days
pub mod Accepted
pub mod Quotes
pub mod Catalogue
pub mod Wire
