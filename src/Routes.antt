-- ===== src/Routes.antt =====
-- The handlers of src/routes, without those of subscriptions.ts that write.
pub mod Plans
pub mod Endpoints
pub mod Wallets
pub mod Payments
pub mod Queries
pub mod Merchants
pub mod Indexer
pub mod Access
pub mod Pages
pub mod Health
