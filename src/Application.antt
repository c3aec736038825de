-- ===== src/Application.antt =====
-- ledger/application: the services.
pub mod Poster
pub mod Transfers
pub mod Reversals
pub mod Accounts
pub mod Statements
pub mod Audits
