-- ===== src/Persistence.antt =====
-- ledger/infrastructure/persistence and db: the tables, the repositories over them and the unit of
-- work.
pub mod Failure
pub mod Store
pub mod Action
pub mod Platform
pub mod Accounts
pub mod Balances
pub mod Locking
pub mod Journals
pub mod Idempotency
pub mod Statements
pub mod Audit
pub mod Genesis
