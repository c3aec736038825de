-- ===== src/Domain.antt =====
-- ledger/domain: the entities and pure functions of the ledger.
pub mod Ids
pub mod Account
pub mod Journal
pub mod BalanceFold
pub mod Overdraft
pub mod HashChain
