-- ===== src/Interface.antt =====
-- The HTTP interface, src/ledger/interface and src/shared/http. A thrown ProblemException is the error
-- of a result; any other failure stays a failure.
pub mod Problems
pub mod Filter
pub mod Transfers
pub mod Reversals
pub mod Accounts
pub mod Audits
