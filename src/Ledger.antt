-- ===== src/Ledger.antt =====
-- The ledger in its own terms: the invariant of its tables, and the services against it.
pub mod Chain
pub mod Order
pub mod Totals
pub mod Invariant
pub mod Posting
pub mod Transfers
pub mod Movements
pub mod Retries
pub mod Reversals
pub mod Accounts
pub mod Untouched
pub mod Listing
pub mod Reachable
pub mod History
pub mod Audits
pub mod Authorization
pub mod Commits
pub mod SecondReversals
pub mod Pages
pub mod Statements
