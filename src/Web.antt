-- ===== src/Web.antt =====
-- The dashboard, web/src: its helpers, the routes that stand before the ledger, and its forms.
pub mod Runtime
pub mod Money
pub mod Upstream
pub mod Proxy
pub mod Sessions
pub mod Client
pub mod ServerLedger
pub mod Identity
pub mod Types
pub mod TransferForm
pub mod StatementView
pub mod Languages
