-- ===== src/Web/Types.antt =====
-- web/src/lib/types.ts: the ledger's answers as the dashboard reads them.
use miniledger.Base.{ℕ, String, Bool, Option, List}

pub record Account : Type 0 where
  pub id : String
  pub type : String
  pub currency : String
  pub balance : String
  pub overdraft_floor : Option String
  pub created_at : String

pub record StatementEntry : Type 0 where
  pub seq : ℕ
  pub transaction_id : String
  pub amount : String
  pub balance_after : String
  pub created_at : String

pub record Statement : Type 0 where
  pub entries : List StatementEntry
  pub next_cursor : Option ℕ

pub record ReceiptPosting : Type 0 where
  pub account_id : String
  pub amount : String
  pub balance_after : String

pub record TransferReceipt : Type 0 where
  pub transaction_id : String
  pub postings : List ReceiptPosting

pub record CurrencyTotal : Type 0 where
  pub currency : String
  pub total : String

pub record ConservationReport : Type 0 where
  pub conserved : Bool
  pub by_currency : List CurrencyTotal

pub record AccountAudit : Type 0 where
  pub account_id : String
  pub posting_count : ℕ
  pub balance : String
  pub chain_valid : Bool
  pub head_matches : Bool
  pub reconciled : Bool
  pub broken_at_seq : Option ℕ
