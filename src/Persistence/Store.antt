-- ===== src/Persistence/Store.antt =====
-- The tables of src/ledger/infrastructure/persistence/*.schema.ts. Rows stand in insertion order; a
-- table that is only reached by its primary key is a `Map`. Columns that no code reads (row ids
-- that the database makes up, update and publication times) are left out. A `jsonb` receipt is the
-- receipt.
use miniledger.Base.{ℕ, ℤ, pos, negsuc, ◌-◌, ◌^◌, leb_ℤ, String, Bool, ◌&&◌, Option, List, [], Map}
use miniledger.Domain.Account.{AccountType}

pub record PostingReceipt : Type 0 where
  pub account_id : String
  pub amount : String
  pub balance_after : String

pub record TransferReceipt : Type 0 where
  pub id : String
  pub currency : Option String
  pub postings : List PostingReceipt

pub record AccountRow : Type 0 where
  pub id : String
  pub type : AccountType
  pub currency : String
  pub overdraft_floor : Option ℤ
  pub handle : Option String
  pub owner_id : Option String
  pub created_at : ℕ

-- a row of `account_balances`
pub record LockedBalance : Type 0 where
  pub balance : ℤ
  pub chain_hash : Option String

pub record TransactionRow : Type 0 where
  pub id : String
  pub currency : String
  pub reverses_transaction_id : Option String

pub record PostingRow : Type 0 where
  pub seq : ℕ
  pub transaction_id : String
  pub account_id : String
  pub amount : ℤ
  pub balance_after : ℤ
  pub prev_hash : Option String
  pub hash : String
  pub created_at : ℕ

pub record KeyRow : Type 0 where
  pub fingerprint : String
  pub transaction_id : Option String
  pub response : Option TransferReceipt

pub record OutboxRow : Type 0 where
  pub type : String
  pub payload : TransferReceipt

pub record Db : Type 0 where
  pub accounts : List AccountRow
  pub balances : Map LockedBalance
  pub transactions : List TransactionRow
  pub postings : List PostingRow
  pub next_seq : ℕ
  pub idempotency_keys : Map KeyRow
  pub outbox : List OutboxRow

-- The empty tables; identity columns start at 1.
abbrev pub no_rows : Db
no_rows = record {
  accounts = [];
  balances = [];
  transactions = [];
  postings = [];
  next_seq = 1;
  idempotency_keys = [];
  outbox = [];
}

-- The range of a `bigint` column.
unfoldable pub fits_int8 : ℤ → Bool
fits_int8 a = leb_ℤ (negsuc (2 ^ 63 - 1)) a && leb_ℤ a (pos (2 ^ 63 - 1))
