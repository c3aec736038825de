-- ===== src/Persistence/Failure.antt =====
-- What the code throws: the application's error classes (src/ledger/application), the `new Error(…)`
-- of the repositories, and the constraint violations that PostgreSQL reports.
use miniledger.Base.{String}
use miniledger.Kernel.Money.{CurrencyMismatchError}
use miniledger.Domain.Journal.{JournalError}

pub data PostingError : Type 0 where
  unknown_account account_currency_mismatch not_account_owner insufficient_funds : PostingError

pub data TransferError : Type 0 where
  unknown_currency non_positive_amount same_account : TransferError
  unknown_account account_currency_mismatch not_account_owner : TransferError
  insufficient_funds idempotency_conflict : TransferError

-- SQLSTATE classes, with the constraint's name where the code reads it.
pub data DatabaseError : Type 0 where
  unique_violation : String → DatabaseError
  not_null_violation foreign_key_violation check_violation out_of_range invalid_text : DatabaseError

pub data Failure : Type 0 where
  transfer_failure : TransferError → Failure
  ledger_posting_failure : PostingError → Failure
  already_reversed_error : Failure
  currency_mismatch_error : CurrencyMismatchError → Failure
  database_error : DatabaseError → Failure
  no_balance_row : String → Failure
  lines_mismatch : Failure
  unknown_stored_currency : String → Failure
  key_disappeared : String → Failure
  unknown_original_currency : String → Failure
  not_compensable : JournalError → Failure
