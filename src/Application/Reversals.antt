-- ===== src/Application/Reversals.antt =====
-- src/ledger/application/reverse.service.ts
pub mod Outcome
use miniledger.Base.{
  ℕ, ℤ, String, Bool, true, false, ◌&&◌, Option, none, some, List, [], ◌∷◌, map, Result, ok, err,
  ◌==◌, if◌then◌else◌,
}
use miniledger.Kernel.Currency
use miniledger.Kernel.Currency.{Currency, CurrencyError}
use miniledger.Kernel.Money
use miniledger.Kernel.Money.{CurrencyMismatchError}
use miniledger.Domain.Ids.{account_id, TransactionId}
use miniledger.Domain.Journal
use miniledger.Domain.Journal.{Posting, posting, JournalTransaction, JournalError}
use miniledger.Persistence.Failure.{
  Failure, PostingError, ledger_posting_failure, already_reversed_error, database_error,
  currency_mismatch_error, unknown_original_currency, not_compensable,
}
use miniledger.Persistence.Store.{Db, TransferReceipt}
use miniledger.Persistence.Platform.{Platform}
use miniledger.Persistence.Action.{Action, pure, throw, throw_if, with_transaction, ◌>>=◌, ◌>>◌}
use miniledger.Persistence.Journals.{
  OriginalPosting, OriginalTransaction, reverses_key, find_transaction, has_reversal,
}
use miniledger.Application.Poster.{PostOptions, post}

pub data ReverseError : Type 0 where
  unknown_transaction already_reversed insufficient_funds : ReverseError

abbrev pub Response : Type 0
Response = Result TransferReceipt ReverseError

-- `candidate.code === '23505' && candidate.constraint === REVERSES_UNIQUE_CONSTRAINT`
abbrev is_reverses_violation : Option (String × String) → Bool
is_reverses_violation none = false
is_reverses_violation (some (code, constraint)) = (code == "23505") && (constraint == reverses_key)

-- The opposite legs.
unfoldable pub opposite_legs : Currency → List OriginalPosting → List Posting
opposite_legs currency [] = []
opposite_legs currency (p ∷ ps) =
    posting (account_id p.account_id) (Money.negate (Money.of p.amount currency))
    ∷ opposite_legs currency ps

module _ (platform : Platform) where
  -- The `catch` of `reverse`.
  abbrev pub caught : Failure → Action Response
  caught already_reversed_error = pure (err already_reversed)
  caught (ledger_posting_failure PostingError.insufficient_funds) =
      pure (err ReverseError.insufficient_funds)
  caught (database_error e) =
      if is_reverses_violation (platform.error_fields e)
      then pure (err already_reversed)
      else throw (database_error e)
  caught e = throw e

  abbrev pub try_catch : Result TransferReceipt Failure × Db → Result Response Failure × Db
  try_catch (ok receipt, db) = (ok (ok receipt), db)
  try_catch (err e, db) = caught e db

  abbrev pub attempt : Action TransferReceipt → Action Response
  attempt work db = try_catch (work db)

  -- The work of the transaction.
  unfoldable pub post_reversal : ℕ → String → JournalTransaction → Currency → Action TransferReceipt
  post_reversal now transaction_id compensating currency = do
    reversed ← has_reversal platform transaction_id
    throw_if reversed already_reversed_error
    post platform now compensating currency (record {
      require_owner = none;
      event_type = "transfer.reversed";
      reverses_transaction_id = some transaction_id;
    })

  abbrev pub compensate :
      ℕ
      → String
      → Currency
      → Result (Result JournalTransaction JournalError) CurrencyMismatchError
      → Action Response
  compensate now transaction_id currency (err e) = throw (currency_mismatch_error e)
  compensate now transaction_id currency (ok (err e)) = throw (not_compensable e)
  compensate now transaction_id currency (ok (ok compensating)) =
      attempt (with_transaction (post_reversal now transaction_id compensating currency))

  abbrev pub reverse_in :
      ℕ
      → TransactionId
      → String
      → OriginalTransaction
      → Result Currency CurrencyError
      → Action Response
  reverse_in now id transaction_id original (err _) =
      throw (unknown_original_currency transaction_id)
  reverse_in now id transaction_id original (ok currency) =
      compensate now transaction_id currency
        (Journal.create id (opposite_legs currency original.postings))

  abbrev pub reverse_found :
      ℕ → TransactionId → String → Option OriginalTransaction → Action Response
  reverse_found now id transaction_id none = pure (err unknown_transaction)
  reverse_found now id transaction_id (some original) =
      reverse_in now id transaction_id original (Currency.of original.currency)

  -- `reverse`, at a time and with the generated id
  unfoldable pub reverse : ℕ → TransactionId → String → Action Response
  reverse now id transaction_id = do
    original ← find_transaction platform transaction_id
    reverse_found now id transaction_id original
