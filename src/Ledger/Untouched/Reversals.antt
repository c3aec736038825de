-- ===== src/Ledger/Untouched/Reversals.antt =====
-- ReverseService.reverse (src/ledger/application/reverse.service.ts) writes no account.
use miniledger.Base.{ℕ, ◌≡◌, refl, ◌∙◌, String, Option, none, some, Result, ok, err}
use miniledger.Domain.Ids.{TransactionId}
use miniledger.Kernel.Currency
use miniledger.Kernel.Currency.{Currency, CurrencyError}
use miniledger.Kernel.Money.{CurrencyMismatchError}
use miniledger.Domain.Journal
use miniledger.Domain.Journal.{JournalTransaction, JournalError}
use miniledger.Persistence.Failure.{Failure, PostingError}
use miniledger.Persistence.Store.{Db, TransferReceipt}
use miniledger.Persistence.Platform.{Platform}
use miniledger.Persistence.Action.{Action}
use miniledger.Persistence.Journals.{OriginalTransaction, find_transaction, has_reversal}
use miniledger.Application.Reversals
use miniledger.Application.Reversals.{reverse, post_reversal}
use miniledger.Ledger.Untouched.{
  Keeps, pure-Keeps, throw-Keeps, gets-Keeps, unless_missing-Keeps, throw_if-Keeps, bind-Keeps,
  with_transaction-Keeps, if-Keeps, post-Keeps,
}

module _ (platform : Platform) where
  caught-Keeps : (e : Failure) → Keeps (Reversals.caught platform e)
  caught-Keeps Failure.already_reversed_error = pure-Keeps _
  caught-Keeps (Failure.ledger_posting_failure PostingError.insufficient_funds) = pure-Keeps _
  caught-Keeps (Failure.ledger_posting_failure PostingError.unknown_account) = throw-Keeps _
  caught-Keeps (Failure.ledger_posting_failure PostingError.account_currency_mismatch) =
      throw-Keeps _
  caught-Keeps (Failure.ledger_posting_failure PostingError.not_account_owner) = throw-Keeps _
  caught-Keeps (Failure.database_error e) = if-Keeps _ (pure-Keeps _) (throw-Keeps _)
  caught-Keeps (Failure.transfer_failure c) = throw-Keeps _
  caught-Keeps (Failure.currency_mismatch_error e) = throw-Keeps _
  caught-Keeps (Failure.no_balance_row s) = throw-Keeps _
  caught-Keeps Failure.lines_mismatch = throw-Keeps _
  caught-Keeps (Failure.unknown_stored_currency s) = throw-Keeps _
  caught-Keeps (Failure.key_disappeared s) = throw-Keeps _
  caught-Keeps (Failure.unknown_original_currency s) = throw-Keeps _
  caught-Keeps (Failure.not_compensable e) = throw-Keeps _

  try_catch-accounts :
      (r : Result TransferReceipt Failure) (db : Db)
      → (Reversals.try_catch platform (r, db)).1.accounts ≡ db.accounts
  try_catch-accounts (ok receipt) db = refl
  try_catch-accounts (err e) db = (caught-Keeps e).accounts_eq db

  attempt-Keeps : {m : Action TransferReceipt} → Keeps m → Keeps (Reversals.attempt platform m)
  attempt-Keeps {m} k = record {
    accounts_eq = λ db. try_catch-accounts (m db).0 (m db).1 ∙ k.accounts_eq db;
  }

  post_reversal-Keeps :
      (now : ℕ) (transaction_id : String) (journal : JournalTransaction) (currency : Currency)
      → Keeps (post_reversal platform now transaction_id journal currency)
  unfolding post_reversal has_reversal
  post_reversal-Keeps now transaction_id journal currency =
      bind-Keeps (bind-Keeps (unless_missing-Keeps _ _) (λ key. gets-Keeps _)) (λ reversed.
        bind-Keeps (throw_if-Keeps _ _) (λ _. post-Keeps platform now journal currency _))

  compensate-Keeps :
      (now : ℕ) (transaction_id : String) (currency : Currency)
      (r : Result (Result JournalTransaction JournalError) CurrencyMismatchError)
      → Keeps (Reversals.compensate platform now transaction_id currency r)
  compensate-Keeps now transaction_id currency (err e) = throw-Keeps _
  compensate-Keeps now transaction_id currency (ok (err e)) = throw-Keeps _
  compensate-Keeps now transaction_id currency (ok (ok journal)) =
      attempt-Keeps
        (with_transaction-Keeps (post_reversal-Keeps now transaction_id journal currency))

  reverse_in-Keeps :
      (now : ℕ) (id : TransactionId) (transaction_id : String) (original : OriginalTransaction)
      (r : Result Currency CurrencyError)
      → Keeps (Reversals.reverse_in platform now id transaction_id original r)
  reverse_in-Keeps now id transaction_id original (err e) = throw-Keeps _
  reverse_in-Keeps now id transaction_id original (ok currency) =
      compensate-Keeps now transaction_id currency
        (Journal.create id (Reversals.opposite_legs currency original.postings))

  reverse_found-Keeps :
      (now : ℕ) (id : TransactionId) (transaction_id : String) (o : Option OriginalTransaction)
      → Keeps (Reversals.reverse_found platform now id transaction_id o)
  reverse_found-Keeps now id transaction_id none = pure-Keeps _
  reverse_found-Keeps now id transaction_id (some original) =
      reverse_in-Keeps now id transaction_id original (Currency.of original.currency)

  pub reverse-Keeps :
      (now : ℕ) (id : TransactionId) (transaction_id : String)
      → Keeps (reverse platform now id transaction_id)
  unfolding reverse find_transaction
  reverse-Keeps now id transaction_id =
      bind-Keeps (bind-Keeps (unless_missing-Keeps _ _) (λ key. gets-Keeps _))
        (reverse_found-Keeps now id transaction_id)
