-- ===== src/Application/Transfers.antt =====
-- src/ledger/application/transfer.service.ts
pub mod Cases
pub mod Effect
pub mod Outcome
pub mod Retries
pub mod Amounts
use miniledger.Base.{
  ℕ, ℤ, pos, leb_ℤ, String, Bool, true, false, not, Option, none, some, List, [], ◌∷◌, Result, ok,
  err, is_numeral, read_nat, ◌==◌, if◌then◌else◌,
}
use miniledger.Kernel.Currency
use miniledger.Kernel.Currency.{Currency, CurrencyError}
use miniledger.Kernel.Money
use miniledger.Kernel.Money.{CurrencyMismatchError}
use miniledger.Domain.Ids.{AccountId, account_id, TransactionId}
use miniledger.Domain.Journal
use miniledger.Domain.Journal.{JournalTransaction, JournalError}
use miniledger.Domain.HashChain.{join}
use miniledger.Persistence.Failure.{
  Failure, PostingError, TransferError, transfer_failure, ledger_posting_failure,
  currency_mismatch_error,
}
use miniledger.Persistence.Store.{Db, TransferReceipt}
use miniledger.Persistence.Platform.{Platform}
use miniledger.Persistence.Action.{Action, pure, throw, with_transaction, ◌>>=◌, ◌>>◌}
use miniledger.Persistence.Idempotency.{IdempotencyClaim, owned, taken, claim, complete}
use miniledger.Application.Poster.{PostOptions, post}

pub record TransferInput : Type 0 where
  pub from : String
  pub to : String
  pub amount : String
  pub currency : String
  pub owner_id : String
  pub idempotency_key : Option String

-- `parseAmount`
unfoldable pub parse_amount : String → Option ℤ
parse_amount raw = if is_numeral raw then some (pos (read_nat raw)) else none

-- `if (idempotencyKey)`: neither `undefined` nor empty
unfoldable pub key_of : Option String → Option String
key_of none = none
key_of (some key) = if key == "" then none else some key

-- A posting error is a transfer error of the same name.
abbrev pub posting_code : PostingError → TransferError
posting_code PostingError.unknown_account = TransferError.unknown_account
posting_code PostingError.account_currency_mismatch = TransferError.account_currency_mismatch
posting_code PostingError.not_account_owner = TransferError.not_account_owner
posting_code PostingError.insufficient_funds = TransferError.insufficient_funds

abbrev pub Response : Type 0
Response = Result (Option TransferReceipt) TransferError

-- The `catch` of `transfer`.
abbrev pub caught : Failure → Action Response
caught (transfer_failure code) = pure (err code)
caught (ledger_posting_failure code) = pure (err (posting_code code))
caught e = throw e

abbrev pub try_catch : Result (Option TransferReceipt) Failure × Db → Result Response Failure × Db
try_catch (ok receipt, db) = (ok (ok receipt), db)
try_catch (err e, db) = caught e db

abbrev pub attempt : Action (Option TransferReceipt) → Action Response
attempt work db = try_catch (work db)

module _ (platform : Platform) where
  -- `fingerprint`
  unfoldable pub fingerprint : TransferInput → String
  fingerprint input =
      platform.sha256
        (join (input.owner_id ∷ input.from ∷ input.to ∷ input.amount ∷ input.currency ∷ []))

  abbrev post_transfer : ℕ → JournalTransaction → Currency → String → Action TransferReceipt
  post_transfer now journal currency owner_id = post platform now journal currency (record {
    require_owner = some owner_id;
    event_type = "transfer.posted";
    reverses_transaction_id = none;
  })

  -- After the claim: replay, refuse, or post and keep the receipt.
  abbrev pub run_claimed :
      ℕ
      → JournalTransaction
      → Currency
      → String
      → String
      → String
      → IdempotencyClaim
      → Action (Option TransferReceipt)
  run_claimed now journal currency owner_id key print (taken stored response) =
      if stored == print
      then pure response
      else throw (transfer_failure TransferError.idempotency_conflict)
  run_claimed now journal currency owner_id key print owned = do
    receipt ← post_transfer now journal currency owner_id
    complete platform key journal.id.value (some receipt)
    pure (some receipt)

  -- `run`
  unfoldable pub run :
      ℕ
      → JournalTransaction
      → Currency
      → String
      → Option String
      → String
      → Action (Option TransferReceipt)
  run now journal currency owner_id none print = do
    receipt ← post_transfer now journal currency owner_id
    pure (some receipt)
  run now journal currency owner_id (some key) print = do
    claim ← claim key print
    run_claimed now journal currency owner_id key print claim

  abbrev pub run_built :
      ℕ
      → TransferInput
      → Currency
      → Result (Result JournalTransaction JournalError) CurrencyMismatchError
      → Action Response
  run_built now input currency (err e) = throw (currency_mismatch_error e)
  run_built now input currency (ok (err _)) = pure (err TransferError.non_positive_amount)
  run_built now input currency (ok (ok journal)) = attempt (
      with_transaction (
        run now journal currency input.owner_id (key_of input.idempotency_key) (fingerprint input)))

  abbrev pub with_amount : ℕ → TransactionId → TransferInput → Currency → Option ℤ → Action Response
  with_amount now id input currency none = pure (err TransferError.non_positive_amount)
  with_amount now id input currency (some amount) =
      if leb_ℤ amount (pos 0)
      then pure (err TransferError.non_positive_amount)
      else if input.from == input.to
      then pure (err TransferError.same_account)
      else run_built now input currency (
          Journal.transfer id (account_id input.from) (account_id input.to)
            (Money.of amount currency))

  abbrev pub with_currency :
      ℕ → TransactionId → TransferInput → Result Currency CurrencyError → Action Response
  with_currency now id input (err _) = pure (err TransferError.unknown_currency)
  with_currency now id input (ok currency) =
      with_amount now id input currency (parse_amount input.amount)

  -- `transfer`, at a time and with the generated id
  unfoldable pub transfer : ℕ → TransactionId → TransferInput → Action Response
  transfer now id input = with_currency now id input (Currency.of input.currency)
