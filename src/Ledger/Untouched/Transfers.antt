-- ===== src/Ledger/Untouched/Transfers.antt =====
-- TransferService.transfer (src/ledger/application/transfer.service.ts) writes no account.
use miniledger.Base.{
  ℕ, ℤ, ◌≡◌, refl, ◌∙◌, String, Option, none, some, Result, ok, err, leb_ℤ, ◌==◌, pos,
}
use miniledger.Domain.Ids.{TransactionId}
use miniledger.Kernel.Currency
use miniledger.Kernel.Currency.{Currency, CurrencyError}
use miniledger.Kernel.Money.{CurrencyMismatchError}
use miniledger.Domain.Journal.{JournalTransaction, JournalError}
use miniledger.Persistence.Failure.{Failure}
use miniledger.Persistence.Store.{Db, TransferReceipt}
use miniledger.Persistence.Platform.{Platform}
use miniledger.Persistence.Action.{Action}
use miniledger.Persistence.Idempotency.{IdempotencyClaim, owned, taken}
use miniledger.Application.Transfers
use miniledger.Application.Transfers.{TransferInput, transfer, run, run_claimed}
use miniledger.Ledger.Untouched.{
  Keeps, pure-Keeps, throw-Keeps, bind-Keeps, with_transaction-Keeps, if-Keeps, claim-Keeps,
  complete-Keeps, post-Keeps,
}

module _ (platform : Platform) where
  transfer_caught-Keeps : (e : Failure) → Keeps (Transfers.caught e)
  transfer_caught-Keeps (Failure.transfer_failure c) = pure-Keeps _
  transfer_caught-Keeps (Failure.ledger_posting_failure c) = pure-Keeps _
  transfer_caught-Keeps Failure.already_reversed_error = throw-Keeps _
  transfer_caught-Keeps (Failure.currency_mismatch_error e) = throw-Keeps _
  transfer_caught-Keeps (Failure.database_error e) = throw-Keeps _
  transfer_caught-Keeps (Failure.no_balance_row s) = throw-Keeps _
  transfer_caught-Keeps Failure.lines_mismatch = throw-Keeps _
  transfer_caught-Keeps (Failure.unknown_stored_currency s) = throw-Keeps _
  transfer_caught-Keeps (Failure.key_disappeared s) = throw-Keeps _
  transfer_caught-Keeps (Failure.unknown_original_currency s) = throw-Keeps _
  transfer_caught-Keeps (Failure.not_compensable e) = throw-Keeps _

  try_catch-accounts :
      (r : Result (Option TransferReceipt) Failure) (db : Db)
      → (Transfers.try_catch (r, db)).1.accounts ≡ db.accounts
  try_catch-accounts (ok receipt) db = refl
  try_catch-accounts (err e) db = (transfer_caught-Keeps e).accounts_eq db

  attempt-Keeps : {m : Action (Option TransferReceipt)} → Keeps m → Keeps (Transfers.attempt m)
  attempt-Keeps {m} k = record {
    accounts_eq = λ db. try_catch-accounts (m db).0 (m db).1 ∙ k.accounts_eq db;
  }

  run_claimed-Keeps :
      (now : ℕ) (journal : JournalTransaction) (currency : Currency) (owner key print : String)
      (c : IdempotencyClaim)
      → Keeps (run_claimed platform now journal currency owner key print c)
  run_claimed-Keeps now journal currency owner key print (taken stored response) =
      if-Keeps (stored == print) (pure-Keeps _) (throw-Keeps _)
  run_claimed-Keeps now journal currency owner key print owned =
      bind-Keeps (post-Keeps platform now journal currency _) (λ receipt.
        bind-Keeps (complete-Keeps platform key journal.id.value (some receipt))
          (λ _. pure-Keeps _))

  run-Keeps :
      (now : ℕ) (journal : JournalTransaction) (currency : Currency) (owner : String)
      (key : Option String) (print : String)
      → Keeps (run platform now journal currency owner key print)
  unfolding run
  run-Keeps now journal currency owner none print =
      bind-Keeps (post-Keeps platform now journal currency _) (λ receipt. pure-Keeps _)
  run-Keeps now journal currency owner (some key) print =
      bind-Keeps (claim-Keeps key print) (run_claimed-Keeps now journal currency owner key print)

  run_built-Keeps :
      (now : ℕ) (input : TransferInput) (currency : Currency)
      (r : Result (Result JournalTransaction JournalError) CurrencyMismatchError)
      → Keeps (Transfers.run_built platform now input currency r)
  run_built-Keeps now input currency (err e) = throw-Keeps _
  run_built-Keeps now input currency (ok (err e)) = pure-Keeps _
  run_built-Keeps now input currency (ok (ok journal)) =
      attempt-Keeps (with_transaction-Keeps (run-Keeps now journal currency _ _ _))

  with_amount-Keeps :
      (now : ℕ) (id : TransactionId) (input : TransferInput) (currency : Currency) (o : Option ℤ)
      → Keeps (Transfers.with_amount platform now id input currency o)
  with_amount-Keeps now id input currency none = pure-Keeps _
  with_amount-Keeps now id input currency (some amount) =
      if-Keeps (leb_ℤ amount (pos 0)) (pure-Keeps _)
        (if-Keeps (input.from == input.to) (pure-Keeps _) (run_built-Keeps now input currency _))

  with_currency-Keeps :
      (now : ℕ) (id : TransactionId) (input : TransferInput) (r : Result Currency CurrencyError)
      → Keeps (Transfers.with_currency platform now id input r)
  with_currency-Keeps now id input (err e) = pure-Keeps _
  with_currency-Keeps now id input (ok currency) =
      with_amount-Keeps now id input currency (Transfers.parse_amount input.amount)

  pub transfer-Keeps :
      (now : ℕ) (id : TransactionId) (input : TransferInput)
      → Keeps (transfer platform now id input)
  unfolding transfer
  transfer-Keeps now id input = with_currency-Keeps now id input (Currency.of input.currency)
