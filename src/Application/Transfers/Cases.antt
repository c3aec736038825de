-- ===== src/Application/Transfers/Cases.antt =====
-- The checks of TransferService.transfer before the transaction begins.
use miniledger.Base.{
  ℕ, ℤ, pos, leb_ℤ, ◌<ℤ◌, ◌≡◌, ◌⊎◌, inl, inr, false, Option, some, [], ◌∷◌, Result, ok, err, ◌==◌,
  arith, Bool-cases, Option-cases, Result-cases,
}
use miniledger.Kernel.Currency
use miniledger.Kernel.Currency.{Currency}
use miniledger.Kernel.Money
use miniledger.Domain.Ids.{account_id, TransactionId}
use miniledger.Domain.Journal.{JournalTransaction, posting}
use miniledger.Domain.Journal.Laws.{transfer-nonzero}
use miniledger.Persistence.Failure.{Failure, TransferError}
use miniledger.Persistence.Store.{Db, TransferReceipt}
use miniledger.Persistence.Platform.{Platform}
use miniledger.Persistence.Action.{pure, with_transaction}
use miniledger.Application.Transfers.{
  TransferInput, parse_amount, key_of, attempt, fingerprint, run, transfer,
}

-- The transaction of a transfer: a debit of the source and a credit of the destination.
abbrev pub journal_of : TransactionId → TransferInput → ℤ → Currency → JournalTransaction
journal_of id input amount currency = record {
  id = id;
  currency = currency;
  postings =
      posting (account_id input.from) (Money.negate (Money.of amount currency))
      ∷ posting (account_id input.to) (Money.of amount currency)
      ∷ [];
}

-- A request that passes the checks.
pub record IsAccepted (input : TransferInput) (currency : Currency) (amount : ℤ) : Type 0 where
  pub currency_eq : Currency.of input.currency ≡ ok currency
  pub amount_eq : parse_amount input.amount ≡ some amount
  pub positive : pos 0 <ℤ amount
  pub distinct : (input.from == input.to) ≡ false

module _ (platform : Platform) (now : ℕ) (id : TransactionId) (input : TransferInput)
    (db : Db) where
  -- The unit of work of an accepted request.
  abbrev pub accepted :
      Currency → ℤ → Result (Result (Option TransferReceipt) TransferError) Failure × Db
  accepted currency amount =
      attempt
        (with_transaction (
          run platform now (journal_of id input amount currency) currency input.owner_id
            (key_of input.idempotency_key) (fingerprint platform input)))
        db

  pub transfer-accepted :
      {currency : Currency} {amount : ℤ}
      → IsAccepted input currency amount
      → transfer platform now id input db ≡ accepted currency amount
  unfolding transfer
  transfer-accepted {currency} {amount} a = rw (
    a.currency_eq,
    a.amount_eq,
    positive_test amount a.positive,
    a.distinct,
    transfer-nonzero id (account_id input.from) (account_id input.to) (Money.of amount currency)
        (λ e. cc (rw e at (positive_test amount a.positive))),
  )
    where
      positive_test : (amount : ℤ) → pos 0 <ℤ amount → leb_ℤ amount (pos 0) ≡ false
      positive_test amount h = ground arith

  abbrev Refused : Type 0
  Refused = (e : TransferError) × (transfer platform now id input db ≡ (ok (err e), db))

  -- A request is refused before anything is read or written, or it is accepted and runs in one
  -- transaction.
  pub transfer-cases :
      Refused
      ⊎ ((currency : Currency) × (amount : ℤ) × IsAccepted input currency amount
          × (transfer platform now id input db ≡ accepted currency amount))
  unfolding transfer pure
  transfer-cases = elim (Result-cases (Currency.of input.currency)) [
    | inr (e, unknown) ↦ inl (TransferError.unknown_currency, rw unknown)
    | inl (currency, known) ↦ elim (Option-cases (parse_amount input.amount)) [
      | inl malformed ↦ inl (TransferError.non_positive_amount, rw (known, malformed))
      | inr (amount, read) ↦ elim (Bool-cases (leb_ℤ amount (pos 0))) [
        | inl nonpositive ↦ inl (TransferError.non_positive_amount, rw (known, read, nonpositive))
        | inr positive ↦ elim (Bool-cases (input.from == input.to)) [
          | inl same ↦ inl (TransferError.same_account, rw (known, read, positive, same))
          | inr distinct ↦
              let checks : IsAccepted input currency amount = record {
                currency_eq = known;
                amount_eq = read;
                positive = ground arith;
                distinct = distinct;
              } in
              inr (currency, amount, checks, transfer-accepted checks)
        ]
      ]
    ]
  ]
