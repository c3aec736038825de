-- ===== src/Application/Transfers/Outcome.antt =====
-- A whole call of TransferService.transfer: what it returns and what it writes.
use miniledger.Base.{ℕ, ℤ, ◌≡◌, refl, sym, ap, ◌∙◌, ◌⊎◌, inl, inr, Option, ok, ok-injective, subst}
use miniledger.Kernel.Currency.{Currency}
use miniledger.Domain.Ids.{TransactionId}
use miniledger.Persistence.Failure.{Failure}
use miniledger.Persistence.Store.{Db, TransferReceipt}
use miniledger.Persistence.Platform.{Platform}
use miniledger.Persistence.Action.{Action, pure, throw, with_transaction}
use miniledger.Persistence.Action.Laws.{with_transaction-cases}
use miniledger.Application.Transfers.{
  TransferInput, caught, try_catch, attempt, key_of, fingerprint, run, transfer,
}
use miniledger.Application.Transfers.Cases.{journal_of, IsAccepted, transfer-cases}

caught-keeps : (e : Failure) (db : Db) → (caught e db).1 ≡ db
unfolding pure throw
caught-keeps (Failure.transfer_failure c) db = refl
caught-keeps (Failure.ledger_posting_failure c) db = refl
caught-keeps Failure.already_reversed_error db = refl
caught-keeps (Failure.currency_mismatch_error e) db = refl
caught-keeps (Failure.database_error e) db = refl
caught-keeps (Failure.no_balance_row s) db = refl
caught-keeps Failure.lines_mismatch db = refl
caught-keeps (Failure.unknown_stored_currency s) db = refl
caught-keeps (Failure.key_disappeared s) db = refl
caught-keeps (Failure.unknown_original_currency s) db = refl
caught-keeps (Failure.not_compensable e) db = refl

caught-refuses :
    (e : Failure) (db : Db) {r : Option TransferReceipt} {db' : Db}
    → caught e db ≡ (ok (ok r), db')
    → ⊥
unfolding pure throw
caught-refuses (Failure.transfer_failure c) db h = cc h
caught-refuses (Failure.ledger_posting_failure c) db h = cc h
caught-refuses Failure.already_reversed_error db h = cc h
caught-refuses (Failure.currency_mismatch_error e) db h = cc h
caught-refuses (Failure.database_error e) db h = cc h
caught-refuses (Failure.no_balance_row s) db h = cc h
caught-refuses Failure.lines_mismatch db h = cc h
caught-refuses (Failure.unknown_stored_currency s) db h = cc h
caught-refuses (Failure.key_disappeared s) db h = cc h
caught-refuses (Failure.unknown_original_currency s) db h = cc h
caught-refuses (Failure.not_compensable e) db h = cc h

-- A caught transaction: committed with the result of its work, or nothing written and no receipt.
attempt-cases :
    (work : Action (Option TransferReceipt)) (db : Db)
    → ((r : Option TransferReceipt) × (db' : Db) × (work db ≡ (ok r, db'))
        × (attempt (with_transaction work) db ≡ (ok (ok r), db')))
      ⊎ ((e : Failure) × (attempt (with_transaction work) db ≡ caught e db))
attempt-cases work db = elim (with_transaction-cases work db) [
  | inl (r, ran, returned, committed) ↦ inl (
    r,
    (with_transaction work db).1,
    ran,
    ap try_catch
        (subst (λ x. with_transaction work db ≡ (x, (with_transaction work db).1)) returned refl),
  )
  | inr (e, undone) ↦ inr (e, ap try_catch undone)
]

module _ (platform : Platform) (now : ℕ) (id : TransactionId) (input : TransferInput)
    (db : Db) where
  -- A transfer that returns a receipt: the request was accepted and its unit of work ran.
  pub record Succeeds (r : Option TransferReceipt) (db' : Db) : Type 0 where
    pub currency : Currency
    pub amount : ℤ
    pub accepted_by : IsAccepted input currency amount
    pub ran :
        run platform now
          (journal_of id input amount currency)
          currency
          input.owner_id
          (key_of input.idempotency_key)
          (fingerprint platform input)
          db
        ≡ (ok r, db')

  abbrev pub Outcome : Type 0
  Outcome =
      ((r : Option TransferReceipt) × (db' : Db) × Succeeds r db'
        × (transfer platform now id input db ≡ (ok (ok r), db')))
      ⊎ (((transfer platform now id input db).1 ≡ db)
          × ((r : Option TransferReceipt) (db' : Db)
              → transfer platform now id input db ≡ (ok (ok r), db')
              → ⊥))

  -- A call either returns the receipt of a unit of work that ran on an accepted request and whose
  -- writes are committed, or it returns no receipt and leaves the tables as they were.
  pub transfer-outcome : Outcome
  transfer-outcome = elim (transfer-cases platform now id input db) [
    | inl (e, refused) ↦ inr (ap (λ p. p.1) refused, λ r db' h. cc (rw refused at h))
    | inr (currency, amount, checks, begun) ↦
        elim (attempt-cases
          (run platform now (journal_of id input amount currency) currency input.owner_id
            (key_of input.idempotency_key) (fingerprint platform input))
          db) [
            | inl (r, db', ran, result) ↦ inl (
              r,
              db',
              record { currency = currency; amount = amount; accepted_by = checks; ran = ran },
              begun ∙ result,
            )
            | inr (e, failed) ↦ inr (
              ap (λ p. p.1) (begun ∙ failed) ∙ caught-keeps e db,
              λ r db' h. caught-refuses e db {r = r} {db' = db'} (rw (begun ∙ failed) at h),
            )
          ]
  ]

  -- A receipt is returned only by a unit of work that ran.
  pub transfer-Succeeds :
      {r : Option TransferReceipt} {db' : Db}
      → transfer platform now id input db ≡ (ok (ok r), db')
      → Succeeds r db'
  transfer-Succeeds {r} {db'} h = elim transfer-outcome [
    | inl (r', db'', s, e) ↦
        let same : ok (ok r') ≡ ok (ok r) = ap (λ p. p.0) (sym e ∙ h) in
        subst (λ x. Succeeds x db') (ok-injective (ok-injective same))
          (subst (Succeeds r') (ap (λ p. p.1) (sym e ∙ h)) s)
    | inr (kept, none_such) ↦ absurd (none_such r db' h)
  ]
