-- ===== src/Application/Reversals/Outcome.antt =====
-- A whole call of ReverseService.reverse: what it returns and what it writes.
use miniledger.Base.{
  ℕ, ◌≡◌, refl, sym, ap, ◌∙◌, ◌⊎◌, inl, inr, String, some, List, map, select, find, ok, ◌==◌,
  ok-injective, subst, Bool-cases, Option-cases, Result-cases,
}
use miniledger.Kernel.Currency
use miniledger.Kernel.Currency.{Currency}
use miniledger.Domain.Ids.{TransactionId}
use miniledger.Domain.Journal
use miniledger.Domain.Journal.{JournalTransaction}
use miniledger.Domain.Journal.Laws.{create_total}
use miniledger.Persistence.Failure.{Failure, PostingError}
use miniledger.Persistence.Store.{Db, TransactionRow, TransferReceipt}
use miniledger.Persistence.Platform.{Platform}
use miniledger.Persistence.Action.{
  Action, ◌>>=◌, pure, throw, gets, unless_missing, with_transaction,
}
use miniledger.Persistence.Action.Laws.{with_transaction-cases}
use miniledger.Persistence.Journals.{
  OriginalPosting, original_posting, order_by_seq, find_transaction,
}
use miniledger.Application.Reversals.{
  is_reverses_violation, opposite_legs, caught, try_catch, attempt, post_reversal, reverse,
}

module _ (platform : Platform) where
  caught-keeps : (e : Failure) (db : Db) → (caught platform e db).1 ≡ db
  unfolding pure throw
  caught-keeps Failure.already_reversed_error db = refl
  caught-keeps (Failure.ledger_posting_failure PostingError.insufficient_funds) db = refl
  caught-keeps (Failure.ledger_posting_failure PostingError.unknown_account) db = refl
  caught-keeps (Failure.ledger_posting_failure PostingError.account_currency_mismatch) db = refl
  caught-keeps (Failure.ledger_posting_failure PostingError.not_account_owner) db = refl
  caught-keeps (Failure.database_error e) db =
      elim (Bool-cases (is_reverses_violation (platform.error_fields e))) [
        | inl same ↦ rw same
        | inr other ↦ rw other
      ]
  caught-keeps (Failure.transfer_failure c) db = refl
  caught-keeps (Failure.currency_mismatch_error e) db = refl
  caught-keeps (Failure.no_balance_row s) db = refl
  caught-keeps Failure.lines_mismatch db = refl
  caught-keeps (Failure.unknown_stored_currency s) db = refl
  caught-keeps (Failure.key_disappeared s) db = refl
  caught-keeps (Failure.unknown_original_currency s) db = refl
  caught-keeps (Failure.not_compensable e) db = refl

  caught-refuses :
      (e : Failure) (db : Db) {r : TransferReceipt} {db' : Db}
      → caught platform e db ≡ (ok (ok r), db')
      → ⊥
  unfolding pure throw
  caught-refuses Failure.already_reversed_error db h = cc h
  caught-refuses (Failure.ledger_posting_failure PostingError.insufficient_funds) db h = cc h
  caught-refuses (Failure.ledger_posting_failure PostingError.unknown_account) db h = cc h
  caught-refuses (Failure.ledger_posting_failure PostingError.account_currency_mismatch) db h = cc h
  caught-refuses (Failure.ledger_posting_failure PostingError.not_account_owner) db h = cc h
  caught-refuses (Failure.database_error e) db h =
      elim (Bool-cases (is_reverses_violation (platform.error_fields e))) [
        | inl same ↦ cc (rw same at h)
        | inr other ↦ cc (rw other at h)
      ]
  caught-refuses (Failure.transfer_failure c) db h = cc h
  caught-refuses (Failure.currency_mismatch_error e) db h = cc h
  caught-refuses (Failure.no_balance_row s) db h = cc h
  caught-refuses Failure.lines_mismatch db h = cc h
  caught-refuses (Failure.unknown_stored_currency s) db h = cc h
  caught-refuses (Failure.key_disappeared s) db h = cc h
  caught-refuses (Failure.unknown_original_currency s) db h = cc h
  caught-refuses (Failure.not_compensable e) db h = cc h

  attempt-cases :
      (work : Action TransferReceipt) (db : Db)
      → ((r : TransferReceipt) × (db' : Db) × (work db ≡ (ok r, db'))
          × (attempt platform (with_transaction work) db ≡ (ok (ok r), db')))
        ⊎ ((e : Failure) × (attempt platform (with_transaction work) db ≡ caught platform e db))
  attempt-cases work db = elim (with_transaction-cases work db) [
    | inl (r, ran, returned, committed) ↦ inl (
      r,
      (with_transaction work db).1,
      ran,
      ap (try_catch platform)
          (subst (λ x. with_transaction work db ≡ (x, (with_transaction work db).1)) returned refl),
    )
    | inr (e, undone) ↦ inr (e, ap (try_catch platform) undone)
  ]

  module _ (now : ℕ) (id : TransactionId) (t : String) (db : Db) where
    abbrev pub originals : String → List OriginalPosting
    originals key =
        map original_posting (order_by_seq (select (λ p. p.transaction_id == key) db.postings))

    -- A reversal that returns a receipt: the transaction is stored, and the opposite of its postings
    -- was built and posted.
    pub record Reverses (r : TransferReceipt) (db' : Db) : Type 0 where
      pub key : String
      pub key_eq : platform.uuid t ≡ some key
      pub row : TransactionRow
      pub found : find (λ r. r.id == key) db.transactions ≡ some row
      pub currency : Currency
      pub currency_eq : Currency.of row.currency ≡ ok currency
      pub journal : JournalTransaction
      pub built : Journal.create id (opposite_legs currency (originals row.id)) ≡ ok (ok journal)
      pub ran : post_reversal platform now t journal currency db ≡ (ok r, db')

    abbrev pub Outcome : Type 0
    Outcome =
        ((r : TransferReceipt) × (db' : Db) × Reverses r db'
          × (reverse platform now id t db ≡ (ok (ok r), db')))
        ⊎ (((reverse platform now id t db).1 ≡ db)
            × ((r : TransferReceipt) (db' : Db)
                → reverse platform now id t db ≡ (ok (ok r), db')
                → ⊥))

    pub begun :
        {key : String} {row : TransactionRow} {currency : Currency} {journal : JournalTransaction}
        → platform.uuid t ≡ some key
        → find (λ r. r.id == key) db.transactions ≡ some row
        → Currency.of row.currency ≡ ok currency
        → Journal.create id (opposite_legs currency (originals row.id)) ≡ ok (ok journal)
        → reverse platform now id t db
          ≡ attempt platform (with_transaction (post_reversal platform now t journal currency)) db
    unfolding reverse find_transaction ◌>>=◌ unless_missing gets
    begun read found known built = rw (read, found, known, built)

    outcome_of :
        {key : String} {row : TransactionRow} {currency : Currency} {journal : JournalTransaction}
        → platform.uuid t ≡ some key
        → find (λ r. r.id == key) db.transactions ≡ some row
        → Currency.of row.currency ≡ ok currency
        → Journal.create id (opposite_legs currency (originals row.id)) ≡ ok (ok journal)
        → Outcome
    outcome_of {key} {row} {currency} {journal} read found known built =
        let start =
          begun {key = key} {row = row} {currency = currency} {journal = journal} read found known
            built in
        elim (attempt-cases (post_reversal platform now t journal currency) db) [
          | inl (r, db', ran, result) ↦
              let s : Reverses r db' = record {
                key = key;
                key_eq = read;
                row = row;
                found = found;
                currency = currency;
                currency_eq = known;
                journal = journal;
                built = built;
                ran = ran;
              } in
              inl (r, db', s, start ∙ result)
          | inr (e, failed) ↦ inr (
            ap (λ p. p.1) (start ∙ failed) ∙ caught-keeps e db,
            λ r db' h. caught-refuses e db {r = r} {db' = db'} (rw (start ∙ failed) at h),
          )
        ]

    -- A call either returns the receipt of a posted opposite of a stored transaction, whose writes are
    -- committed, or it returns no receipt and leaves the tables as they were.
    pub reverse-outcome : Outcome
    unfolding reverse find_transaction ◌>>=◌ unless_missing gets pure throw
    reverse-outcome = elim (Option-cases (platform.uuid t)) [
      | inl malformed ↦ inr (rw malformed, λ r db' h. cc (rw malformed at h))
      | inr (key, read) ↦ elim (Option-cases (find (λ r. r.id == key) db.transactions)) [
        | inl missing ↦ inr (rw (read, missing), λ r db' h. cc (rw (read, missing) at h))
        | inr (row, found) ↦ elim (Result-cases (Currency.of row.currency)) [
          | inr (e, unknown) ↦
              inr (rw (read, found, unknown), λ r db' h. cc (rw (read, found, unknown) at h))
          | inl (currency, known) ↦
              let (built, total) = create_total id (opposite_legs currency (originals row.id)) in
              elim (Result-cases built) [
                | inr (e, unfit) ↦
                    let refused = total ∙ ap ok unfit in
                    inr (
                      rw (read, found, known, refused),
                      λ r db' h. cc (rw (read, found, known, refused) at h),
                    )
                | inl (journal, made) ↦
                    outcome_of {key = key} {row = row} {currency = currency} {journal = journal}
                      read found known (total ∙ ap ok made)
              ]
        ]
      ]
    ]

    -- A receipt is returned only by a posted reversal.
    pub reverse-Reverses :
        {r : TransferReceipt} {db' : Db}
        → reverse platform now id t db ≡ (ok (ok r), db')
        → Reverses r db'
    reverse-Reverses {r} {db'} h = elim reverse-outcome [
      | inl (r', db'', s, e) ↦
          let same : ok (ok r') ≡ ok (ok r) = ap (λ p. p.0) (sym e ∙ h) in
          subst (λ x. Reverses x db') (ok-injective (ok-injective same))
            (subst (Reverses r') (ap (λ p. p.1) (sym e ∙ h)) s)
      | inr (kept, none_such) ↦ absurd (none_such r db' h)
    ]
