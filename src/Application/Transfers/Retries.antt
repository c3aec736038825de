-- ===== src/Application/Transfers/Retries.antt =====
-- A transfer whose idempotency key is kept already.
use miniledger.Base.{
  ℕ, ℤ, ◌≡◌, refl, ◌∙◌, inl, inr, String, true, Option, none, some, List, [], ◌∷◌, ◌++◌, Map,
  lookup, lookup-append, ok, err, ◌==◌, eq_self, if◌then◌else◌, length, drop, Bool-cases, arith,
}
use miniledger.Kernel.Currency.{Currency}
use miniledger.Domain.Ids.{TransactionId}
use miniledger.Domain.Journal.{JournalTransaction}
use miniledger.Persistence.Failure.{TransferError}
use miniledger.Persistence.Store.{Db, KeyRow, PostingRow, TransferReceipt}
use miniledger.Persistence.Platform.{Platform}
use miniledger.Persistence.Action.{◌>>=◌, pure, throw, with_transaction, may_commit, settle}
use miniledger.Persistence.Idempotency.{set_response, taken}
use miniledger.Application.Transfers.{
  TransferInput, Response, try_catch, key_of, fingerprint, run, run_claimed, transfer,
}
use miniledger.Application.Transfers.Cases.{journal_of, IsAccepted, transfer-accepted}
use miniledger.Application.Transfers.Effect.{claim-taken}

-- What a kept row answers.
abbrev pub answer : KeyRow → String → Response
answer row print =
    if row.fingerprint == print then ok row.response else err TransferError.idempotency_conflict

drop-length : (rows : List PostingRow) → drop (length rows) rows ≡ []
drop-length [] = refl
drop-length (r ∷ rows) = drop-length rows

may_commit-same : (db : Db) → may_commit db db ≡ true
unfolding may_commit
may_commit-same db = rw (drop-length db.postings)

module _ (platform : Platform) where
  claimed-answer :
      (now : ℕ) (journal : JournalTransaction) (currency : Currency) (owner_id key print : String)
      (row : KeyRow) (db : Db)
      → try_catch (
          settle db (
            run_claimed platform now journal currency owner_id key print
              (taken row.fingerprint row.response)
              db))
        ≡ (ok (answer row print), db)
  unfolding pure throw
  claimed-answer now journal currency owner_id key print row db =
      elim (Bool-cases (row.fingerprint == print)) [
        | inl same ↦ rw (same, may_commit-same db)
        | inr other ↦ rw other
      ]

  -- A valid request under a key that is kept is answered from the kept row, and writes nothing: the
  -- kept response if the fingerprints agree, and a conflict if they do not.
  pub transfer-kept :
      (now : ℕ) (id : TransactionId) (input : TransferInput) (db : Db) {currency : Currency}
      {amount : ℤ} {key : String} {row : KeyRow}
      → IsAccepted input currency amount
      → key_of input.idempotency_key ≡ some key
      → lookup key db.idempotency_keys ≡ some row
      → transfer platform now id input db ≡ (ok (answer row (fingerprint platform input)), db)
  unfolding with_transaction run ◌>>=◌
  transfer-kept now id input db {currency} {amount} {key} {row} a k found =
      transfer-accepted platform now id input db a
      ∙ rw (k, claim-taken key (fingerprint platform input) db {row = row} found)
          (claimed-answer now (journal_of id input amount currency) currency input.owner_id key
            (fingerprint platform input) row db)

pub lookup-set_response :
    (key id : String) (response : Option TransferReceipt) (m : Map KeyRow) {row : KeyRow}
    → lookup key m ≡ some row
    → lookup key (set_response key id response m)
      ≡ some (record row { transaction_id = some id; response = response })
unfolding set_response
lookup-set_response key id response [] h = cc h
lookup-set_response key id response ((k, v) ∷ m) {row} h = elim (Bool-cases (k == key)) [
  | inl same ↦ ground (arith)
  | inr other ↦ rw other (lookup-set_response key id response m {row = row} (rw other at h))
]

pub lookup-last :
    (key : String) (row : KeyRow) (m : Map KeyRow)
    → lookup key m ≡ none
    → lookup key (m ++ (key, row) ∷ []) ≡ some row
lookup-last key row m h = lookup-append key m ((key, row) ∷ []) ∙ rw (h, eq_self key)
