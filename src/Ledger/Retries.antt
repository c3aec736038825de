-- ===== src/Ledger/Retries.antt =====
-- A transfer sent again under its idempotency key.
use miniledger.Base.{
  ℕ, ℤ, ◌≡◌, refl, ap, ◌∙◌, inl, inr, String, Option, some, lookup, ok, eq_self, subst,
}
use miniledger.Kernel.Currency.{Currency}
use miniledger.Domain.Ids.{TransactionId}
use miniledger.Persistence.Store.{Db, KeyRow, TransferReceipt}
use miniledger.Persistence.Platform.{Platform}
use miniledger.Application.Transfers.{TransferInput, key_of, fingerprint, transfer}
use miniledger.Application.Transfers.Cases.{journal_of}
use miniledger.Application.Transfers.Effect.{Keyed, Runs, transfer_options, with_claim, claim_row}
use miniledger.Application.Transfers.Outcome.{transfer-Succeeds}
use miniledger.Application.Transfers.Retries.{transfer-kept, lookup-set_response, lookup-last}
use miniledger.Ledger.Posting.{after-eq}
use miniledger.Ledger.Transfers.{IsSpelled, Succeeds-Runs, canonical_legs}

-- The row under a key keeps a response to a fingerprint.
pub record IsKept (key print : String) (r : Option TransferReceipt) (db : Db) : Type 0 where
  pub row : KeyRow
  pub found : lookup key db.idempotency_keys ≡ some row
  pub matches : row.fingerprint ≡ print
  pub response : row.response ≡ r

module _ (platform : Platform) (now : ℕ) (id : TransactionId) (input : TransferInput) (db : Db)
    (spelled : IsSpelled platform id input) where
  Keyed-IsKept :
      (amount : ℤ) (currency : Currency) (key print : String) {r : Option TransferReceipt}
      {db' : Db}
      → Keyed platform now
          (journal_of id input amount currency)
          currency
          input.owner_id
          key
          print
          db
          r
          db'
      → IsKept key print r db'
  Keyed-IsKept amount currency key print {r} {db'} k =
      let keys : (with_claim key print db).idempotency_keys ≡ k.middle.idempotency_keys =
        ap (λ d. d.idempotency_keys)
          (after-eq platform now (journal_of id input amount currency) currency
            (transfer_options input.owner_id) (with_claim key print db)
            (canonical_legs platform now id input db spelled amount currency) k.posts) in
      let claimed : lookup key k.middle.idempotency_keys ≡ some (claim_row print) =
        rw (← keys) (lookup-last key (claim_row print) db.idempotency_keys k.fresh) in
      subst (IsKept key print r) k.written (record {
        row = record {
          fingerprint = print;
          transaction_id = some id.value;
          response = some k.receipt;
        };
        found =
            lookup-set_response key id.value (some k.receipt) k.middle.idempotency_keys
              {row = claim_row print} claimed;
        matches = refl;
        response = k.result;
      })

  Runs-IsKept :
      (amount : ℤ) (currency : Currency) (key print : String) {r : Option TransferReceipt}
      {db' : Db}
      → Runs platform now
          (journal_of id input amount currency)
          currency
          input.owner_id
          (some key)
          print
          db
          r
          db'
      → IsKept key print r db'
  Runs-IsKept amount currency key print {r} (inl replayed) =
      subst (IsKept key print r) replayed.unchanged (record {
        row = replayed.row;
        found = replayed.found;
        matches = replayed.matches;
        response = replayed.result;
      })
  Runs-IsKept amount currency key print (inr k) = Keyed-IsKept amount currency key print k

  -- A transfer that returned a receipt under a key, between accounts and with an id spelled as the
  -- database spells them, returns that receipt again, and writes nothing, at any later time and
  -- whatever else has been written, as long as the row of the key is the same.
  pub transfer-retry :
      {r : Option TransferReceipt} {db' : Db} {key : String} (later : ℕ) (other : TransactionId)
      (db2 : Db)
      → key_of input.idempotency_key ≡ some key
      → transfer platform now id input db ≡ (ok (ok r), db')
      → lookup key db2.idempotency_keys ≡ lookup key db'.idempotency_keys
      → transfer platform later other input db2 ≡ (ok (ok r), db2)
  transfer-retry {r} {db'} {key} later other db2 k h same =
      let s = transfer-Succeeds platform now id input db h in
      let print = fingerprint platform input in
      let kept =
        Runs-IsKept s.amount s.currency key print {r = r} {db' = db'}
          (rw k at (Succeeds-Runs platform now id input db spelled s)) in
      transfer-kept platform later other input db2 {row = kept.row} s.accepted_by k
        (same ∙ kept.found)
      ∙ rw (kept.matches, eq_self print, kept.response)
