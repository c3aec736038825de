-- ===== src/Application/Transfers/Effect.antt =====
-- The unit of work of a transfer: replaying a kept receipt, or posting.
use miniledger.Base.{
  ℕ, ◌≡◌, sym, ap, ◌∙◌, ◌⊎◌, inl, inr, String, Option, none, some, [], ◌∷◌, ◌++◌, All, lookup, ok,
  ◌==◌, eq_iff, Bool-cases, Option-cases, ok-injective, some-eq-some,
}
use miniledger.Kernel.Currency.{Currency}
use miniledger.Domain.Journal.{JournalTransaction}
use miniledger.Persistence.Store.{Db, KeyRow, TransferReceipt}
use miniledger.Persistence.Platform.{Platform, IsCanonical}
use miniledger.Persistence.Action.{◌>>=◌, pure, throw, gets}
use miniledger.Persistence.Action.Laws.{
  bind-ok, throw_if-then, unless_missing-then, gets-then, modify-ok, pure-ok,
}
use miniledger.Persistence.Idempotency.{owned, taken, insert_key, claim, set_response, complete}
use miniledger.Application.Poster.{PostOptions}
use miniledger.Application.Poster.Effect.{Posts, post-Posts}
use miniledger.Application.Transfers.{run, run_claimed}

-- The row that a claim inserts.
abbrev pub claim_row : String → KeyRow
claim_row print = record { fingerprint = print; transaction_id = none; response = none }

abbrev pub with_claim : String → String → Db → Db
with_claim key print db = record db {
  idempotency_keys = db.idempotency_keys ++ (key, claim_row print) ∷ [];
}

pub claim-fresh :
    (key print : String) (db : Db)
    → lookup key db.idempotency_keys ≡ none
    → claim key print db ≡ (ok owned, with_claim key print db)
unfolding claim insert_key ◌>>=◌ gets pure
claim-fresh key print db h = rw h

pub claim-taken :
    (key print : String) (db : Db) {row : KeyRow}
    → lookup key db.idempotency_keys ≡ some row
    → claim key print db ≡ (ok (taken row.fingerprint row.response), db)
unfolding claim insert_key ◌>>=◌ gets pure
claim-taken key print db h = rw (h, h)

abbrev pub transfer_options : String → PostOptions
transfer_options owner_id = record {
  require_owner = some owner_id;
  event_type = "transfer.posted";
  reverses_transaction_id = none;
}

module _ (platform : Platform) where
  complete-ok :
      (key id : String) (receipt : TransferReceipt) (db : Db) {db' : Db}
      → IsCanonical platform id
      → complete platform key id (some receipt) db ≡ (ok tt, db')
      → record db { idempotency_keys = set_response key id (some receipt) db.idempotency_keys }
        ≡ db'
  unfolding complete
  complete-ok key id receipt db c h =
      let (t, read, h1) = unless_missing-then _ _ _ db h in
      let (known, h2) = throw_if-then _ _ _ db (gets-then _ _ db h1) in
      rw (some-eq-some (sym c ∙ read)) (modify-ok _ db h2)

  module _ (now : ℕ) (journal : JournalTransaction) (currency : Currency) (owner_id : String) where
    -- A fresh key: posted, and the receipt kept under it.
    pub record Keyed (key print : String) (db : Db) (r : Option TransferReceipt) (db' : Db)
        : Type 0 where
      pub fresh : lookup key db.idempotency_keys ≡ none
      pub receipt : TransferReceipt
      pub middle : Db
      pub posts :
          Posts platform now journal currency
            (transfer_options owner_id)
            (with_claim key print db)
            receipt
            middle
      pub result : some receipt ≡ r
      pub written :
          record middle {
            idempotency_keys =
                set_response key journal.id.value (some receipt) middle.idempotency_keys;
          }
          ≡ db'

    -- No key: posted.
    pub record Unkeyed (db : Db) (r : Option TransferReceipt) (db' : Db) : Type 0 where
      pub receipt : TransferReceipt
      pub posts : Posts platform now journal currency (transfer_options owner_id) db receipt db'
      pub result : some receipt ≡ r

    -- A key with the same fingerprint: nothing is written.
    pub record Replayed (key print : String) (db : Db) (r : Option TransferReceipt) (db' : Db)
        : Type 0 where
      pub row : KeyRow
      pub found : lookup key db.idempotency_keys ≡ some row
      pub matches : row.fingerprint ≡ print
      pub result : row.response ≡ r
      pub unchanged : db ≡ db'

    abbrev pub Runs : Option String → String → Db → Option TransferReceipt → Db → Type 0
    Runs none print db r db' = Unkeyed db r db'
    Runs (some key) print db r db' = Replayed key print db r db' ⊎ Keyed key print db r db'

    replayed :
        (key print : String) (db : Db) (row : KeyRow) {r : Option TransferReceipt} {db' : Db}
        → lookup key db.idempotency_keys ≡ some row
        → run_claimed platform now journal currency owner_id key print
            (taken row.fingerprint row.response)
            db
          ≡ (ok r, db')
        → Replayed key print db r db'
    unfolding throw
    replayed key print db row found h = elim (Bool-cases (row.fingerprint == print)) [
      | inr other ↦ cc (rw other at h)
      | inl same ↦
          let (result, unchanged) = pure-ok row.response db (rw same at h) in
          record {
            row = row;
            found = found;
            matches = (eq_iff row.fingerprint print).0 same;
            result = result;
            unchanged = unchanged;
          }
    ]

    keyed :
        (key print : String) (db : Db) {r : Option TransferReceipt} {db' : Db}
        → IsCanonical platform journal.id.value
        → All (λ p. IsCanonical platform p.account_id.value) journal.postings
        → lookup key db.idempotency_keys ≡ none
        → run_claimed platform now journal currency owner_id key print owned
            (with_claim key print db)
          ≡ (ok r, db')
        → Keyed key print db r db'
    keyed key print db {r} {db'} cid c fresh h =
        let b = bind-ok _ _ h in
        let b1 = bind-ok _ _ b.rest in
        let (result, same) = pure-ok _ _ b1.rest in
        record {
          fresh = fresh;
          receipt = b.value;
          middle = b.middle;
          posts =
              post-Posts platform now journal currency (transfer_options owner_id)
                (with_claim key print db) cid c b.first;
          result = result;
          written = complete-ok key journal.id.value b.value b.middle cid (rw same at (b1.first));
        }

    pub run-Runs :
        (key : Option String) (print : String) (db : Db) {r : Option TransferReceipt} {db' : Db}
        → IsCanonical platform journal.id.value
        → All (λ p. IsCanonical platform p.account_id.value) journal.postings
        → run platform now journal currency owner_id key print db ≡ (ok r, db')
        → Runs key print db r db'
    unfolding run
    run-Runs none print db cid c h =
        let b = bind-ok _ _ h in
        let (result, same) = pure-ok _ _ b.rest in
        record {
          receipt = b.value;
          posts =
              post-Posts platform now journal currency (transfer_options owner_id) db cid c
                (rw same at (b.first));
          result = result;
        }
    run-Runs (some key) print db {r} {db'} cid c h =
        let b = bind-ok _ _ h in
        elim (Option-cases (lookup key db.idempotency_keys)) [
          | inl fresh ↦
              let e = sym (claim-fresh key print db fresh) ∙ b.first in
              let value : owned ≡ b.value = ok-injective (ap (λ p. p.0) e) in
              let middle : with_claim key print db ≡ b.middle = ap (λ p. p.1) e in
              inr (keyed key print db cid c fresh (rw (← value, ← middle) at (b.rest)))
          | inr (row, found) ↦
              let e = sym (claim-taken key print db {row = row} found) ∙ b.first in
              let value : taken row.fingerprint row.response ≡ b.value =
                ok-injective (ap (λ p. p.0) e) in
              let middle : db ≡ b.middle = ap (λ p. p.1) e in
              inl (replayed key print db row found (rw (← value, ← middle) at (b.rest)))
        ]
