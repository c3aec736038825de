-- ===== src/Persistence/Idempotency.antt =====
-- src/ledger/infrastructure/persistence/drizzle-idempotency.repository.ts
use miniledger.Base.{
  String, Bool, true, false, Option, none, some, [], ◌∷◌, ◌++◌, Map, lookup, ok, ◌==◌,
  if◌then◌else◌, not,
}
use miniledger.Persistence.Failure.{key_disappeared, database_error, foreign_key_violation}
use miniledger.Persistence.Store.{KeyRow, TransferReceipt}
use miniledger.Persistence.Platform.{Platform, parse_uuid}
use miniledger.Persistence.Action.{Action, pure, throw, gets, throw_if, modify, ◌>>=◌, ◌>>◌}
use miniledger.Persistence.Balances.{is_some}
use miniledger.Persistence.Journals.{has_transaction}

pub data IdempotencyClaim : Type 0 where
  owned : IdempotencyClaim
  taken : String → Option TransferReceipt → IdempotencyClaim

abbrev pub claimed : String → Option KeyRow → Action IdempotencyClaim
claimed key none = throw (key_disappeared key)
claimed key (some row) = pure (taken row.fingerprint row.response)

-- `insert … on conflict do nothing`: whether a row was inserted
unfoldable pub insert_key : String → String → Action Bool
insert_key key fingerprint db =
    if is_some (lookup key db.idempotency_keys) then (ok false, db) else (
      ok true,
      record db {
        idempotency_keys =
            db.idempotency_keys
            ++ (key, record { fingerprint = fingerprint; transaction_id = none; response = none })
              ∷ [];
      },
    )

-- `claim`
unfoldable pub claim : String → String → Action IdempotencyClaim
claim key fingerprint = do
  inserted ← insert_key key fingerprint
  row ← gets (λ s. lookup key s.idempotency_keys)
  if inserted then pure owned else claimed key row

unfoldable pub set_response : String → String → Option TransferReceipt → Map KeyRow → Map KeyRow
set_response key id response [] = []
set_response key id response ((k, row) ∷ m) =
    (k, if k == key then record row { transaction_id = some id; response = response } else row)
    ∷ set_response key id response m

module _ (platform : Platform) where
  -- `complete`: the transaction exists
  unfoldable pub complete : String → String → Option TransferReceipt → Action (Unit {0})
  complete key id response = do
    transaction ← parse_uuid platform id
    rows ← gets (λ s. s.transactions)
    throw_if (not (has_transaction rows transaction)) (database_error foreign_key_violation)
    modify (λ s. record s {
      idempotency_keys = set_response key transaction response s.idempotency_keys;
    })
