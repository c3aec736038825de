-- ===== src/Domain/Ids.antt =====
-- src/ledger/domain/account-id.ts and transaction-id.ts. `randomUUID` is not the program's: where
-- the source generates an id, the model takes it as an argument.
use miniledger.Base.{String, Bool, ◌==◌}

pub record AccountId : Type 0 where
  pub value : String

abbrev pub account_id : String → AccountId
account_id value = record { value = value }

unfoldable pub account_id_equals : AccountId → AccountId → Bool
account_id_equals a b = a.value == b.value

pub record TransactionId : Type 0 where
  pub value : String

abbrev pub transaction_id : String → TransactionId
transaction_id value = record { value = value }

unfoldable pub transaction_id_equals : TransactionId → TransactionId → Bool
transaction_id_equals a b = a.value == b.value
