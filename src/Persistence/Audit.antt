-- ===== src/Persistence/Audit.antt =====
-- src/ledger/infrastructure/persistence/drizzle-audit.repository.ts. `AuditPosting` has the fields of
-- a posting row.
use miniledger.Base.{
  ℕ, ℤ, pos, ◌+ℤ◌, String, Option, none, some, List, [], ◌∷◌, map, find, select, Map, lookup,
  insert, ◌==◌,
}
use miniledger.Domain.Ids.{AccountId}
use miniledger.Persistence.Store.{TransactionRow, PostingRow, LockedBalance}
use miniledger.Persistence.Platform.{Platform, parse_uuid}
use miniledger.Persistence.Action.{Action, gets, ◌>>=◌}
use miniledger.Persistence.Journals.{order_by_seq}

pub record AuditPosting : Type 0 where
  pub seq : ℕ
  pub transaction_id : String
  pub account_id : String
  pub amount : ℤ
  pub balance_after : ℤ
  pub prev_hash : Option String
  pub hash : String

abbrev pub audit_posting : PostingRow → AuditPosting
audit_posting row = record {
  seq = row.seq;
  transaction_id = row.transaction_id;
  account_id = row.account_id;
  amount = row.amount;
  balance_after = row.balance_after;
  prev_hash = row.prev_hash;
  hash = row.hash;
}

module _ (platform : Platform) where
  -- `postingsForAccount`
  unfoldable pub postings_for_account : AccountId → Action (List AuditPosting)
  postings_for_account id = do
    key ← parse_uuid platform id.value
    gets (λ s. map audit_posting (order_by_seq (select (λ row. row.account_id == key) s.postings)))

  -- `accountState`
  unfoldable pub account_state : AccountId → Action (Option LockedBalance)
  account_state id = do key ← parse_uuid platform id.value; gets (λ s. lookup key s.balances)

-- The currency that the inner join gives a posting.
abbrev pub currency_field : Option TransactionRow → Option String
currency_field none = none
currency_field (some row) = some row.currency

abbrev pub currency_of : List TransactionRow → String → Option String
currency_of transactions id = currency_field (find (λ r. r.id == id) transactions)

abbrev pub total_or_zero : Option ℤ → ℤ
total_or_zero none = pos 0
total_or_zero (some total) = total

-- One joined row in its group; a posting with no transaction is in none.
abbrev pub add_to_group : Option String → ℤ → Map ℤ → Map ℤ
add_to_group none amount groups = groups
add_to_group (some currency) amount groups =
    insert currency (total_or_zero (lookup currency groups) +ℤ amount) groups

unfoldable pub group_from : List TransactionRow → Map ℤ → List PostingRow → Map ℤ
group_from transactions groups [] = groups
group_from transactions groups (p ∷ ps) =
    group_from transactions
      (add_to_group (currency_of transactions p.transaction_id) p.amount groups) ps

-- `conservationByCurrency`
unfoldable pub conservation_by_currency : Action (Map ℤ)
conservation_by_currency = gets (λ s. group_from s.transactions [] s.postings)
