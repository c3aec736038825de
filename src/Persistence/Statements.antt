-- ===== src/Persistence/Statements.antt =====
-- src/ledger/infrastructure/persistence/drizzle-statement.repository.ts
use miniledger.Base.{
  ℕ, ℤ, String, Bool, true, Option, none, some, List, map, take, select, ltb, ◌&&◌, ◌==◌,
}
use miniledger.Domain.Ids.{AccountId}
use miniledger.Persistence.Store.{PostingRow}
use miniledger.Persistence.Platform.{Platform, parse_uuid}
use miniledger.Persistence.Action.{Action, gets, ◌>>=◌}
use miniledger.Persistence.Journals.{order_by_seq}

pub record StatementEntry : Type 0 where
  pub seq : ℕ
  pub transaction_id : String
  pub amount : ℤ
  pub balance_after : ℤ
  pub created_at : ℕ

abbrev pub entry_of : PostingRow → StatementEntry
entry_of row = record {
  seq = row.seq;
  transaction_id = row.transaction_id;
  amount = row.amount;
  balance_after = row.balance_after;
  created_at = row.created_at;
}

-- `gt(postings.seq, afterSeq)`, if there is a cursor
abbrev pub is_after : Option ℕ → PostingRow → Bool
is_after none row = true
is_after (some cursor) row = ltb cursor row.seq

module _ (platform : Platform) where
  unfoldable pub page : AccountId → ℕ → Option ℕ → Action (List StatementEntry)
  page id limit after_seq = do
    key ← parse_uuid platform id.value
    gets (λ s. map entry_of (
        take limit (
          order_by_seq
            (select (λ row. (row.account_id == key) && is_after after_seq row) s.postings))))
