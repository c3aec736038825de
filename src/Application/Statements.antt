-- ===== src/Application/Statements.antt =====
-- src/ledger/application/statement.service.ts
use miniledger.Base.{
  ℕ, ◌+◌, String, Option, none, some, List, length, take, last, ltb, if◌then◌else◌,
}
use miniledger.Domain.Ids.{account_id}
use miniledger.Domain.Account.{Account}
use miniledger.Persistence.Platform.{Platform}
use miniledger.Persistence.Action.{Action, pure, ◌>>=◌}
use miniledger.Persistence.Accounts.{find_by_id}
use miniledger.Persistence.Statements.{StatementEntry, page}
use miniledger.Application.Accounts.{visible_to}

pub record Statement : Type 0 where
  pub entries : List StatementEntry
  pub next_cursor : Option ℕ

abbrev pub seq_field : Option StatementEntry → Option ℕ
seq_field none = none
seq_field (some e) = some e.seq

-- One row more than the page tells whether there is another page.
unfoldable pub paginate : ℕ → List StatementEntry → Statement
paginate limit rows =
    let entries = take limit rows in
    record {
      entries = entries;
      next_cursor = if ltb limit (length rows) then seq_field (last entries) else none;
    }

module _ (platform : Platform) where
  abbrev pub page_for : String → ℕ → Option ℕ → Option Account → Action (Option Statement)
  page_for id limit cursor none = pure none
  page_for id limit cursor (some _) = do
    rows ← page platform (account_id id) (limit + 1) cursor
    pure (some (paginate limit rows))

  -- `forAccount`: the account must be visible to the subject.
  unfoldable pub for_account : String → String → ℕ → Option ℕ → Action (Option Statement)
  for_account id subject limit cursor = do
    account ← find_by_id platform (account_id id)
    page_for id limit cursor (visible_to subject account)
