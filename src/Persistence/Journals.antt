-- ===== src/Persistence/Journals.antt =====
-- src/ledger/infrastructure/persistence/drizzle-journal-transactions.repository.ts and
-- drizzle-outbox.repository.ts
pub mod Laws
use miniledger.Base.{
  ℕ, suc, ℤ, pos, eq_ℤ, String, Bool, true, false, not, ◌&&◌, ◌||◌, Option, none, some, List, [],
  ◌∷◌, ◌++◌, ◌+◌, Result, ok, err, map, length, find, select, every, ◌==◌, nat_eq, leb,
  if◌then◌else◌, option_eq,
}
use miniledger.Kernel.Currency.{Currency}
use miniledger.Domain.Ids.{TransactionId}
use miniledger.Domain.Journal.{Posting, JournalTransaction}
use miniledger.Persistence.Failure.{
  Failure, database_error, unique_violation, not_null_violation, foreign_key_violation,
  check_violation, out_of_range, invalid_text, lines_mismatch,
}
use miniledger.Persistence.Store.{
  Db, TransactionRow, PostingRow, AccountRow, OutboxRow, TransferReceipt, fits_int8,
}
use miniledger.Persistence.Platform.{Platform, parse_uuid}
use miniledger.Persistence.Action.{
  Action, pure, throw, gets, lift, throw_if, modify, unless_missing, ◌>>=◌, ◌>>◌,
}
use miniledger.Persistence.Balances.{is_some}

pub record PostingLine : Type 0 where
  pub balance_after : ℤ
  pub prev_hash : Option String
  pub hash : String

pub record OriginalPosting : Type 0 where
  pub account_id : String
  pub amount : ℤ

pub record OriginalTransaction : Type 0 where
  pub currency : String
  pub postings : List OriginalPosting

abbrev pub reverses_key : String
reverses_key = "journal_transactions_reverses_transaction_id_key"

-- A foreign key or unique column that may be NULL.
abbrev absent_or : (String → Bool) → Option String → Bool
absent_or p none = true
absent_or p (some s) = p s

abbrev pub has_transaction : List TransactionRow → String → Bool
has_transaction rows id = is_some (find (λ r. r.id == id) rows)

abbrev pub has_reversal_of : List TransactionRow → String → Bool
has_reversal_of rows id = is_some (find (λ r. option_eq r.reverses_transaction_id (some id)) rows)

-- An insert into `journal_transactions`.
unfoldable pub insert_transaction : TransactionRow → Action (Unit {0})
insert_transaction row = do
  rows ← gets (λ s. s.transactions)
  throw_if (has_transaction rows row.id)
      (database_error (unique_violation "journal_transactions_pkey"))
  throw_if (not (absent_or (λ id. not (has_reversal_of rows id)) row.reverses_transaction_id))
      (database_error (unique_violation reverses_key))
  throw_if (not (absent_or (has_transaction rows) row.reverses_transaction_id))
      (database_error foreign_key_violation)
  modify (λ s. record s { transactions = s.transactions ++ row ∷ [] })

abbrev pub posting_row : String → ℕ → ℕ → Posting → PostingLine → PostingRow
posting_row id now seq p line = record {
  seq = seq;
  transaction_id = id;
  account_id = p.account_id.value;
  amount = p.amount.amount;
  balance_after = line.balance_after;
  prev_hash = line.prev_hash;
  hash = line.hash;
  created_at = now;
}

-- `toPostingRows`; the identity column counts on from `seq`. `append` has compared the lengths.
unfoldable pub to_posting_rows : String → ℕ → ℕ → List Posting → List PostingLine → List PostingRow
to_posting_rows id now seq [] lines = []
to_posting_rows id now seq (p ∷ ps) [] = []
to_posting_rows id now seq (p ∷ ps) (line ∷ lines) =
    posting_row id now seq p line ∷ to_posting_rows id now (suc seq) ps lines

abbrev pub has_account : List AccountRow → String → Bool
has_account rows id = is_some (find (λ r. r.id == id) rows)

-- The constraints of an inserted row of `postings`, whose account is `key`.
unfoldable pub check_row : List AccountRow → String → PostingRow → Result PostingRow Failure
check_row accounts key row =
    if not (fits_int8 row.amount && fits_int8 row.balance_after)
    then err (database_error out_of_range)
    else if eq_ℤ row.amount (pos 0)
    then err (database_error check_violation)
    else if has_account accounts key
    then ok (record row { account_id = key })
    else err (database_error foreign_key_violation)

abbrev pub with_row :
    Result PostingRow Failure → Result (List PostingRow) Failure → Result (List PostingRow) Failure
with_row (err e) rows = err e
with_row (ok row) (err e) = err e
with_row (ok row) (ok rows) = ok (row ∷ rows)

-- `order by seq asc`
unfoldable pub insert_by_seq : PostingRow → List PostingRow → List PostingRow
insert_by_seq p [] = p ∷ []
insert_by_seq p (q ∷ qs) =
    let rest = insert_by_seq p qs in if leb p.seq q.seq then p ∷ q ∷ qs else q ∷ rest

unfoldable pub order_by_seq : List PostingRow → List PostingRow
order_by_seq [] = []
order_by_seq (p ∷ ps) = insert_by_seq p (order_by_seq ps)

abbrev pub original_posting : PostingRow → OriginalPosting
original_posting row = record { account_id = row.account_id; amount = row.amount }

abbrev pub original_of : List PostingRow → Option TransactionRow → Option OriginalTransaction
original_of postings none = none
original_of postings (some row) = some (record {
  currency = row.currency;
  postings =
      map original_posting (order_by_seq (select (λ p. p.transaction_id == row.id) postings));
})

module _ (platform : Platform) where
  unfoldable pub store_row : List AccountRow → PostingRow → Result PostingRow Failure
  store_row accounts row = elim (platform.uuid row.account_id) [
    | none ↦ err (database_error invalid_text)
    | some key ↦ check_row accounts key row
  ]

  -- The rows of one insert, as they are stored, or the first violation.
  unfoldable pub store_rows : List AccountRow → List PostingRow → Result (List PostingRow) Failure
  store_rows accounts [] = ok []
  store_rows accounts (row ∷ rows) = with_row (store_row accounts row) (store_rows accounts rows)

  unfoldable pub insert_postings : List PostingRow → Action (Unit {0})
  insert_postings rows = do
    accounts ← gets (λ s. s.accounts)
    stored ← lift (store_rows accounts rows)
    modify
        (λ s. record s { postings = s.postings ++ stored; next_seq = s.next_seq + length stored })

  abbrev pub parse_optional : Option String → Action (Option String)
  parse_optional none = pure none
  parse_optional (some s) = do id ← parse_uuid platform s; pure (some id)

  -- `append`, at a time
  unfoldable pub append :
      ℕ → JournalTransaction → List PostingLine → Option String → Action (Unit {0})
  append now journal lines reverses = do
    throw_if (not (nat_eq (length lines) (length journal.postings))) lines_mismatch
    id ← parse_uuid platform journal.id.value
    currency ← unless_missing journal.currency.code (database_error not_null_violation)
    reversed ← parse_optional reverses
    insert_transaction (record { id = id; currency = currency; reverses_transaction_id = reversed })
    seq ← gets (λ s. s.next_seq)
    insert_postings (to_posting_rows id now seq journal.postings lines)

  -- `findById`
  unfoldable pub find_transaction : String → Action (Option OriginalTransaction)
  find_transaction id = do
    key ← parse_uuid platform id
    gets (λ s. original_of s.postings (find (λ r. r.id == key) s.transactions))

  -- `hasReversal`
  unfoldable pub has_reversal : String → Action Bool
  has_reversal id = do key ← parse_uuid platform id; gets (λ s. has_reversal_of s.transactions key)

-- `append` of the outbox
unfoldable pub append_event : String → TransferReceipt → Action (Unit {0})
append_event type payload =
    modify (λ s. record s { outbox = s.outbox ++ record { type = type; payload = payload } ∷ [] })
