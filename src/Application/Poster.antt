-- ===== src/Application/Poster.antt =====
-- src/ledger/application/ledger-poster.ts, call by call
pub mod Running
pub mod Lookups
pub mod Effect
use miniledger.Base.{
  ℕ, ℤ, ◌+ℤ◌, to_string, String, Bool, true, false, not, ◌&&◌, Option, none, some, List, [], ◌∷◌,
  map, Map, lookup, insert, Result, ok, err, if◌then◌else◌,
}
use miniledger.Kernel.Currency
use miniledger.Kernel.Currency.{Currency}
use miniledger.Kernel.Money
use miniledger.Kernel.Money.{CurrencyMismatchError}
use miniledger.Domain.Ids.{AccountId, account_id}
use miniledger.Domain.Account.{Account, is_system, is_owned_by}
use miniledger.Domain.Journal.{Posting, JournalTransaction}
use miniledger.Domain.Overdraft.{is_sufficient}
use miniledger.Domain.HashChain.{hash_posting}
use miniledger.Persistence.Failure.{
  Failure, ledger_posting_failure, currency_mismatch_error, unknown_account,
  account_currency_mismatch, not_account_owner, insufficient_funds, PostingError,
}
use miniledger.Persistence.Store.{Db, LockedBalance, PostingReceipt, TransferReceipt}
use miniledger.Persistence.Platform.{Platform}
use miniledger.Persistence.Action.{Action, pure, lift, throw, ◌>>=◌, ◌>>◌}
use miniledger.Persistence.Accounts.{find_by_id}
use miniledger.Persistence.Balances.{lock_for_update, update_balance}
use miniledger.Persistence.Journals.{PostingLine, append, append_event}

pub record PostOptions : Type 0 where
  pub require_owner : Option String
  pub event_type : String
  pub reverses_transaction_id : Option String

-- `floors` and `byId`
pub record Involved : Type 0 where
  pub floors : Map (Option ℤ)
  pub by_id : Map Account

abbrev pub nobody : Involved
nobody = record { floors = []; by_id = [] }

abbrev pub involve : Account → Involved → Involved
involve a maps = record {
  floors = insert a.id.value a.overdraft_floor maps.floors;
  by_id = insert a.id.value a maps.by_id;
}

-- The loop over the accounts that were found.
unfoldable pub check_accounts :
    Currency → List (Option Account) → Involved → Result Involved Failure
check_accounts currency [] maps = ok maps
check_accounts currency (none ∷ accounts) maps =
    err (ledger_posting_failure PostingError.unknown_account)
check_accounts currency (some a ∷ accounts) maps =
    let rest = check_accounts currency accounts (involve a maps) in
    if Currency.equals a.currency currency
    then rest
    else err (ledger_posting_failure PostingError.account_currency_mismatch)

-- `source && !source.isSystem() && !source.isOwnedBy(owner)`
abbrev pub is_foreign : String → Option Account → Bool
is_foreign owner none = false
is_foreign owner (some source) = not (is_system source) && not (is_owned_by source owner)

-- The loop over the debits, when an owner is required.
unfoldable pub check_owner : String → Map Account → List Posting → Result (Unit {0}) Failure
check_owner owner by_id [] = ok tt
check_owner owner by_id (p ∷ ps) =
    let rest = check_owner owner by_id ps in
    if Money.is_negative p.amount && is_foreign owner (lookup p.account_id.value by_id)
    then err (ledger_posting_failure PostingError.not_account_owner)
    else rest

unfoldable pub check_required_owner :
    Option String → Map Account → List Posting → Result (Unit {0}) Failure
check_required_owner none by_id ps = ok tt
check_required_owner (some owner) by_id ps = check_owner owner by_id ps

-- `floors.get(key) ?? null`
abbrev pub floor_of : Option (Option ℤ) → Option ℤ
floor_of none = none
floor_of (some floor) = floor

-- Whether the loop goes on: the overdraft test, which may throw.
abbrev pub sufficient : Result Bool CurrencyMismatchError → Result (Unit {0}) Failure
sufficient (err e) = err (currency_mismatch_error e)
sufficient (ok true) = ok tt
sufficient (ok false) = err (ledger_posting_failure PostingError.insufficient_funds)

abbrev pub Posted : Type 0
Posted = List PostingLine × Map LockedBalance

abbrev pub push_line : PostingLine → Result Posted Failure → Result Posted Failure
push_line line (err e) = err e
push_line line (ok (lines, running)) = ok (line ∷ lines, running)

-- `{ balance: balanceAfter, chainHash: hash }`
abbrev pub state_after : PostingLine → LockedBalance
state_after line = record { balance = line.balance_after; chain_hash = some line.hash }

module _ (platform : Platform) where
  -- `Promise.all` of the lookups
  unfoldable pub find_all : List AccountId → Action (List (Option Account))
  find_all [] = pure []
  find_all (id ∷ ids) = do a ← find_by_id platform id; rest ← find_all ids; pure (a ∷ rest)

  -- The line that a posting adds, and the state that its account is in after it.
  unfoldable pub line_of : String → Posting → LockedBalance → PostingLine
  line_of transaction_id p state =
      let balance_after = state.balance +ℤ p.amount.amount in
      record {
        balance_after = balance_after;
        prev_hash = state.chain_hash;
        hash = hash_posting platform.sha256 state.chain_hash (record {
          transaction_id = transaction_id;
          account_id = p.account_id.value;
          amount = p.amount.amount;
          balance_after = balance_after;
        });
      }

  module _ (currency : Currency) (floors : Map (Option ℤ)) (transaction_id : String) where
    -- The loop over the postings, which makes the lines and moves the running balances.
    unfoldable pub run_postings : List Posting → Map LockedBalance → Result Posted Failure
    run_postings [] running = ok ([], running)
    run_postings (p ∷ ps) running = elim (lookup p.account_id.value running) [
      | none ↦ err (ledger_posting_failure PostingError.unknown_account)
      | some state ↦
          let line = line_of transaction_id p state in
          elim (sufficient (
            is_sufficient (Money.of state.balance currency) p.amount
              (floor_of (lookup p.account_id.value floors)))) [
                | err e ↦ err e
                | ok _ ↦
                    push_line line
                      (run_postings ps (insert p.account_id.value (state_after line) running))
              ]
    ]

  -- The loop of updates over the running balances.
  unfoldable pub update_all : Map LockedBalance → Action (Unit {0})
  update_all [] = pure tt
  update_all ((key, state) ∷ running) = do
    update_balance platform (account_id key) state.balance state.chain_hash
    update_all running

  -- The postings of the receipt: the amounts with the balances of the lines.
  unfoldable pub receipt_postings : List Posting → List PostingLine → List PostingReceipt
  receipt_postings [] lines = []
  receipt_postings (p ∷ ps) [] = []
  receipt_postings (p ∷ ps) (line ∷ lines) =
      record {
        account_id = p.account_id.value;
        amount = to_string p.amount.amount;
        balance_after = to_string line.balance_after;
      }
      ∷ receipt_postings ps lines

  unfoldable pub receipt_of : JournalTransaction → Currency → List PostingLine → TransferReceipt
  receipt_of journal currency lines = record {
    id = journal.id.value;
    currency = currency.code;
    postings = receipt_postings journal.postings lines;
  }

  -- `post`, at a time
  unfoldable pub post : ℕ → JournalTransaction → Currency → PostOptions → Action TransferReceipt
  post now journal currency options = do
    let involved = map (λ p. p.account_id) journal.postings
    accounts ← find_all involved
    maps ← lift (check_accounts currency accounts nobody)
    lift (check_required_owner options.require_owner maps.by_id journal.postings)
    locked ← lock_for_update platform involved
    posted ← lift (run_postings currency maps.floors journal.id.value journal.postings locked)
    append platform now journal posted.0 options.reverses_transaction_id
    update_all posted.1
    let receipt = receipt_of journal currency posted.0
    append_event options.event_type receipt
    pure receipt
