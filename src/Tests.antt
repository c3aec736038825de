-- ===== src/Tests.antt =====
-- A ledger to try the services on, the runs of the code on it, and the instances of the theorems.
pub mod Domain
pub mod Ledger
pub mod Services
pub mod Interface
pub mod Web
pub mod Seed
pub mod Locking
use miniledger.Base.{
  lookup, negsuc, ℕ, ℤ, pos, negsuc, ◌+ℤ◌, neg_ℤ, to_string, is_numeral, read_nat, String, ◌≡◌,
  refl, Bool, true, false, Option, none, some, List, [], ◌∷◌, ok, err, ◌==◌, if◌then◌else◌,
}
use miniledger.Domain.Ids.{account_id, transaction_id}
use miniledger.Persistence.Store.{Db, TransferReceipt}
use miniledger.Persistence.Platform.{Platform}
use miniledger.Persistence.Genesis.{genesis}
use miniledger.Application.Transfers
use miniledger.Application.Transfers.{TransferInput}
use miniledger.Application.Reversals
use miniledger.Application.Accounts
use miniledger.Application.Audits
use miniledger.Kernel.Currency
use miniledger.Kernel.Money
use miniledger.Domain.Journal
use miniledger.Domain.Account.{open_user, is_system, is_owned_by}
use miniledger.Domain.Overdraft.{is_sufficient}
use miniledger.Domain.HashChain.{join, canonical, hash_posting, verify_from, verify_chain}
use miniledger.Persistence.Store.{fits_int8}
use miniledger.Persistence.Action.{
  ◌>>=◌, pure, throw, lift, gets, throw_if, modify, unless_missing, is_transaction_balanced,
  may_commit, with_transaction,
}
use miniledger.Persistence.Accounts.{
  to_domain, to_row, insert_account, save, find_by_id, all_to_domain, list_visible_to,
}
use miniledger.Persistence.Balances.{
  set_where, contains, distinct_from, insert_sorted, sort, lock_order, initialize, find_balance,
  update_balance, lock_row, lock_from, lock_for_update,
}
use miniledger.Persistence.Journals.{
  insert_transaction, to_posting_rows, check_row, insert_by_seq, order_by_seq, store_row,
  store_rows, insert_postings, append, find_transaction, has_reversal, append_event,
}
use miniledger.Persistence.Idempotency.{insert_key, claim, set_response, complete}
use miniledger.Persistence.Statements.{page}
use miniledger.Persistence.Audit.{
  postings_for_account, account_state, group_from, conservation_by_currency,
}
use miniledger.Application.Poster.{
  check_accounts, check_owner, check_required_owner, find_all, line_of, run_postings, update_all,
  receipt_postings, receipt_of, post,
}
use miniledger.Application.Statements

-- Whatever opens this runs the code.
code : Unit {0}
unfolding ◌>>=◌ pure throw lift gets throw_if modify unless_missing ◌+ℤ◌ neg_ℤ to_string is_numeral
    read_nat Currency.is_listed Currency.definition_of Currency.of Currency.equals Money.add
    Money.sum_from Money.sum Money.negate Money.is_zero Money.is_negative Journal.check_postings
    Journal.create Journal.transfer open_user is_system is_owned_by is_sufficient join canonical
    hash_posting verify_from verify_chain fits_int8 is_transaction_balanced may_commit
    with_transaction to_domain to_row insert_account save find_by_id all_to_domain list_visible_to
    set_where contains distinct_from insert_sorted sort lock_order initialize find_balance
    update_balance lock_row lock_from lock_for_update insert_transaction to_posting_rows check_row
    insert_by_seq order_by_seq store_row store_rows insert_postings append find_transaction
    has_reversal append_event insert_key claim set_response complete page postings_for_account
    account_state group_from conservation_by_currency check_accounts check_owner
    check_required_owner find_all line_of run_postings update_all receipt_postings receipt_of post
    Transfers.parse_amount Transfers.key_of Transfers.fingerprint Transfers.run Transfers.transfer
    Reversals.opposite_legs Reversals.post_reversal Reversals.reverse Accounts.store_account
    Accounts.open_account Accounts.get_visible Accounts.list_visible Accounts.balance_of
    Statements.paginate Statements.for_account Audits.sum_from Audits.insert_total
    Audits.sort_totals Audits.conservation_report Audits.report Audits.verify_account
    Audits.verify_conservation
code = tt

-- A digest that is the text itself, and a UUID reader that knows one other spelling.
abbrev try_platform : Platform
try_platform = record {
  sha256 = λ s. s;
  uuid = λ s. if s == "ALICE" then some "alice" else if s == "" then none else some s;
  error_fields = λ _. none;
}

abbrev start : Db
start = genesis 0 "usd" "eur" "jpy"

with_alice : Db
unfolding code
with_alice =
    (Accounts.open_account try_platform 1 (account_id "alice")
      (record { currency = "USD"; owner_id = "ann" }) start).1

with_bob : Db
unfolding code with_alice
with_bob =
    (Accounts.open_account try_platform 2 (account_id "bob")
      (record { currency = "USD"; owner_id = "ben" }) with_alice).1

abbrev request : String → String → String → String → Option String → TransferInput
request from to amount owner_id key = record {
  from = from;
  to = to;
  amount = amount;
  currency = "USD";
  owner_id = owner_id;
  idempotency_key = key;
}

pub funded : Db
unfolding code with_bob
funded =
    (Transfers.transfer try_platform 3 (transaction_id "t1")
      (request "usd" "alice" "100" "ann" (some "k1")) with_bob).1

pub moved : Db
unfolding code funded
moved =
    (Transfers.transfer try_platform 4 (transaction_id "t2") (request "alice" "bob" "30" "ann" none)
      funded).1

stolen : Db
unfolding code funded
stolen =
    (Transfers.transfer try_platform 4 (transaction_id "t2")
      (request "ALICE" "bob" "300" "ben" none) funded).1

-- An account opened, funded from `@world` and moved from has the balance and the audit of its history.
moved_audit :
    (Audits.verify_account try_platform "alice" moved).0
    ≡ ok (
        ok (record {
          account_id = "alice";
          posting_count = 2;
          balance = pos 70;
          chain_valid = true;
          head_matches = true;
          reconciled = true;
          broken_at_seq = none;
        }))
unfolding code moved
moved_audit = refl

-- Another caller overdraws the account by spelling its id in upper case: neither the owner nor the
-- floor is looked up.
stolen_overdraws :
    lookup "alice" stolen.balances
    ≡ some
        (record { balance = negsuc 199; chain_hash = some "|t1|alice|100|100|t2|ALICE|-300|-200" })
unfolding code stolen
stolen_overdraws = refl
