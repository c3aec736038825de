-- ===== src/Tests/Services.antt =====
-- The theorems on single services, on the tables that the tests run.
use miniledger.Base.{pos, ◌≡◌, refl, ◌⊎◌, some, none, [], ◌∷◌, ok, err, nat_to_string}
use miniledger.Kernel.Currency.{Currency}
use miniledger.Domain.Ids.{transaction_id}
use miniledger.Persistence.Store.{Db}
use miniledger.Persistence.Action.{with_transaction}
use miniledger.Application.Poster.{post}
use miniledger.Application.Statements.{Statement, for_account}
use miniledger.Application.Reversals.{reverse, already_reversed}
use miniledger.Application.Transfers.{parse_amount, transfer}
use miniledger.Application.Transfers.Amounts.{parse_amount-nat_to_string}
use miniledger.Application.Transfers.Cases.{journal_of}
use miniledger.Application.Transfers.Effect.{transfer_options}
use miniledger.Ledger.Authorization.{IsPermitted, transfer-IsPermitted}
use miniledger.Ledger.Reachable.{transfers}
use miniledger.Ledger.History.{Later, at_once, next}
use miniledger.Ledger.SecondReversals.{reverse-reverse}
use miniledger.Ledger.Commits.{post-with_transaction}
use miniledger.Ledger.Statements.{Covers, for_account-Covers}
use miniledger.Tests.{code, try_platform, funded, moved}
use miniledger.Tests.Ledger.{
  moving, moved_receipt, moved-IsLedger, funded-IsLedger, reversed, reversed_receipt,
}

abbrev usd : Currency
usd = record { code = some "USD"; minor_unit_scale = some 2 }

transfer-IsPermitted_example : (funded ≡ moved) ⊎ IsPermitted try_platform moving funded
unfolding code moved
transfer-IsPermitted_example =
    transfer-IsPermitted try_platform 4 (transaction_id "t2") moving funded {r = some moved_receipt}
      {db' = moved} (refl, refl, refl) refl

paid_again : Db
unfolding code reversed
paid_again = (transfer try_platform 6 (transaction_id "t4") moving reversed).1

paying_again : Later try_platform reversed paid_again
unfolding code paid_again
paying_again = next at_once (transfers 6 (transaction_id "t4") moving reversed (refl, refl, refl))

-- The same transaction once more, after the same payment has been made again.
reverse-reverse_example :
    reverse try_platform 7 (transaction_id "t5") "t2" paid_again
    ≡ (ok (err already_reversed), paid_again)
unfolding code moved reversed
reverse-reverse_example =
    reverse-reverse try_platform 5 (transaction_id "t3") "t2" moved moved-IsLedger refl
      {r = reversed_receipt} {db' = reversed} 7 (transaction_id "t5") "t2" refl paying_again refl

posted : Db
unfolding code funded
posted =
    (post try_platform 4 (journal_of (transaction_id "t2") moving (pos 30) usd) usd
      (transfer_options "ann") funded).1

post-with_transaction_example :
    with_transaction
      (post try_platform 4
        (journal_of (transaction_id "t2") moving (pos 30) usd)
        usd
        (transfer_options "ann"))
      funded
    ≡ (ok moved_receipt, posted)
unfolding code funded posted
post-with_transaction_example =
    post-with_transaction try_platform 4 (journal_of (transaction_id "t2") moving (pos 30) usd) usd
      (transfer_options "ann") funded {receipt = moved_receipt} {db' = posted} funded-IsLedger refl
      (refl, (refl, tt)) refl refl

abbrev first_page : Statement
first_page = record {
  entries =
      record {
        seq = 2;
        transaction_id = "t1";
        amount = pos 100;
        balance_after = pos 100;
        created_at = 3;
      }
      ∷ [];
  next_cursor = none;
}

first_page_read : (for_account try_platform "alice" "ann" 1 none funded).0 ≡ ok (some first_page)
unfolding code funded
first_page_read = refl

for_account-Covers_example :
    Covers try_platform "alice" none funded first_page
      (for_account try_platform "alice" "ann" 1 none funded).1
for_account-Covers_example =
    for_account-Covers try_platform "alice" "ann" 0 none funded {statement = first_page}
      funded-IsLedger refl first_page_read

parse_amount-nat_to_string_example : parse_amount (nat_to_string 1204) ≡ some (pos 1204)
parse_amount-nat_to_string_example = parse_amount-nat_to_string 1204
