-- ===== src/Domain/Journal.antt =====
-- src/ledger/domain/posting.ts and journal-transaction.ts. The outer result of a constructor is
-- what it throws, the inner one what it returns.
pub mod Laws
use miniledger.Base.{List, [], ◌∷◌, map, Result, ok, err, if◌then◌else◌}
use miniledger.Kernel.Currency
use miniledger.Kernel.Currency.{Currency}
use miniledger.Kernel.Money
use miniledger.Kernel.Money.{Money, CurrencyMismatchError}
use miniledger.Domain.Ids.{AccountId, TransactionId}

pub record Posting : Type 0 where
  pub account_id : AccountId
  pub amount : Money

abbrev pub posting : AccountId → Money → Posting
posting account_id amount = record { account_id = account_id; amount = amount }

pub data JournalError : Type 0 where
  empty currency_mismatch zero_amount_posting unbalanced : JournalError

pub record JournalTransaction : Type 0 where
  pub id : TransactionId
  pub currency : Currency
  pub postings : List Posting

-- The loop of `create` over the postings.
unfoldable pub check_postings : Currency → List Posting → Result (Unit {0}) JournalError
check_postings currency [] = ok tt
check_postings currency (p ∷ ps) =
    let rest = check_postings currency ps in
    if Currency.equals p.amount.currency currency
    then (if Money.is_zero p.amount then err zero_amount_posting else rest)
    else err currency_mismatch

abbrev balanced :
    TransactionId → Currency → List Posting → Money → Result JournalTransaction JournalError
balanced id currency postings total =
    if Money.is_zero total
    then ok (record { id = id; currency = currency; postings = postings })
    else err unbalanced

abbrev check_total :
    TransactionId
    → Currency
    → List Posting
    → Result Money CurrencyMismatchError
    → Result (Result JournalTransaction JournalError) CurrencyMismatchError
check_total id currency postings (ok total) = ok (balanced id currency postings total)
check_total id currency postings (err e) = err e

abbrev after_check :
    TransactionId
    → Currency
    → List Posting
    → Result (Unit {0}) JournalError
    → Result (Result JournalTransaction JournalError) CurrencyMismatchError
after_check id currency postings (err e) = ok (err e)
after_check id currency postings (ok _) =
    check_total id currency postings (Money.sum (map (λ p. p.amount) postings) currency)

-- `JournalTransaction.create`, with the generated id
unfoldable pub create :
    TransactionId
    → List Posting
    → Result (Result JournalTransaction JournalError) CurrencyMismatchError
create id [] = ok (err empty)
create id (first ∷ rest) =
    after_check id first.amount.currency (first ∷ rest)
      (check_postings first.amount.currency (first ∷ rest))

-- `JournalTransaction.transfer`
unfoldable pub transfer :
    TransactionId
    → AccountId
    → AccountId
    → Money
    → Result (Result JournalTransaction JournalError) CurrencyMismatchError
transfer id from to amount = create id (posting from (Money.negate amount) ∷ posting to amount ∷ [])

unfoldable pub deposit :
    TransactionId
    → AccountId
    → AccountId
    → Money
    → Result (Result JournalTransaction JournalError) CurrencyMismatchError
deposit id world account amount = transfer id world account amount

unfoldable pub withdrawal :
    TransactionId
    → AccountId
    → AccountId
    → Money
    → Result (Result JournalTransaction JournalError) CurrencyMismatchError
withdrawal id account world amount = transfer id account world amount
