-- ===== src/Kernel/Money.antt =====
-- src/shared/kernel/money.ts. A thrown `CurrencyMismatchError` is the error of a result.
pub mod Laws
use miniledger.Base.{
  ℤ, pos, ◌+ℤ◌, neg_ℤ, eq_ℤ, ltb_ℤ, Bool, ◌&&◌, List, [], ◌∷◌, Result, ok, err, if◌then◌else◌,
}
use miniledger.Kernel.Currency
use miniledger.Kernel.Currency.{Currency}

pub record CurrencyMismatchError : Type 0 where
  pub left : Currency
  pub right : Currency

pub record Money : Type 0 where
  pub amount : ℤ
  pub currency : Currency

abbrev pub of : ℤ → Currency → Money
of amount currency = record { amount = amount; currency = currency }

abbrev pub zero_of : Currency → Money
zero_of currency = record { amount = pos 0; currency = currency }

-- `add`, with `assertSameCurrency`
unfoldable pub add : Money → Money → Result Money CurrencyMismatchError
add a b =
    if Currency.equals a.currency b.currency
    then ok (record { amount = a.amount +ℤ b.amount; currency = a.currency })
    else err (record { left = a.currency; right = b.currency })

abbrev add_to : Result Money CurrencyMismatchError → Money → Result Money CurrencyMismatchError
add_to (ok total) money = add total money
add_to (err e) money = err e

-- the `reduce` of `sum`
unfoldable pub sum_from :
    Result Money CurrencyMismatchError → List Money → Result Money CurrencyMismatchError
sum_from total [] = total
sum_from total (money ∷ monies) = sum_from (add_to total money) monies

-- `Money.sum`
unfoldable pub sum : List Money → Currency → Result Money CurrencyMismatchError
sum monies currency = sum_from (ok (zero_of currency)) monies

unfoldable pub negate : Money → Money
negate a = record { amount = neg_ℤ a.amount; currency = a.currency }

unfoldable pub is_zero : Money → Bool
is_zero a = eq_ℤ a.amount (pos 0)

unfoldable pub is_negative : Money → Bool
is_negative a = ltb_ℤ a.amount (pos 0)

unfoldable pub equals : Money → Money → Bool
equals a b = eq_ℤ a.amount b.amount && Currency.equals a.currency b.currency
