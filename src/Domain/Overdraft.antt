-- ===== src/Domain/Overdraft.antt =====
-- src/ledger/domain/overdraft.ts
use miniledger.Base.{ℤ, leb_ℤ, Bool, true, Option, none, some, Result, ok, err}
use miniledger.Kernel.Money
use miniledger.Kernel.Money.{Money, CurrencyMismatchError}

abbrev at_least : ℤ → Result Money CurrencyMismatchError → Result Bool CurrencyMismatchError
at_least floor (ok m) = ok (leb_ℤ floor m.amount)
at_least floor (err e) = err e

-- `isSufficient`; `null` as a floor is `none`
unfoldable pub is_sufficient : Money → Money → Option ℤ → Result Bool CurrencyMismatchError
is_sufficient current delta none = ok true
is_sufficient current delta (some floor) = at_least floor (Money.add current delta)
