-- ===== src/Application/Accounts.antt =====
-- src/ledger/application/accounts.service.ts
use miniledger.Base.{
  ℕ, ℤ, pos, String, ◌||◌, Option, none, some, List, Result, ok, err, if◌then◌else◌,
}
use miniledger.Kernel.Currency
use miniledger.Kernel.Currency.{Currency, CurrencyError}
use miniledger.Domain.Ids.{AccountId, account_id}
use miniledger.Domain.Account.{Account, open_user, is_system, is_owned_by}
use miniledger.Persistence.Platform.{Platform}
use miniledger.Persistence.Action.{Action, pure, with_transaction, ◌>>=◌, ◌>>◌}
use miniledger.Persistence.Accounts.{save, find_by_id, list_visible_to}
use miniledger.Persistence.Balances.{initialize, find_balance}

pub data OpenAccountError : Type 0 where
  unknown_currency : OpenAccountError

pub record OpenAccountInput : Type 0 where
  pub currency : String
  pub owner_id : String

abbrev pub visible_to : String → Option Account → Option Account
visible_to subject none = none
visible_to subject (some a) = if is_system a || is_owned_by a subject then some a else none

abbrev pub balance_or_zero : Option ℤ → ℤ
balance_or_zero none = pos 0
balance_or_zero (some b) = b

module _ (platform : Platform) where
  unfoldable pub store_account : Account → Action (Unit {0})
  store_account a = do save platform a; initialize platform a.id

  abbrev pub open_in :
      ℕ
      → AccountId
      → OpenAccountInput
      → Result Currency CurrencyError
      → Action (Result Account OpenAccountError)
  open_in now id input (err _) = pure (err unknown_currency)
  open_in now id input (ok currency) = do
    let account = open_user id currency input.owner_id now
    with_transaction (store_account account)
    pure (ok account)

  -- `open`, at a time and with the generated id
  unfoldable pub open_account :
      ℕ → AccountId → OpenAccountInput → Action (Result Account OpenAccountError)
  open_account now id input = open_in now id input (Currency.of input.currency)

  unfoldable pub get_visible : String → String → Action (Option Account)
  get_visible id subject = do
    account ← find_by_id platform (account_id id)
    pure (visible_to subject account)

  unfoldable pub list_visible : String → Action (List Account)
  list_visible subject = list_visible_to subject

  unfoldable pub balance_of : AccountId → Action ℤ
  balance_of id = do balance ← find_balance platform id; pure (balance_or_zero balance)
