-- ===== src/Domain/Account.antt =====
-- src/ledger/domain/account.ts. A `Date` is a number.
use miniledger.Base.{ℕ, ℤ, pos, String, Bool, true, false, Option, none, some, option_eq}
use miniledger.Kernel.Currency.{Currency}
use miniledger.Domain.Ids.{AccountId}

pub data AccountType : Type 0 where
  user system : AccountType

pub record Account : Type 0 where
  pub id : AccountId
  pub type : AccountType
  pub currency : Currency
  pub overdraft_floor : Option ℤ
  pub handle : Option String
  pub owner_id : Option String
  pub created_at : ℕ

-- `Account.openUser`, with the generated id
unfoldable pub open_user : AccountId → Currency → String → ℕ → Account
open_user id currency owner_id created_at = record {
  id = id;
  type = user;
  currency = currency;
  overdraft_floor = some (pos 0);
  handle = none;
  owner_id = some owner_id;
  created_at = created_at;
}

abbrev pub type_is_system : AccountType → Bool
type_is_system user = false
type_is_system system = true

unfoldable pub is_system : Account → Bool
is_system a = type_is_system a.type

unfoldable pub is_overdraft_exempt : Account → Bool
is_overdraft_exempt a = elim a.overdraft_floor [ none ↦ true | some _ ↦ false ]

unfoldable pub is_owned_by : Account → String → Bool
is_owned_by a subject = option_eq a.owner_id (some subject)
