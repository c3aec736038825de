-- ===== src/Persistence/Accounts.antt =====
-- src/ledger/infrastructure/persistence/drizzle-accounts.repository.ts
use miniledger.Base.{
  ℤ, String, Bool, true, false, ◌&&◌, ◌||◌, not, Option, none, some, List, [], ◌∷◌, ◌++◌, Result,
  ok, err, select, find, ◌==◌, option_eq,
}
use miniledger.Kernel.Currency
use miniledger.Kernel.Currency.{Currency, CurrencyError}
use miniledger.Domain.Ids.{AccountId, account_id}
use miniledger.Domain.Account.{Account, AccountType, user, system}
use miniledger.Persistence.Failure.{
  Failure, database_error, unique_violation, not_null_violation, out_of_range,
  unknown_stored_currency,
}
use miniledger.Persistence.Store.{AccountRow, fits_int8}
use miniledger.Persistence.Platform.{Platform, parse_uuid}
use miniledger.Persistence.Action.{
  Action, pure, throw, lift, gets, throw_if, modify, unless_missing, ◌>>=◌, ◌>>◌,
}

-- `toDomain`
unfoldable pub to_domain : AccountRow → Result Account Failure
to_domain row = elim (Currency.of row.currency) [
  | err _ ↦ err (unknown_stored_currency row.id)
  | ok currency ↦ ok (record {
    id = account_id row.id;
    type = row.type;
    currency = currency;
    overdraft_floor = row.overdraft_floor;
    handle = row.handle;
    owner_id = row.owner_id;
    created_at = row.created_at;
  })
]

-- `toRow`, with the id as the column has it and the currency that a row must have.
unfoldable pub to_row : Account → String → String → AccountRow
to_row a id currency = record {
  id = id;
  type = a.type;
  currency = currency;
  overdraft_floor = a.overdraft_floor;
  handle = a.handle;
  owner_id = a.owner_id;
  created_at = a.created_at;
}

abbrev pub floor_fits : Option ℤ → Bool
floor_fits none = true
floor_fits (some floor) = fits_int8 floor

abbrev pub same_handle : AccountRow → AccountRow → Bool
same_handle a b = elim a.handle [
  | none ↦ false
  | some handle ↦ option_eq b.handle (some handle) && (b.currency == a.currency)
]

abbrev pub unless_absent : Option AccountRow → String → Action (Unit {0})
unless_absent none constraint = pure tt
unless_absent (some _) constraint = throw (database_error (unique_violation constraint))

-- An insert into `accounts`, with its primary key and its partial unique index.
unfoldable pub insert_account : AccountRow → Action (Unit {0})
insert_account row = do
  throw_if (not (floor_fits row.overdraft_floor)) (database_error out_of_range)
  clash ← gets (λ s. find (λ r. r.id == row.id) s.accounts)
  unless_absent clash "accounts_pkey"
  named ← gets (λ s. find (same_handle row) s.accounts)
  unless_absent named "accounts_handle_currency_key"
  modify (λ s. record s { accounts = s.accounts ++ row ∷ [] })

-- The row, if any, through `toDomain`.
abbrev pub domain_of : Option AccountRow → Result (Option Account) Failure
domain_of none = ok none
domain_of (some row) = elim (to_domain row) [ ok a ↦ ok (some a) | err e ↦ err e ]

module _ (platform : Platform) where
  -- `save`: an `undefined` currency becomes the column's default, which is NULL.
  unfoldable pub save : Account → Action (Unit {0})
  save a = do
    id ← parse_uuid platform a.id.value
    currency ← unless_missing a.currency.code (database_error not_null_violation)
    insert_account (to_row a id currency)

  -- `findById`
  unfoldable pub find_by_id : AccountId → Action (Option Account)
  find_by_id id = do
    key ← parse_uuid platform id.value
    row ← gets (λ s. find (λ r. r.id == key) s.accounts)
    lift (domain_of row)

unfoldable pub find_by_handle : String → Currency → Action (Option Account)
find_by_handle handle currency db = (
  domain_of (
      find (λ r. option_eq r.handle (some handle) && option_eq (some r.currency) currency.code)
        db.accounts),
  db,
)

abbrev pub row_is_system : AccountType → Bool
row_is_system user = false
row_is_system system = true

-- `rows.map((row) => this.toDomain(row))`
unfoldable pub all_to_domain : List AccountRow → Result (List Account) Failure
all_to_domain [] = ok []
all_to_domain (row ∷ rows) = elim (to_domain row) [
  | err e ↦ err e
  | ok a ↦ elim (all_to_domain rows) [ err e ↦ err e | ok rest ↦ ok (a ∷ rest) ]
]

-- The query has no order: its rows are taken in the order of the table.
unfoldable pub list_visible_to : String → Action (List Account)
list_visible_to owner_id db = (
  all_to_domain
      (select (λ r. option_eq r.owner_id (some owner_id) || row_is_system r.type) db.accounts),
  db,
)
