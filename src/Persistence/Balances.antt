-- ===== src/Persistence/Balances.antt =====
-- src/ledger/infrastructure/persistence/drizzle-account-balances.repository.ts
pub mod Laws
pub mod Locks
pub mod Order
pub mod Ascending
use Prim.Native.String.{compare}
use text.Mathlib.Text.{is_le}
use miniledger.Base.{
  ℤ, pos, String, Bool, true, false, not, ◌||◌, Option, none, some, List, [], ◌∷◌, ◌++◌, map, find,
  Map, lookup, insert, Result, ok, err, ◌==◌, if◌then◌else◌,
}
use miniledger.Domain.Ids.{AccountId}
use miniledger.Persistence.Failure.{
  Failure, database_error, unique_violation, foreign_key_violation, out_of_range, invalid_text,
  no_balance_row,
}
use miniledger.Persistence.Store.{Db, LockedBalance, fits_int8}
use miniledger.Persistence.Platform.{Platform, parse_uuid}
use miniledger.Persistence.Action.{
  Action, pure, throw, gets, throw_if, modify, unless_missing, ◌>>=◌, ◌>>◌,
}

abbrev pub opened : LockedBalance
opened = record { balance = pos 0; chain_hash = none }

abbrev pub is_some {ℓ} : {A : Type ℓ} → Option A → Bool
is_some none = false
is_some (some _) = true

abbrev pub balance_field : Option LockedBalance → Option ℤ
balance_field none = none
balance_field (some row) = some row.balance

-- `update … set … where account_id = id`
unfoldable pub set_where : String → LockedBalance → Map LockedBalance → Map LockedBalance
set_where id row [] = []
set_where id row ((k, v) ∷ m) = (k, if k == id then row else v) ∷ set_where id row m

-- `new Set(…)`: the first of equal ids stays.
unfoldable pub contains : String → List String → Bool
contains s [] = false
contains s (t ∷ ts) = (t == s) || contains s ts

unfoldable pub distinct_from : List String → List String → List String
distinct_from seen [] = []
distinct_from seen (id ∷ ids) =
    let rest = distinct_from seen ids in
    let more = distinct_from (id ∷ seen) ids in if contains id seen then rest else id ∷ more

-- `.sort()`, by code units: for the ASCII texts that ids are, by code points.
unfoldable pub insert_sorted : String → List String → List String
insert_sorted s [] = s ∷ []
insert_sorted s (t ∷ ts) =
    let rest = insert_sorted s ts in if is_le (compare s t) then s ∷ t ∷ ts else t ∷ rest

unfoldable pub sort : List String → List String
sort [] = []
sort (s ∷ ss) = insert_sorted s (sort ss)

-- The ids in the order in which their rows are locked.
unfoldable pub lock_order : List AccountId → List String
lock_order ids = sort (distinct_from [] (map (λ id. id.value) ids))

module _ (platform : Platform) where
  -- `initialize`: the primary key is new, and the account exists.
  unfoldable pub initialize : AccountId → Action (Unit {0})
  initialize id = do
    key ← parse_uuid platform id.value
    row ← gets (λ s. lookup key s.balances)
    throw_if (is_some row) (database_error (unique_violation "account_balances_pkey"))
    account ← gets (λ s. find (λ r. r.id == key) s.accounts)
    throw_if (not (is_some account)) (database_error foreign_key_violation)
    modify (λ s. record s { balances = s.balances ++ (key, opened) ∷ [] })

  -- `find`
  unfoldable pub find_balance : AccountId → Action (Option ℤ)
  find_balance id = do
    key ← parse_uuid platform id.value
    gets (λ s. balance_field (lookup key s.balances))

  unfoldable pub update_balance : AccountId → ℤ → Option String → Action (Unit {0})
  update_balance id balance chain_hash = do
    key ← parse_uuid platform id.value
    throw_if (not (fits_int8 balance)) (database_error out_of_range)
    modify (λ s. record s {
      balances = set_where key (record { balance = balance; chain_hash = chain_hash }) s.balances;
    })

  -- `select … for update` of one row
  unfoldable pub lock_row : Map LockedBalance → String → Result LockedBalance Failure
  lock_row table id = elim (platform.uuid id) [
    | none ↦ err (database_error invalid_text)
    | some key ↦ elim (lookup key table) [ none ↦ err (no_balance_row id) | some row ↦ ok row ]
  ]

  -- The loop of `lockForUpdate`. The map goes by the ids as they were given.
  unfoldable pub lock_from :
      Map LockedBalance → Map LockedBalance → List String → Result (Map LockedBalance) Failure
  lock_from table locked [] = ok locked
  lock_from table locked (id ∷ ids) = elim (lock_row table id) [
    | err e ↦ err e
    | ok row ↦ lock_from table (insert id row locked) ids
  ]

  unfoldable pub lock_for_update : List AccountId → Action (Map LockedBalance)
  lock_for_update ids db = (lock_from db.balances [] (lock_order ids), db)
