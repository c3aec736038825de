-- ===== src/Application/Poster/Lookups.antt =====
-- The first part of LedgerPoster.post: the accounts that are found, and the floors collected from
-- them.
use miniledger.Base.{
  ℤ, ◌≡◌, refl, sym, ap, ◌∙◌, ◌⊎◌, inl, inr, String, true, Option, none, some, List, [], ◌∷◌, map,
  All, find, lookup, lookup-insert_eq, lookup-insert_ne, ok, ◌==◌, eq_iff, arith, Bool-cases,
  Result-cases, subst, ok-injective, some-eq-some,
}
use miniledger.Kernel.Currency
use miniledger.Kernel.Currency.{Currency}
use miniledger.Domain.Ids.{AccountId}
use miniledger.Domain.Account.{Account}
use miniledger.Persistence.Store.{Db, AccountRow}
use miniledger.Persistence.Platform.{Platform, IsCanonical}
use miniledger.Persistence.Action.{lift, gets, unless_missing, ◌>>=◌}
use miniledger.Persistence.Action.Laws.{bind-ok, lift-ok, pure-ok}
use miniledger.Persistence.Accounts.{to_domain, domain_of, find_by_id}
use miniledger.Persistence.Balances.{contains}
use miniledger.Application.Poster.{Involved, involve, check_accounts, find_all}

abbrev pub row_at : Db → String → Option AccountRow
row_at db a = find (λ r. r.id == a) db.accounts

abbrev pub values : List AccountId → List String
values ids = map (λ id. id.value) ids

module _ (platform : Platform) where
  -- A lookup by a canonical id reads the row of that id, and changes nothing.
  pub find_by_id_canonical :
      (id : AccountId) (db : Db)
      → IsCanonical platform id.value
      → find_by_id platform id db ≡ (domain_of (row_at db id.value), db)
  unfolding find_by_id ◌>>=◌ unless_missing gets lift
  find_by_id_canonical id db c = rw c

  -- The accounts found for some ids.
  abbrev pub Fetched : Db → List AccountId → List (Option Account) → Type 0
  Fetched db [] [] = Unit
  Fetched db [] (a ∷ rest) = ⊥
  Fetched db (id ∷ ids) [] = ⊥
  Fetched db (id ∷ ids) (a ∷ rest) = (domain_of (row_at db id.value) ≡ ok a) × Fetched db ids rest

  pub find_all-Fetched :
      (ids : List AccountId) {db db' : Db} {found : List (Option Account)}
      → All (λ id. IsCanonical platform id.value) ids
      → find_all platform ids db ≡ (ok found, db')
      → (db ≡ db') × Fetched db ids found
  unfolding find_all lift
  find_all-Fetched [] {db} {found = []} c h = ((pure-ok [] db h).1, tt)
  find_all-Fetched [] {db} {found = a ∷ rest} c h = cc (pure-ok [] db h).0
  find_all-Fetched (id ∷ ids) {db} {db'} {found} c h =
      let first = bind-ok (find_by_id platform id) _ h in
      let (here, same) = lift-ok _ (sym (find_by_id_canonical id db c.0) ∙ first.first) in
      let second = bind-ok (find_all platform ids) _ first.rest in
      let (unchanged, others) = find_all-Fetched ids c.1 second.first in
      let (made, end) = pure-ok (first.value ∷ second.value) second.middle second.rest in
      (
        same ∙ unchanged ∙ end,
        rw (← made) (here, subst (λ d. Fetched d ids second.value) (sym same) others),
      )

  pub to_domain-fields :
      (row : AccountRow) {a : Account}
      → to_domain row ≡ ok a
      → (a.id.value ≡ row.id)
        × (a.overdraft_floor ≡ row.overdraft_floor)
        × (a.type ≡ row.type)
        × (a.owner_id ≡ row.owner_id)
  unfolding to_domain
  to_domain-fields row h = elim (Result-cases (Currency.of row.currency)) [
    | inl (currency, known) ↦ ground arith
    | inr (e, unknown) ↦ ground arith
  ]

  -- A row that is found by an id has that id.
  pub row_at-id :
      (a : String) (rows : List AccountRow) {row : AccountRow}
      → find (λ r. r.id == a) rows ≡ some row
      → row.id ≡ a
  row_at-id a [] h = cc h
  row_at-id a (r ∷ rows) {row} h = elim (Bool-cases (r.id == a)) [
    | inl same ↦ ground (arith, eq_iff r.id a)
    | inr other ↦ row_at-id a rows {row = row} (rw other at h)
  ]

  abbrev pub floor_in : Involved → String → Option (Option ℤ)
  floor_in maps a = lookup a maps.floors

  pub domain_of-row :
      (o : Option AccountRow) {b : Account}
      → domain_of o ≡ ok (some b)
      → (row : AccountRow) × (o ≡ some row)
        × (b.id.value ≡ row.id)
        × (b.overdraft_floor ≡ row.overdraft_floor)
        × (b.type ≡ row.type)
        × (b.owner_id ≡ row.owner_id)
  domain_of-row none h = cc (ok-injective h)
  domain_of-row (some row) {b} h = elim (Result-cases (to_domain row)) [
    | inr (e, failed) ↦ cc (rw (failed, domain_of) at h)
    | inl (a, read) ↦
        let (id, floor, type, owner) = to_domain-fields row {a = a} read in
        let same : a ≡ b = ground arith in
        (row, refl, rw (← same) id, rw (← same) floor, rw (← same) type, rw (← same) owner)
  ]

  -- One account more: its floor is the row's if it is the account in question, and the account in
  -- question is not disturbed otherwise.
  floor_known :
      (db : Db) (a : String) (row : AccountRow) (id : AccountId) (ids : List AccountId)
      (b : Account) (maps : Involved)
      → row_at db a ≡ some row
      → domain_of (row_at db id.value) ≡ ok (some b)
      → ((contains a (values (id ∷ ids)) ≡ true) ⊎ (floor_in maps a ≡ some row.overdraft_floor))
      → (contains a (values ids) ≡ true) ⊎ (floor_in (involve b maps) a ≡ some row.overdraft_floor)
  unfolding contains
  floor_known db a row id ids b maps e f known =
      let (r, at_id, id_eq, floor_eq, type_eq, owner_eq) = domain_of-row (row_at db id.value) f in
      let key : b.id.value ≡ id.value = id_eq ∙ row_at-id id.value db.accounts at_id in
      elim (Bool-cases (id.value == a)) [
        | inl same ↦
            let here : row_at db a ≡ some r =
              subst (λ k. row_at db k ≡ some r) ((eq_iff id.value a).0 same) at_id in
            let rows_eq : r ≡ row = some-eq-some (sym here ∙ e) in
            inr (
              lookup-insert_eq b.id.value a b.overdraft_floor maps.floors (rw key same)
              ∙ ap some (floor_eq ∙ ap (λ x. x.overdraft_floor) rows_eq))
        | inr other ↦ elim known [
          | inl k ↦ inl (rw (other, contains) at k)
          | inr k ↦
              inr (lookup-insert_ne b.id.value a b.overdraft_floor maps.floors (rw key other) ∙ k)
        ]
      ]

  -- Once the floor of a row is among the floors, it stays: the same row is read again.
  pub check_accounts-floor :
      (currency : Currency) (db : Db) (a : String) (row : AccountRow) (ids : List AccountId)
      (found : List (Option Account)) (maps : Involved) {maps' : Involved}
      → row_at db a ≡ some row
      → Fetched db ids found
      → check_accounts currency found maps ≡ ok maps'
      → ((contains a (values ids) ≡ true) ⊎ (floor_in maps a ≡ some row.overdraft_floor))
      → floor_in maps' a ≡ some row.overdraft_floor
  unfolding check_accounts contains
  check_accounts-floor currency db a row [] [] maps e f h known = ground arith
  check_accounts-floor currency db a row [] (b ∷ found) maps e f h known = absurd f
  check_accounts-floor currency db a row (id ∷ ids) [] maps e f h known = absurd f
  check_accounts-floor currency db a row (id ∷ ids) (none ∷ found) maps e f h known = cc h
  check_accounts-floor currency db a row (id ∷ ids) (some b ∷ found) maps {maps'} e f h known =
      elim (Bool-cases (Currency.equals b.currency currency)) [
        | inr other ↦ cc (rw (other, check_accounts) at h)
        | inl same ↦
            check_accounts-floor currency db a row ids found (involve b maps) {maps' = maps'} e f.1
              (rw (same, check_accounts) at h) (floor_known db a row id ids b maps e f.0 known)
      ]
